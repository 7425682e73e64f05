-- ===== src/Factory.antt =====
-- helperfactory/fallback/fallback_factory.go and registry/registry.go: which helper serves a URL or
-- a name.
pub mod Choice
use credential_helper.Base.{
  ℕ, Bool, true, false, not, ◌||◌, ◌&&◌, Option, List, [], ◌∷◌, if◌then◌else◌, map,
}
use credential_helper.Text.{Text, lit, equal_fold, to_lower}
use credential_helper.Text.Affix.{has_suffix}
use credential_helper.Dict.{Dict, lookup, insert}
use credential_helper.Errors.{Result, ok, ◌>>=◌}
use credential_helper.Url.{Url, ParseUrl, hostname}
use credential_helper.Authenticate.Oci.Repository.{guess_oci_registry}

-- the helpers that come with the program
pub data Builtin : Type 0 where
  gcs gar azstorage github null oci remoteapis s3 : Builtin

-- the fixed names of container registries, and the suffixes
unfoldable pub is_container_registry : Text → Bool
is_container_registry host =
    has_suffix host (lit ".app.snowflake.com")
    || has_suffix host (lit ".azurecr.io")
    || equal_fold host (lit "cgr.dev")
    || equal_fold host (lit "docker.elastic.co")
    || equal_fold host (lit "gcr.io")
    || equal_fold host (lit "ghcr.io")
    || equal_fold host (lit "index.docker.io")
    || equal_fold host (lit "nvcr.io")
    || equal_fold host (lit "public.ecr.aws")
    || equal_fold host (lit "quay.io")
    || equal_fold host (lit "registry.gitlab.com")

-- the three cases for GitHub; the second one looks at the host with its port
unfoldable pub is_github : Url → Bool
is_github u =
    equal_fold (hostname u) (lit "github.com")
    || has_suffix (to_lower u.host) (lit ".github.com")
    || equal_fold (hostname u) (lit "raw.githubusercontent.com")

-- the `switch`; `guess` is `GuessOCIRegistry` of the URL
unfoldable pub choose : Bool → Url → Builtin
choose guess u =
    if has_suffix (hostname u) (lit ".amazonaws.com")
    then s3
    else if equal_fold (hostname u) (lit "storage.googleapis.com")
    then gcs
    else if is_github u
    then github
    else if has_suffix (to_lower (hostname u)) (lit ".r2.cloudflarestorage.com")
        && not (u.query_has (lit "X-Amz-Expires"))
    then s3
    else if has_suffix (hostname u) (lit ".buildbuddy.io")
    then remoteapis
    else if has_suffix (hostname u) (lit "pkg.dev")
    then gar
    else if has_suffix (hostname u) (lit "blob.core.windows.net")
    then azstorage
    else if is_container_registry (hostname u)
    then oci
    else if guess
    then oci
    else null

unfoldable pub fallback_helper_factory : ParseUrl → (Text → Option Text) → Text → Result Builtin
fallback_helper_factory parse_url env raw_url = do
  u ← parse_url raw_url
  ok (choose (guess_oci_registry parse_url env raw_url) u)

-- `singleton` of the registry
abbrev pub builtin_helpers : Dict Builtin
builtin_helpers =
    (lit "gcs", gcs)
    ∷ (lit "gar", gar)
    ∷ (lit "azstorage", azstorage)
    ∷ (lit "github", github)
    ∷ (lit "null", null)
    ∷ (lit "oci", oci)
    ∷ (lit "remoteapis", remoteapis)
    ∷ (lit "s3", s3)
    ∷ []

module _ {H : Type 0} where
  -- `HelperFromString`; `none` is nil
  unfoldable pub helper_from_string : Dict H → Text → Option H
  helper_from_string helpers s = lookup s helpers

  -- `Register`
  unfoldable pub register : Dict H → Text → H → Dict H
  register helpers name helper = insert name helper helpers

  -- `Names`
  unfoldable pub names : Dict H → List Text
  names helpers = map (λ pair. pair.0) helpers
