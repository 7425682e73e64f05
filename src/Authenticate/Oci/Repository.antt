-- ===== src/Authenticate/Oci/Repository.antt =====
-- `deriveRepository`, `CacheKey` and `GuessOCIRegistry` of authenticate/oci/oci.go.
pub mod Layout
use credential_helper.Base.{
  String, Bool, true, false, not, ◌||◌, ◌&&◌, Option, none, some, List, [], ◌∷◌, ◌++◌,
  if◌then◌else◌,
}
use credential_helper.Text.{Text, lit, text_eq, is_empty}
use credential_helper.Text.Affix.{has_prefix, has_suffix, trim_prefix, trim_suffix}
use credential_helper.Text.Parts.{split}
use credential_helper.Errors.{Error, Result, ok, err, failure, guard, ◌>>=◌, ◌>>◌}
use credential_helper.Api.{GetCredentialsRequest}
use credential_helper.Url.{Url, ParseUrl}

pub record Derived : Type 0 where
  pub registry : Text
  pub repository : Text
  pub ignore : Bool

-- `parts[len(parts)-2]` and `parts[len(parts)-1]`, if there are three parts
unfoldable pub last_two : List Text → Option (Text × Text)
last_two (a ∷ b ∷ c ∷ []) = some (b, c)
last_two (a ∷ b ∷ c ∷ d ∷ parts) = last_two (b ∷ c ∷ d ∷ parts)
last_two _ = none

-- the suffix of an endpoint that is no list of tags
unfoldable pub endpoint_suffix : Text × Text → Option Text
endpoint_suffix (kind, reference) =
    if text_eq kind (lit "blobs")
    then some (lit "/blobs/" ++ reference)
    else if text_eq kind (lit "manifests")
    then some (lit "/manifests/" ++ reference)
    else none

by_suffix : Text → Text → Option Text → Derived
by_suffix host endpoint none = record { registry = host; repository = []; ignore = true }
by_suffix host endpoint (some suffix) = record {
  registry = host;
  repository = trim_suffix endpoint suffix;
  ignore = false;
}

-- from `endpoint` on
derive_endpoint : Text → Text → Derived
unfolding by_suffix
derive_endpoint host endpoint =
    if has_suffix endpoint (lit "/tags/list")
    then record {
      registry = host;
      repository = trim_suffix endpoint (lit "/tags/list");
      ignore = false;
    }
    else elim (last_two (split b'/' endpoint)) [
      | none ↦ record { registry = host; repository = []; ignore = true }
      | some pair ↦ by_suffix host endpoint (endpoint_suffix pair)
    ]

derive_path : Text → Text → Derived
derive_path host path =
    if not (has_prefix path (lit "/v2/"))
    then record { registry = []; repository = []; ignore = true }
    else if text_eq path (lit "/v2/") || text_eq path (lit "/v2")
    then record { registry = host; repository = []; ignore = true }
    else derive_endpoint host (trim_prefix path (lit "/v2/"))

unfoldable pub derive_repository : ParseUrl → Text → Result Derived
unfolding derive_path derive_endpoint
derive_repository parse_url uri = do
  u ← parse_url uri
  guard (text_eq u.scheme (lit "https")) (failure "unsupported scheme")
  guard (not (is_empty u.host)) (failure "missing host")
  ok (derive_path u.host u.path)

-- `CacheKey`; `key_url` prints the URL with this host and this query
unfoldable pub cache_key :
    ParseUrl → (Text → List (Text × Text) → Text) → GetCredentialsRequest → Text
cache_key parse_url key_url req = elim (derive_repository parse_url req.uri) [
  | err e ↦ []
  | ok d ↦
      if d.ignore
      then []
      else key_url d.registry ((lit "repository", d.repository) ∷ (lit "action", lit "pull") ∷ [])
]

-- `GuessOCIRegistry`, over `os.LookupEnv`
unfoldable pub guess_oci_registry : ParseUrl → (Text → Option Text) → Text → Bool
guess_oci_registry parse_url env uri = elim (env (lit "CREDENTIAL_HELPER_GUESS_OCI_REGISTRY")) [
  | none ↦ false
  | some value ↦
      text_eq value (lit "1")
      && elim (derive_repository parse_url uri) [ err e ↦ false | ok d ↦ not d.ignore ]
]
