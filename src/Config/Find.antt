-- ===== src/Config/Find.antt =====
-- `FindHelper` of config/config.go, and `Configure` of cmd/internal/util/util.go.
pub mod Laws
use credential_helper.Base.{
  String, Bool, true, false, not, ◌&&◌, ◌||◌, Option, none, some, List, [], ◌∷◌, if◌then◌else◌,
}
use credential_helper.Text.{Text, lit, text_eq, is_empty}
use credential_helper.Dict.{Dict}
use credential_helper.Errors.{Error, Result, ok, err, failure, config_not_found, ◌>>=◌}
use credential_helper.Url.{Url, ParseUrl}
use credential_helper.Factory.{helper_from_string}
use credential_helper.Config.Glob.{glob_match}

pub record UrlConfig (Raw : Type 0) : Type 0 where
  pub scheme : Text
  pub host : Text
  pub path : Text
  pub helper : Text
  pub config : Option Raw

-- the field `urls` of `Config`
abbrev pub Config : Type 0 → Type 0
Config Raw = List (UrlConfig Raw)

abbrev pub answer : Option Bool → Bool
answer none = false
answer (some b) = b

-- the three tests that an entry's pattern must pass; an empty field passes
unfoldable pub entry_matches : {Raw : Type 0} → UrlConfig Raw → Url → Bool
entry_matches c u =
    (is_empty c.scheme || text_eq c.scheme u.scheme)
    && (is_empty c.host || answer (glob_match c.host u.host))
    && (is_empty c.path || answer (glob_match c.path u.path))

abbrev is_config_not_found : Error → Bool
is_config_not_found config_not_found = true
is_config_not_found _ = false

module _ {H Raw : Type 0} (helpers : Dict H) where
  -- the helper of an entry that matches, with its configuration
  pub chosen : UrlConfig Raw → Result (Option H × Option Raw)
  chosen c = elim (helper_from_string helpers c.helper) [
    | some helper ↦ ok (some helper, c.config)
    | none ↦ err (failure "unknown helper")
  ]

  -- the loop of `FindHelper`
  unfoldable pub find_loop : Config Raw → Url → Result (Option H × Option Raw)
  unfolding chosen
  find_loop [] u = ok (helper_from_string helpers (lit "null"), none)
  find_loop (c ∷ rest) u =
      if is_empty c.helper
      then err (failure "invalid configuration file: helper field is required")
      else if entry_matches c u
      then chosen c
      else find_loop rest u

  unfoldable pub find_helper : ParseUrl → Config Raw → Text → Result (Option H × Option Raw)
  find_helper parse_url [] uri = do
    u ← parse_url uri
    err (failure "invalid configuration file: no helpers configured")
  find_helper parse_url (c ∷ rest) uri = do u ← parse_url uri; find_loop (c ∷ rest) u

  -- `Configure`: the helper and its configuration; an error is a fatal one. Without a configuration
  -- file the factory chooses.
  unfoldable pub configure :
      ParseUrl
      → (Text → Result (Option H))
      → Result (Config Raw)
      → Text
      → Result (Option H × Option Raw)
  configure parse_url factory (ok cfg) uri = find_helper parse_url cfg uri
  configure parse_url factory (err e) uri =
      if is_config_not_found e then (do helper ← factory uri; ok (helper, none)) else err e
