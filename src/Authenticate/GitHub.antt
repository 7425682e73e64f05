-- ===== src/Authenticate/GitHub.antt =====
-- authenticate/github/github.go. The paths of the configuration directory, its YAML file and the
-- HTTP client are parameters.
pub mod Scope
use credential_helper.Base.{
  ℕ, String, Bool, true, false, not, ◌||◌, ◌&&◌, Option, none, some, List, [], ◌∷◌, ◌++◌,
  if◌then◌else◌,
}
use credential_helper.Base.Int.{pos}
use credential_helper.Text.{Text, lit, text_eq, equal_fold, to_lower, is_empty}
use credential_helper.Text.Affix.{has_suffix}
use credential_helper.Dict.{Dict, lookup}
use credential_helper.Errors.{Error, Result, ok, err, failure, guard, is_not_found_err, ◌>>=◌, ◌>>◌}
use credential_helper.Api.{GetCredentialsRequest, GetCredentialsResponse, Rfc3339}
use credential_helper.Url.{Url, ParseUrl}
use credential_helper.Lookup.Source.{Secrets, Source, env, keyring}
use credential_helper.Lookup.Chain
use credential_helper.Lookup.Chain.{SourceJson, Config, default_config}
use credential_helper.Authenticate.Token.{OauthToken, bearer, expires_text, from_context}

unfoldable pub cache_key : ParseUrl → GetCredentialsRequest → Text
cache_key parse_url req = elim (parse_url req.uri) [ err e ↦ [] | ok u ↦ u.host ]

-- the first `switch` of `Get`
unfoldable pub is_github_host : Text → Bool
is_github_host host =
    equal_fold host (lit "github.com")
    || has_suffix (to_lower host) (lit ".github.com")
    || equal_fold host (lit "raw.githubusercontent.com")

-- the second `switch` of `Get`, over `base64.StdEncoding.EncodeToString`
unfoldable pub auth_string : (Text → Text) → Text → Text → Text
auth_string base64 host token =
    if equal_fold host (lit "raw.githubusercontent.com")
    then lit "Basic " ++ base64 (token ++ lit ":")
    else bearer token

module _ (parse_url : ParseUrl) (time : Rfc3339) (base64 : Text → Text)
    (token_source : Result OauthToken) where
  unfoldable pub get : GetCredentialsRequest → Result GetCredentialsResponse
  get req = do
    u ← parse_url req.uri
    guard (text_eq u.scheme (lit "https")) (failure "only https is supported")
    guard (is_github_host u.host) (failure "only github.com and subdomains are supported")
    token ← token_source
    ok (record {
      expires = expires_text time token.expiry;
      headers = (lit "Authorization", auth_string base64 u.host token.access_token ∷ []) ∷ [];
    })

-- `configDir`, over `os.Getenv`, `filepath.Join` and the home directory
unfoldable pub config_dir : (Text → Text) → (List Text → Text) → Bool → Text → Text
config_dir getenv path_join windows home =
    let a = getenv (lit "GH_CONFIG_DIR") in
    let b = getenv (lit "XDG_CONFIG_HOME") in
    let c = getenv (lit "AppData") in
    if not (is_empty a)
    then a
    else if not (is_empty b)
    then path_join (b ∷ lit "gh" ∷ [])
    else if windows && not (is_empty c)
    then path_join (c ∷ lit "GitHub CLI" ∷ [])
    else path_join (home ∷ lit ".config" ∷ lit "gh" ∷ [])

-- `HostsFile`: the "oauth_token" for each host
abbrev pub HostsFile : Type 0
HostsFile = Dict Text

pub record ConfigFragment (Raw : Type 0) : Type 0 where
  pub lookup_chain : Config Raw
  pub read_config_file : Bool

-- the sources that `configFromContext` starts from
abbrev pub default_sources : List Source
default_sources =
    env (record { source = lit "env"; name = lit "GH_TOKEN"; binding = lit "default" })
    ∷ env (record { source = lit "env"; name = lit "GITHUB_TOKEN"; binding = lit "default" })
    ∷ keyring
        (record { source = lit "keyring"; service = lit "gh:github.com"; binding = lit "default" })
    ∷ []

module _ {Raw : Type 0} (json : SourceJson Raw) (world : Secrets) where
  -- `configFromContext`; the error of `Default` is its panic
  unfoldable pub config_from_context :
      (Raw → ConfigFragment Raw → Result (ConfigFragment Raw))
      → Option Raw
      → Result (ConfigFragment Raw)
  config_from_context decode raw = do
    chain ← default_config json default_sources
    from_context decode raw (record { lookup_chain = chain; read_config_file = true })

  -- the token in hosts.yml
  token_in : Option Text → Result Text
  token_in none = err (failure "no token available")
  token_in (some t) = if is_empty t then err (failure "no token available") else ok t

  module _ (hosts_file : Result HostsFile) (expiration : Text → Option ℕ) where
    find_token : ConfigFragment Raw → Result Text → Result Text
    unfolding token_in
    find_token config (ok token) = ok token
    find_token config (err e) =
        let from_file = (do hosts ← hosts_file; token_in (lookup (lit "github.com") hosts)) in
        if is_not_found_err e && config.read_config_file then from_file else err e

    -- `GitHubTokenSource.Token`; `expiration` is `checkTokenExpiration`
    unfoldable pub github_token : ConfigFragment Raw → Result OauthToken
    unfolding find_token
    github_token config = do
      token ← find_token config (Chain.lookup json world config.lookup_chain (lit "default"))
      ok (record {
        access_token = token;
        token_type = [];
        refresh_token = [];
        expiry = expiration token;
        expires_in = pos 0;
      })

-- `checkTokenExpiration`, over the request to https://api.github.com/rate_limit, whose result is
-- the header that holds the time, and over `time.Parse`
unfoldable pub check_token_expiration : (Text → Result Text) → (Text → Option ℕ) → Text → Option ℕ
check_token_expiration rate_limit parse_time token = elim (rate_limit (bearer token)) [
  | err e ↦ none
  | ok header ↦ parse_time header
]
