-- ===== src/Authenticate/RemoteApis.antt =====
-- authenticate/remoteapis/remoteapis.go
pub mod Calls
pub mod ApiKey
pub mod Unconfigured
use credential_helper.Base.{
  Bool, false, not, ◌||◌, Option, none, some, List, [], ◌∷◌, ◌++◌, if◌then◌else◌,
}
use credential_helper.Text.{Text, lit, text_eq, is_empty}
use credential_helper.Text.Affix.{cut_prefix, has_suffix}
use credential_helper.Errors.{Result, ok, err, failure, guard, wrap, ◌>>=◌, ◌>>◌}
use credential_helper.Api.{GetCredentialsRequest, GetCredentialsResponse}
use credential_helper.Url.{Url, ParseUrl}
use credential_helper.Lookup.Source.{Secrets, Source, env, keyring}
use credential_helper.Lookup.Chain.{SourceJson, Config, default_config, lookup}
use credential_helper.Authenticate.Token.{from_context}

-- the well-known gRPC services
abbrev pub services : List Text
services =
    lit "google.bytestream.ByteStream"
    ∷ lit "google.devtools.build.v1.PublishBuildEvent"
    ∷ lit "build.bazel.remote.asset.v1.Fetch"
    ∷ lit "build.bazel.remote.asset.v1.Push"
    ∷ lit "build.bazel.remote.execution.v2.ActionCache"
    ∷ lit "build.bazel.remote.execution.v2.Capabilities"
    ∷ lit "build.bazel.remote.execution.v2.ContentAddressableStorage"
    ∷ lit "build.bazel.remote.execution.v2.Execution"
    ∷ []

-- the cases of `switch rpcName`
unfoldable pub is_service : List Text → Text → Bool
is_service [] name = false
is_service (s ∷ ss) name = text_eq name s || is_service ss name

unfoldable pub cache_key : GetCredentialsRequest → Text
cache_key req = req.uri

pub record ConfigFragment (Raw : Type 0) : Type 0 where
  pub auth_method : Text
  pub header_name : Text
  pub lookup_chain : Config Raw

abbrev two_sources : Text → Text → List Source
two_sources name service =
    env (record { source = lit "env"; name = name; binding = lit "default" })
    ∷ keyring (record { source = lit "keyring"; service = service; binding = lit "default" })
    ∷ []

abbrev pub buildbuddy_sources : List Source
buildbuddy_sources =
    two_sources (lit "BUILDBUDDY_API_KEY") (lit "tweag-credential-helper:buildbuddy_api_key")

abbrev pub default_sources : List Source
default_sources =
    two_sources (lit "CREDENTIAL_HELPER_REMOTEAPIS_SECRET")
      (lit "tweag-credential-helper:remoteapis")

-- `wellKnownServices` has one entry, which also serves the suffix ".buildbuddy.io"
unfoldable pub is_buildbuddy : Text → Bool
is_buildbuddy host =
    text_eq host (lit "remote.buildbuddy.io") || has_suffix host (lit ".buildbuddy.io")

-- `configFromContext` for a URL with this host; the error of `Default` is its panic
unfoldable pub config_from_context :
    {Raw : Type 0}
    → SourceJson Raw
    → (Raw → ConfigFragment Raw → Result (ConfigFragment Raw))
    → Option Raw
    → Text
    → Result (ConfigFragment Raw)
config_from_context json decode raw host =
    if is_buildbuddy host
    then (do
      chain ← default_config json buildbuddy_sources
      from_context decode raw (record {
        auth_method = lit "header";
        header_name = lit "x-buildbuddy-api-key";
        lookup_chain = chain;
      }))
    else (do
      chain ← default_config json default_sources
      from_context decode raw
          (record { auth_method = lit "header"; header_name = []; lookup_chain = chain }))

-- the header's name and value, by the authentication method
unfoldable pub header_for :
    {Raw : Type 0} → (Text → Text) → ConfigFragment Raw → Text → Result (Text × Text)
header_for base64 cfg secret =
    if text_eq cfg.auth_method (lit "header")
    then if is_empty cfg.header_name
      then err (failure "header_name must be set for auth method \"header\"")
      else ok (cfg.header_name, secret)
    else if text_eq cfg.auth_method (lit "basic_auth")
    then ok (
      (if not (is_empty cfg.header_name) then cfg.header_name else lit "authorization"),
      lit "Basic " ++ base64 secret,
    )
    else err (failure "unknown auth method")

module _ {Raw : Type 0} (parse_url : ParseUrl) (json : SourceJson Raw) (world : Secrets)
    (base64 : Text → Text) (decode : Raw → ConfigFragment Raw → Result (ConfigFragment Raw))
    (raw_config : Option Raw) where
  -- from the configuration on
  credentials : Url → Result GetCredentialsResponse
  credentials u = do
    cfg ←
        wrap "getting configuration fragment for remotapis helper and url"
          (config_from_context json decode raw_config u.host)
    secret ← lookup json world cfg.lookup_chain (lit "default")
    (name, value) ← header_for base64 cfg secret
    ok (record { expires = []; headers = (name, value ∷ []) ∷ [] })

  -- `Get`; the inner test of the scheme, which only logs, cannot hold
  unfoldable pub get : GetCredentialsRequest → Result GetCredentialsResponse
  unfolding credentials
  get req = do
    u ← parse_url req.uri
    guard
        (text_eq u.scheme (lit "https")
          || text_eq u.scheme (lit "grpc")
          || text_eq u.scheme (lit "grpcs"))
        (failure "only https, grpc, and grpcs are supported")
    elim (cut_prefix u.path (b'/' ∷ [])) [
      | none ↦ err (failure "remote execution API path must start with /")
      | some rpc_name ↦ do
        guard (is_service services rpc_name) (failure "unknown remote execution API path")
        credentials u
    ]
