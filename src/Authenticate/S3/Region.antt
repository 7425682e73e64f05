-- ===== src/Authenticate/S3/Region.antt =====
-- The provider and the region that a host name stands for, and the configuration made of them.
use credential_helper.Base.{Option, none, some, List, [], ◌∷◌, ◌++◌, if◌then◌else◌}
use credential_helper.Text.{Text, lit, text_eq}
use credential_helper.Text.Affix.{has_prefix, has_suffix, trim_suffix}
use credential_helper.Text.Parts.{split}
use credential_helper.Errors.{Result, ◌>>=◌}
use credential_helper.Lookup.Source.{Source, env, keyring}
use credential_helper.Lookup.Chain.{SourceJson, Config, default_config}
use credential_helper.Authenticate.Token.{from_context}

pub data S3Provider : Type 0 where
  unknown aws cloudflare_r2 : S3Provider

unfoldable pub provider_from_host : Text → S3Provider
provider_from_host host =
    if has_suffix host (lit ".r2.cloudflarestorage.com")
    then cloudflare_r2
    else if has_suffix host (lit ".amazonaws.com")
    then aws
    else unknown

unfoldable pub aws_legacy_global_region : Text → Option Text
aws_legacy_global_region host =
    if text_eq host (lit "s3.amazonaws.com")
    then some (lit "us-east-1")
    else if has_suffix host (lit ".s3.amazonaws.com")
    then some (lit "us-east-1")
    else none

-- s3.<region>
path_style : List Text → Text
path_style (s3 ∷ region ∷ []) = region
path_style _ = []

-- <bucket>.s3.<region>
virtual_hosted_style : List Text → Text
virtual_hosted_style (bucket ∷ s3 ∷ region ∷ []) = region
virtual_hosted_style _ = []

-- the end of `regionFromHost`, without ".amazonaws.com"
regional : Text → Text
unfolding path_style virtual_hosted_style
regional host =
    if has_prefix host (lit "s3.")
    then path_style (split b'.' host)
    else virtual_hosted_style (split b'.' host)

unfoldable pub region_from_host : Text → Text
unfolding regional
region_from_host host =
    if has_suffix host (lit ".r2.cloudflarestorage.com")
    then lit "auto"
    else if has_suffix host (lit ".amazonaws.com")
    then elim (aws_legacy_global_region host) [
      | some region ↦ region
      | none ↦ regional (trim_suffix host (lit ".amazonaws.com"))
    ]
    else []

abbrev pub binding_access_key_id : Text
binding_access_key_id = lit "aws-access-key-id"

abbrev pub binding_secret_access_key : Text
binding_secret_access_key = lit "aws-secret-access-key"

abbrev pub binding_session_token : Text
binding_session_token = lit "aws-session-token"

abbrev pub binding_cloudflare_api_token : Text
binding_cloudflare_api_token = lit "cloudflare-api-token"

abbrev pub binding_region : Text
binding_region = lit "aws-default-region"

pub record ConfigFragment (Raw : Type 0) : Type 0 where
  pub region : Text
  pub lookup_chain : Config Raw

abbrev env_source : Text → Text → Source
env_source name binding = env (record { source = lit "env"; name = name; binding = binding })

abbrev keyring_source : Text → Text → Source
keyring_source service binding =
    keyring (record { source = lit "keyring"; service = service; binding = binding })

abbrev pub common_sources : List Source
common_sources =
    keyring_source (lit "tweag-credential-helper:aws-access-key-id") binding_access_key_id
    ∷ keyring_source (lit "tweag-credential-helper:aws-secret-access-key") binding_secret_access_key
    ∷ keyring_source (lit "tweag-credential-helper:aws-default-region") binding_region
    ∷ []

-- The last one is a `Keyring` whose `Source` says "env".
abbrev pub cloudflare_sources : List Source
cloudflare_sources =
    env_source (lit "R2_ACCESS_KEY_ID") binding_access_key_id
    ∷ env_source (lit "R2_SECRET_ACCESS_KEY") binding_secret_access_key
    ∷ env_source (lit "CLOUDFLARE_API_TOKEN") binding_cloudflare_api_token
    ∷ keyring (record {
      source = lit "env";
      service = lit "tweag-credential-helper:cloudflare-api-token";
      binding = binding_cloudflare_api_token;
    })
    ∷ []

abbrev pub sources_of : S3Provider → List Source
sources_of cloudflare_r2 = cloudflare_sources ++ common_sources
sources_of _ = common_sources

abbrev pub default_region : S3Provider → Text → Text
default_region unknown host = []
default_region aws host = region_from_host host
default_region cloudflare_r2 host = lit "auto"

-- `configFromContext` for a URL with this host; the error of `Default` is its panic
unfoldable pub config_from_context :
    {Raw : Type 0}
    → SourceJson Raw
    → (Raw → ConfigFragment Raw → Result (ConfigFragment Raw))
    → Option Raw
    → Text
    → Result (ConfigFragment Raw)
config_from_context json decode raw host =
    let provider = provider_from_host host in
    default_config json (sources_of provider) >>= λ chain.
    from_context decode raw (record { region = default_region provider host; lookup_chain = chain })
