-- ===== src/Authenticate/S3/Get.antt =====
-- `CacheKey` and `Get` of the S3 helper. The AWS libraries are parameters.
use credential_helper.Base.{
  ℕ, ◌+◌, Bool, true, false, not, ◌&&◌, Option, none, some, List, [], ◌∷◌, if◌then◌else◌,
}
use credential_helper.Text.{Text, lit, text_eq, is_empty}
use credential_helper.Dict.{Dict}
use credential_helper.Errors.{Result, ok, err, failure, guard, wrap, ◌>>=◌, ◌>>◌}
use credential_helper.Api.{GetCredentialsRequest, GetCredentialsResponse, Rfc3339, empty_response}
use credential_helper.Url.{Url, ParseUrl}
use credential_helper.Lookup.Source.{Secrets}
use credential_helper.Lookup.Chain.{SourceJson, lookup}
use credential_helper.Authenticate.S3.Region.{
  S3Provider, cloudflare_r2, provider_from_host, ConfigFragment, config_from_context,
  binding_access_key_id, binding_secret_access_key, binding_session_token,
  binding_cloudflare_api_token, binding_region,
}

unfoldable pub cache_key : GetCredentialsRequest → Text
cache_key req = req.uri

-- `credentials.NewStaticCredentialsProvider`
pub record StaticCredentials : Type 0 where
  pub access_key_id : Text
  pub secret_access_key : Text
  pub session_token : Text

-- the options for `config.LoadDefaultConfig`
pub record AwsOptions : Type 0 where
  pub credentials : Option StaticCredentials
  pub region : Option Text

-- The AWS SDK: `LoadDefaultConfig`, then `Credentials.Retrieve`, then `SignHTTP` of a request with
-- these headers for the region at an instant.
pub record Aws (Creds : Type 0) : Type 0 where
  pub load_default_config : AwsOptions → Result (Result Creds)
  pub sign_http : Creds → Url → Dict (List Text) → Text → ℕ → Result (Dict (List Text))

abbrev pub empty_sha256 : Text
empty_sha256 = lit "e3b0c44298fc1c149afbf4c8996fb92427ae41e4649b934ca495991b7852b855"

-- 15 * time.Minute, in seconds
abbrev pub expires_in : ℕ
expires_in = 900

-- what a lookup finds, and what was there before if it fails
abbrev pub or_else : Result Text → Text → Text
or_else (ok value) before = value
or_else (err e) before = before

-- What `Get` gathers before it signs.
pub record Gathered : Type 0 where
  pub access_key_id : Text
  pub secret_access_key : Text
  pub session_token : Text
  pub region : Text

abbrev is_cloudflare : S3Provider → Bool
is_cloudflare cloudflare_r2 = true
is_cloudflare _ = false

module _ {Raw : Type 0} (json : SourceJson Raw) (world : Secrets) (sha256_hex : Text → Text) where
  -- the lookups in `Get`
  unfoldable pub gather : ConfigFragment Raw → Text → Gathered
  gather cfg host =
      let find = lookup json world cfg.lookup_chain in
      let derived =
        if is_cloudflare (provider_from_host host)
        then elim (find binding_cloudflare_api_token) [ ok token ↦ sha256_hex token | err _ ↦ [] ]
        else [] in
      record {
        access_key_id = or_else (find binding_access_key_id) [];
        secret_access_key = or_else (find binding_secret_access_key) derived;
        session_token = or_else (find binding_session_token) [];
        region = or_else (find binding_region) cfg.region;
      }

-- `awsConfigOptions`
unfoldable pub aws_options : Gathered → AwsOptions
aws_options g = record {
  credentials =
      if not (is_empty g.access_key_id) && not (is_empty g.secret_access_key)
      then some (record {
        access_key_id = g.access_key_id;
        secret_access_key = g.secret_access_key;
        session_token = g.session_token;
      })
      else none;
  region = if not (is_empty g.region) then some g.region else none;
}

module _ {Raw Creds : Type 0} (parse_url : ParseUrl) (time : Rfc3339) (json : SourceJson Raw)
    (world : Secrets) (sha256_hex : Text → Text) (aws_sdk : Aws Creds)
    (decode : Raw → ConfigFragment Raw → Result (ConfigFragment Raw)) (raw_config : Option Raw)
    (now : ℕ) where
  -- from the configuration on
  signed : Url → Result GetCredentialsResponse
  signed u = do
    cfg ←
        wrap "getting configuration fragment for remotapis helper and url"
          (config_from_context json decode raw_config u.host)
    let g = gather json world sha256_hex cfg u.host
    aws_config ← aws_sdk.load_default_config (aws_options g)
    cred ← aws_config
    headers ←
        aws_sdk.sign_http cred u ((lit "X-Amz-Content-SHA256", empty_sha256 ∷ []) ∷ []) g.region now
    ok (record { expires = time.format (now + expires_in); headers = headers })

  unfoldable pub get : GetCredentialsRequest → Result GetCredentialsResponse
  unfolding signed
  get req = do
    u ← parse_url req.uri
    if u.query_has (lit "X-Amz-Expires") then ok empty_response else (do
      guard (text_eq u.scheme (lit "https")) (failure "only https is supported")
      signed u)
