-- ===== src/Authenticate/AzStorage.antt =====
-- authenticate/azstorage/azstorage.go
use credential_helper.Base.{ℕ, Option, none, some, List, [], ◌∷◌, if◌then◌else◌}
use credential_helper.Base.Int.{pos}
use credential_helper.Text.{Text, lit, text_eq, is_empty}
use credential_helper.Text.Affix.{has_suffix}
use credential_helper.Errors.{Result, ok, err, failure, guard, ◌>>=◌, ◌>>◌}
use credential_helper.Api.{GetCredentialsRequest, GetCredentialsResponse, Rfc3339}
use credential_helper.Url.{Url, ParseUrl, hostname}
use credential_helper.Authenticate.Gar.{repository_path}
use credential_helper.Authenticate.Token.{OauthToken, bearer, expires_text, has_https_port}

-- `CacheKey` has the text of the one in gar.go
unfoldable pub cache_key : ParseUrl → (Url → Text) → GetCredentialsRequest → Text
cache_key parse_url print_url req = elim (parse_url req.uri) [
  | err e ↦ req.uri
  | ok u ↦ print_url (record u { path = repository_path u.path })
]

-- `azcore.AccessToken`
pub record AccessToken : Type 0 where
  pub token : Text
  pub expires_on : Option ℕ

-- `AzureTokenSource.Token`, over `GetToken` of the credential for the scopes
unfoldable pub azure_token : (List Text → Result AccessToken) → List Text → Result OauthToken
azure_token get_token scopes = do
  t ← get_token scopes
  ok (record {
    access_token = t.token;
    token_type = lit "Bearer";
    refresh_token = [];
    expiry = t.expires_on;
    expires_in = pos 0;
  })

-- `Resolver`, over `azidentity.NewDefaultAzureCredential`
unfoldable pub resolver : Result (List Text → Result AccessToken) → Result (Result OauthToken)
resolver new_credential = do
  get_token ← new_credential
  ok (azure_token get_token (lit "https://storage.azure.com/.default" ∷ []))

-- `getenv`: an empty variable reads as the fallback, as a missing one does
unfoldable pub getenv : (Text → Option Text) → Text → Text → Text
getenv env key fallback = elim (env key) [
  | none ↦ fallback
  | some value ↦ if is_empty value then fallback else value
]

module _ (parse_url : ParseUrl) (time : Rfc3339) (env : Text → Option Text)
    (token_source : Result OauthToken) where
  unfoldable pub get : GetCredentialsRequest → Result GetCredentialsResponse
  get req = do
    u ← parse_url req.uri
    guard (text_eq u.scheme (lit "https")) (failure "only https is supported")
    guard (has_suffix (hostname u) (lit "blob.core.windows.net"))
        (failure "only blob.core.windows.net URLs are supported")
    guard (has_https_port u) (failure "only port 443 is supported")
    token ← token_source
    ok (record {
      expires = expires_text time token.expiry;
      headers =
          (lit "Authorization", bearer token.access_token ∷ [])
          ∷ (
            lit "x-ms-version",
            getenv env (lit "AZURE_HEADER_X_MS_VERSION") (lit "2025-07-05") ∷ [],
          )
          ∷ [];
    })
