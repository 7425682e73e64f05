-- ===== src/Authenticate/Gcs.antt =====
-- authenticate/gcs/gcs.go
pub mod Scope
use credential_helper.Base.{String, List, [], ◌∷◌}
use credential_helper.Text.{Text, lit, text_eq}
use credential_helper.Errors.{Result, ok, failure, guard, ◌>>=◌, ◌>>◌}
use credential_helper.Api.{GetCredentialsRequest, GetCredentialsResponse, Rfc3339}
use credential_helper.Url.{ParseUrl, hostname}
use credential_helper.Authenticate.Token.{OauthToken, bearer, expires_text, has_https_port}

unfoldable pub cache_key : GetCredentialsRequest → Text
cache_key req = lit "https://storage.googleapis.com/"

-- `Resolver`, over `gauth.FindDefaultCredentials` for the scopes; the result is the token source
unfoldable pub resolver : (List Text → Result (Result OauthToken)) → Result (Result OauthToken)
resolver find_default_credentials =
    find_default_credentials (lit "https://www.googleapis.com/auth/devstorage.read_only" ∷ [])

module _ (parse_url : ParseUrl) (time : Rfc3339) (token_source : Result OauthToken) where
  unfoldable pub get : GetCredentialsRequest → Result GetCredentialsResponse
  get req = do
    u ← parse_url req.uri
    guard (text_eq u.scheme (lit "https")) (failure "only https is supported")
    guard (text_eq (hostname u) (lit "storage.googleapis.com"))
        (failure "only storage.googleapis.com is supported")
    guard (has_https_port u) (failure "only port 443 is supported")
    token ← token_source
    ok (record {
      expires = expires_text time token.expiry;
      headers = (lit "Authorization", bearer token.access_token ∷ []) ∷ [];
    })
