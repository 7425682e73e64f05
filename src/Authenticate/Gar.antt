-- ===== src/Authenticate/Gar.antt =====
-- authenticate/gar/gar.go
use credential_helper.Base.{List, [], ◌∷◌}
use credential_helper.Text.{Text, lit, text_eq}
use credential_helper.Text.Affix.{trim_prefix, has_suffix}
use credential_helper.Text.Parts.{split, join}
use credential_helper.Errors.{Result, ok, err, failure, guard, ◌>>=◌, ◌>>◌}
use credential_helper.Api.{GetCredentialsRequest, GetCredentialsResponse, Rfc3339}
use credential_helper.Url.{Url, ParseUrl, hostname}
use credential_helper.Authenticate.Token.{OauthToken, bearer, expires_text, has_https_port}

-- `if len(paths) > 2 { paths = paths[:2] }`
abbrev pub first_two : List Text → List Text
first_two (a ∷ b ∷ rest) = a ∷ b ∷ []
first_two paths = paths

-- the path of the cache key
unfoldable pub repository_path : Text → Text
repository_path path = b'/' ∷ join b'/' (first_two (split b'/' (trim_prefix path (b'/' ∷ []))))

unfoldable pub cache_key : ParseUrl → (Url → Text) → GetCredentialsRequest → Text
cache_key parse_url print_url req = elim (parse_url req.uri) [
  | err e ↦ req.uri
  | ok u ↦ print_url (record u { path = repository_path u.path })
]

unfoldable pub resolver : (List Text → Result (Result OauthToken)) → Result (Result OauthToken)
resolver find_default_credentials =
    find_default_credentials (lit "https://www.googleapis.com/auth/cloud-platform.read-only" ∷ [])

module _ (parse_url : ParseUrl) (time : Rfc3339) (token_source : Result OauthToken) where
  unfoldable pub get : GetCredentialsRequest → Result GetCredentialsResponse
  get req = do
    u ← parse_url req.uri
    guard (text_eq u.scheme (lit "https")) (failure "only https is supported")
    guard (has_suffix (hostname u) (lit "pkg.dev")) (failure "only pkg.dev URLs are supported")
    guard (has_https_port u) (failure "only port 443 is supported")
    token ← token_source
    ok (record {
      expires = expires_text time token.expiry;
      headers = (lit "Authorization", bearer token.access_token ∷ []) ∷ [];
    })
