-- ===== src/Authenticate/GitHub/Scope.antt =====
-- What a cached GitHub response may be used for.
use credential_helper.Base.{◌≡◌, ◌≢◌, arith, inl, inr}
use credential_helper.Text.{Text, lit, text_eq_iff, text_eq_refl}
use credential_helper.Errors.{Result, ok, Result-cases}
use credential_helper.Api.{GetCredentialsRequest, GetCredentialsResponse, Rfc3339}
use credential_helper.Url.{Url, ParseUrl}
use credential_helper.Authenticate.Token.{OauthToken}
use credential_helper.Authenticate.GitHub.{cache_key, get}

module _ (parse_url : ParseUrl) (time : Rfc3339) (base64 : Text → Text)
    (token_source : Result OauthToken) where
  -- If `Get` answers a request, it gives the same answer to every https request with the same
  -- cache key, so that the cached response is the one that the other request would get.
  pub get_same_key :
      (req req' : GetCredentialsRequest) (resp : GetCredentialsResponse) (u' : Url)
      → get parse_url time base64 token_source req ≡ ok resp
      → parse_url req'.uri ≡ ok u'
      → u'.scheme ≡ lit "https"
      → cache_key parse_url req' ≡ cache_key parse_url req
      → get parse_url time base64 token_source req' ≡ ok resp
  unfolding get cache_key
  get_same_key req req' resp u' h parsed https same = elim (Result-cases (parse_url req.uri)) [
    | inr (e, bad) ↦ ground arith
    | inl (u, good) ↦
        let hosts : u'.host ≡ u.host = ground arith in
        ground (arith, text_eq_refl (lit "https"), hosts)
  ]

  -- The cache key does not hold the scheme: a request that `Get` refuses because it is not https
  -- has the key of an https request for the same host.
  pub refused_same_key :
      (req req' : GetCredentialsRequest) (u u' : Url)
      → parse_url req.uri ≡ ok u
      → parse_url req'.uri ≡ ok u'
      → u'.host ≡ u.host
      → u'.scheme ≢ lit "https"
      → (cache_key parse_url req' ≡ cache_key parse_url req)
        × ((resp : GetCredentialsResponse) → get parse_url time base64 token_source req' ≢ ok resp)
  unfolding get cache_key
  refused_same_key req req' u u' a b same bad =
      (ground arith, λ resp h. ground (arith, text_eq_iff u'.scheme (lit "https")))
