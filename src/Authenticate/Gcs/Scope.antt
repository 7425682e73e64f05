-- ===== src/Authenticate/Gcs/Scope.antt =====
-- The requests for which the Google Cloud Storage helper hands out its token.
use credential_helper.Base.{◌≡◌, ◌↔◌, true, ◌||◌, arith, [], ◌∷◌, ◌⊎◌, inl, inr}
use credential_helper.Text.{Text, lit, text_eq, text_eq_iff, is_empty}
use credential_helper.Errors.{ok, Result-cases}
use credential_helper.Api.{GetCredentialsRequest, GetCredentialsResponse, Rfc3339}
use credential_helper.Url.{Url, ParseUrl, hostname, port}
use credential_helper.Authenticate.Token.{OauthToken, bearer, expires_text, has_https_port}
use credential_helper.Authenticate.Gcs.{get}

-- An https URL of storage.googleapis.com at the standard port.
pub record InScope (u : Url) : Type 0 where
  pub https : u.scheme ≡ lit "https"
  pub host : hostname u ≡ lit "storage.googleapis.com"
  pub standard_port : (port u ≡ []) ⊎ (port u ≡ lit "443")

has_https_port-cases :
    (u : Url) → (has_https_port u ≡ true) ↔ ((port u ≡ []) ⊎ (port u ≡ lit "443"))
has_https_port-cases u = go (port u)
  where
    go : (p : Text) → ((is_empty p || text_eq p (lit "443")) ≡ true) ↔ ((p ≡ []) ⊎ (p ≡ lit "443"))
    go [] = ground arith
    go (c ∷ p) = ground (arith, text_eq_iff (c ∷ p) (lit "443"))

module _ (parse_url : ParseUrl) (time : Rfc3339) (token : OauthToken) where
  -- With a token at hand, `Get` answers with that token and its expiry time exactly for the URLs
  -- that parse, are https, name storage.googleapis.com and have no port or port 443.
  pub get-InScope_iff :
      (req : GetCredentialsRequest) (resp : GetCredentialsResponse)
      → (get parse_url time (ok token) req ≡ ok resp) ↔ (
          ((u : Url) × (parse_url req.uri ≡ ok u) × InScope u)
          × (resp ≡ record {
            expires = expires_text time token.expiry;
            headers = (lit "Authorization", bearer token.access_token ∷ []) ∷ [];
          }))
  unfolding get
  get-InScope_iff req resp = (
    λ h. elim (Result-cases (parse_url req.uri)) [
      | inr (e, bad) ↦ absurd (ground arith)
      | inl (u, good) ↦ (
        (
          u,
          good,
          record {
            https = ground (arith, text_eq_iff u.scheme (lit "https"));
            host = ground (arith, text_eq_iff (hostname u) (lit "storage.googleapis.com"));
            standard_port = ground (arith, has_https_port-cases u);
          },
        ),
        ground arith,
      )
    ],
    λ ((u, good, s), made). ground (
      arith,
      s.https,
      s.host,
      s.standard_port,
      has_https_port-cases u,
      text_eq_iff u.scheme (lit "https"),
      text_eq_iff (hostname u) (lit "storage.googleapis.com"),
    ),
  )
