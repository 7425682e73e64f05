-- ===== src/Authenticate/Oci/Exchange.antt =====
-- `WWWAuthenticate`, `Exchange`, `basicToken`, `oauthToken` and `Get` of authenticate/oci/oci.go.
pub mod Methods
pub mod SameKey
use credential_helper.Base.{
  ℕ, String, Bool, true, false, not, Option, none, some, List, [], ◌∷◌, ◌++◌, ◌&&◌, ◌||◌,
  if◌then◌else◌, ◌==◌,
}
use credential_helper.Base.Int.{pos}
use credential_helper.Text.{Text, lit, text_eq, is_empty}
use credential_helper.Text.Parts.{join}
use credential_helper.Dict.{Dict, lookup}
use credential_helper.Errors.{Error, Result, ok, err, failure, guard, wrap, ◌>>=◌, ◌>>◌}
use credential_helper.Api.{GetCredentialsRequest, GetCredentialsResponse, Rfc3339, empty_response}
use credential_helper.Url.{ParseUrl}
use credential_helper.Authenticate.Token.{OauthToken, bearer, expires_text}
use credential_helper.Authenticate.Oci.Repository.{Derived, derive_repository}
use credential_helper.Authenticate.Oci.Challenge.{Unquote, parse_www_authenticate}
use credential_helper.Authenticate.Oci.Tokens.{
  WwwAuthenticate, AuthConfig, BasicAuthToken, OAuth2Token, convert_basic, convert_oauth2,
}

-- A response: its status, and its body as far as it decodes.
pub record Reply (A : Type 0) : Type 0 where
  pub status : ℕ
  pub body : Result A

-- The HTTP client. `challenge` asks https://<registry>/v2/ and gives the status and the header
-- "WWW-Authenticate"; `get_token` asks the realm with these query parameters and, if there is one,
-- this user and password; `post_form` sends the form to the realm.
pub record Http : Type 0 where
  pub challenge : Text → Result (ℕ × Text)
  pub get_token : Text → List (Text × Text) → Option (Text × Text) → Result (Reply BasicAuthToken)
  pub post_form : Text → List (Text × Text) → Result (Reply OAuth2Token)

field_of : Option (Dict Text) → Text → Option Text
field_of none key = none
field_of (some values) key = lookup key values

require : Option Text → String → Result Text
require none what = err (failure what)
require (some value) what = ok value

module _ (http : Http) (unquote : Unquote) (time : Rfc3339) (now : ℕ) where
  -- `WWWAuthenticate`, over the known challenges
  unfoldable pub www_authenticate : Dict WwwAuthenticate → Text → Result WwwAuthenticate
  unfolding field_of require
  www_authenticate known registry = elim (lookup registry known) [
    | some realm ↦ ok realm
    | none ↦ do
      (status, header) ← http.challenge registry
      guard (status == 401) (failure "learning realm: unexpected status code")
      guard (not (is_empty header)) (failure "missing WWW-Authenticate header")
      values ← parse_www_authenticate unquote header
      realm ← require (field_of values (lit "realm")) "missing realm in WWW-Authenticate header"
      service ←
          require (field_of values (lit "service")) "missing service in WWW-Authenticate header"
      ok (record { realm = realm; service = service })
  ]

  abbrev basic_user : AuthConfig → Option (Text × Text)
  basic_user cfg =
      if not (is_empty cfg.username) && not (is_empty cfg.password)
      then some (cfg.username, cfg.password)
      else none

  unfoldable pub basic_token : Text → Text → List Text → AuthConfig → Result OauthToken
  basic_token service realm scopes cfg = do
    resp ←
        http.get_token realm ((lit "scope", join b' ' scopes) ∷ (lit "service", service) ∷ [])
          (basic_user cfg)
    guard (resp.status == 200) (failure "unexpected status code when obtaining token")
    token ← wrap "decoding token response" resp.body
    ok (convert_basic time now token)

  abbrev form : Text → List Text → List (Text × Text) → List (Text × Text)
  form service scopes grant =
      (lit "scope", join b' ' scopes)
      ∷ (lit "service", service)
      ∷ (lit "client_id", lit "tweag-credential-helper")
      ∷ grant

  -- the POST request of `oauthToken`, with its fall back to `basicToken`
  post_token : Text → Text → List Text → AuthConfig → List (Text × Text) → Result OauthToken
  post_token service realm scopes cfg grant = do
    resp ← http.post_form realm (form service scopes grant)
    if resp.status == 404 then basic_token service realm scopes cfg else (do
      guard (resp.status == 200) (failure "unexpected status code when obtaining token")
      token ← wrap "decoding token response" resp.body
      ok (convert_oauth2 time now token))

  unfoldable pub oauth_token : Text → Text → List Text → AuthConfig → Result OauthToken
  unfolding post_token
  oauth_token service realm scopes cfg =
      if not (is_empty cfg.identity_token)
      then post_token service realm scopes cfg
          ((lit "grant_type", lit "refresh_token") ∷ (lit "refresh_token", cfg.identity_token) ∷ [])
      else if not (is_empty cfg.username) && not (is_empty cfg.password)
      then post_token service realm scopes cfg (
          (lit "grant_type", lit "password")
          ∷ (lit "username", cfg.username)
          ∷ (lit "password", cfg.password)
          ∷ [])
      else basic_token service realm scopes cfg

  -- a token that needs no exchange
  abbrev registry_token_of : Text → OauthToken
  registry_token_of token = record {
    access_token = token;
    token_type = lit "bearer";
    refresh_token = [];
    expiry = none;
    expires_in = pos 0;
  }

  -- the end of `Exchange`: the method that the auth config asks for
  unfoldable pub exchange_with : WwwAuthenticate → List Text → AuthConfig → Result OauthToken
  exchange_with www scopes cfg =
      if not (is_empty cfg.registry_token)
      then ok (registry_token_of cfg.registry_token)
      else if text_eq cfg.token_exchange_method (lit "basic")
      then basic_token www.service www.realm scopes cfg
      else if text_eq cfg.token_exchange_method (lit "oauth2")
      then oauth_token www.service www.realm scopes cfg
      else if not (text_eq cfg.token_exchange_method (lit "auto"))
      then err (failure "unsupported token exchange method")
      else if text_eq cfg.username (lit "<token>") || not (is_empty cfg.identity_token)
      then oauth_token www.service www.realm scopes cfg
      else basic_token www.service www.realm scopes cfg

  module _ {Known : Type 0} (challenges : Dict WwwAuthenticate)
      (derive_auth_config : Text → Text → Text → Known → Result AuthConfig × Known) where
    -- `Exchange`, with the authenticators that `deriveAuthConfig` leaves
    unfoldable pub exchange : Text → List Text → Known → Result OauthToken × Known
    exchange registry scopes known = elim (www_authenticate challenges registry) [
      | err e ↦ (wrap "learning realm and service for registry" (err e), known)
      | ok www ↦
          let (cfg, known') = derive_auth_config registry www.service www.realm known in
          ((wrap "deriving auth config for registry" cfg >>= exchange_with www scopes), known')
    ]

    abbrev pub accepted : List Text
    accepted =
        lit "application/vnd.docker.distribution.manifest.v2+json"
        ∷ lit "application/vnd.oci.image.manifest.v1+json"
        ∷ lit "application/vnd.docker.distribution.manifest.list.v2+json"
        ∷ lit "application/vnd.oci.image.index.v1+json"
        ∷ []

    token_response : Result OauthToken → Result GetCredentialsResponse
    token_response (err e) = err e
    token_response (ok token) = ok (record {
      expires = expires_text time token.expiry;
      headers =
          (lit "Authorization", bearer token.access_token ∷ [])
          ∷ (lit "Accept", accepted)
          ∷ (lit "Docker-Distribution-API-Version", lit "registry/2.0" ∷ [])
          ∷ [];
    })

    get_derived : Derived → Known → Result GetCredentialsResponse × Known
    unfolding token_response
    get_derived d known =
        let (token, known') =
          exchange d.registry ((lit "repository:" ++ (d.repository ++ lit ":pull")) ∷ []) known in
        if d.ignore then (ok empty_response, known) else (token_response token, known')

    unfoldable pub get :
        ParseUrl → GetCredentialsRequest → Known → Result GetCredentialsResponse × Known
    unfolding get_derived
    get parse_url req known = elim (derive_repository parse_url req.uri) [
      | err e ↦ (err e, known)
      | ok d ↦ get_derived d known
    ]
