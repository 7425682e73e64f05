-- ===== src/Authenticate/Oci/Exchange/SameKey.antt =====
-- What a cached response of a registry may be used for.
use credential_helper.Base.{
  ℕ, ◌≡◌, ◌≢◌, refl, ap, sym, ◌∙◌, false, Bool-cases, inl, inr, List, [], ◌∷◌, arith,
}
use credential_helper.Text.{Text, lit}
use credential_helper.Dict.{Dict}
use credential_helper.Errors.{Result, ok, Result-cases}
use credential_helper.Api.{GetCredentialsRequest, Rfc3339}
use credential_helper.Url.{ParseUrl}
use credential_helper.Authenticate.Oci.Repository.{Derived, derive_repository, cache_key}
use credential_helper.Authenticate.Oci.Challenge.{Unquote}
use credential_helper.Authenticate.Oci.Tokens.{AuthConfig, WwwAuthenticate}
use credential_helper.Authenticate.Oci.Exchange.{Http, get}

-- the query of a cache key
abbrev pub key_query : Text → List (Text × Text)
key_query repository = (lit "repository", repository) ∷ (lit "action", lit "pull") ∷ []

-- Printing escapes the parts of a URL: a different host or repository gives a different URL.
abbrev pub IsEscaping : (Text → List (Text × Text) → Text) → Type 0
IsEscaping key_url =
    (host host' repository repository' : Text)
    → key_url host (key_query repository) ≡ key_url host' (key_query repository')
    → (host ≡ host') × (repository ≡ repository')

module _ (parse_url : ParseUrl) (key_url : Text → List (Text × Text) → Text) where
  -- what a request that has a cache key asks for
  has_key :
      (req : GetCredentialsRequest)
      → cache_key parse_url key_url req ≢ []
      → (d : Derived) × (derive_repository parse_url req.uri ≡ ok d)
        × (d.ignore ≡ false)
        × (cache_key parse_url key_url req ≡ key_url d.registry (key_query d.repository))
  unfolding cache_key
  has_key req h = elim (Result-cases (derive_repository parse_url req.uri)) [
    | inr (e, failed) ↦ absurd (ground (arith, failed))
    | inl (d, derived) ↦ elim (Bool-cases d.ignore) [
      | inl ignored ↦ absurd (ground (arith, derived, ignored))
      | inr kept ↦ (d, derived, kept, ground (arith, derived, kept))
    ]
  ]

  module _ (escapes : IsEscaping key_url) where
    same_derived :
        (req req' : GetCredentialsRequest)
        → cache_key parse_url key_url req ≢ []
        → cache_key parse_url key_url req' ≡ cache_key parse_url key_url req
        → derive_repository parse_url req'.uri ≡ derive_repository parse_url req.uri
    same_derived req req' h same =
        let (d, derived, kept, key) = has_key req h in
        let (d', derived', kept', key') = has_key req' (λ e. h (sym same ∙ e)) in
        let (hosts, repositories) =
          escapes d'.registry d.registry d'.repository d.repository (sym key' ∙ (same ∙ key)) in
        let equal : d' ≡ d = ground (arith, hosts, repositories, kept, kept') in
        derived' ∙ (ap ok equal ∙ sym derived)

    -- Two requests with the same cache key, which is not empty, get the same answer from a resolver
    -- of the OCI helper, and leave it the same, if printing a URL escapes its parts: a cached
    -- response is the one that the other request would get.
    pub get-cache_key :
        {Known : Type 0} (http : Http) (unquote : Unquote) (time : Rfc3339) (now : ℕ)
        (challenges : Dict WwwAuthenticate)
        (derive_auth_config : Text → Text → Text → Known → Result AuthConfig × Known)
        (req req' : GetCredentialsRequest) (known : Known)
        → cache_key parse_url key_url req ≢ []
        → cache_key parse_url key_url req' ≡ cache_key parse_url key_url req
        → get http unquote time now challenges derive_auth_config parse_url req' known
          ≡ get http unquote time now challenges derive_auth_config parse_url req known
    unfolding get
    get-cache_key http unquote time now challenges derive_auth_config req req' known h same =
        rw (same_derived req req' h same, get) refl
