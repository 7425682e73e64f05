-- ===== src/Authenticate/RemoteApis/Unconfigured.antt =====
-- What the helper for remote APIs answers without a configuration.
use credential_helper.Base.{
  ◌≡◌, ◌↔◌, refl, true, ◌||◌, inl, inr, none, [], ◌∷◌, arith, Bool-cases, Option-cases,
}
use credential_helper.Text.{Text, lit, text_eq}
use credential_helper.Text.Affix.{cut_prefix}
use credential_helper.Errors.{Result, ok, err, failure, Result-cases}
use credential_helper.Api.{GetCredentialsRequest, GetCredentialsResponse}
use credential_helper.Url.{Url, ParseUrl}
use credential_helper.Lookup.Source.{Secrets}
use credential_helper.Lookup.Chain.{SourceJson, Config, default_config, lookup}
use credential_helper.Lookup.Chain.Defaults.{IsLosslessSources}
use credential_helper.Authenticate.RemoteApis.{
  services, is_service, ConfigFragment, buildbuddy_sources, default_sources, is_buildbuddy,
  config_from_context, header_for, credentials, get,
}
use credential_helper.Authenticate.RemoteApis.ApiKey.{IsApiKey, buildbuddy-IsApiKey_iff}
use credential_helper.Authenticate.RemoteApis.Calls.{
  IsBuildbuddyCall, Passes-IsBuildbuddyCall, IsBuildbuddyCall-Passes,
}

abbrev pub api_key_response : Text → GetCredentialsResponse
api_key_response secret = record {
  expires = [];
  headers = (lit "x-buildbuddy-api-key", secret ∷ []) ∷ [];
}

named : {Raw : Type 0} → Text → Config Raw → ConfigFragment Raw
named name chain = record { auth_method = lit "header"; header_name = name; lookup_chain = chain }

header_for-api_key :
    {Raw : Type 0} (base64 : Text → Text) (chain : Config Raw) (secret : Text)
    → header_for base64 (named (lit "x-buildbuddy-api-key") chain) secret
      ≡ ok (lit "x-buildbuddy-api-key", secret)
unfolding header_for lit text_eq named
header_for-api_key base64 chain secret = refl

header_for-nameless :
    {Raw : Type 0} (base64 : Text → Text) (chain : Config Raw) (secret : Text)
    → header_for base64 (named [] chain) secret
      ≡ err (failure "header_name must be set for auth method \"header\"")
unfolding header_for lit text_eq named
header_for-nameless base64 chain secret = refl

module _ {Raw : Type 0} (parse_url : ParseUrl) (json : SourceJson Raw) (world : Secrets)
    (base64 : Text → Text) (decode : Raw → ConfigFragment Raw → Result (ConfigFragment Raw)) where
  abbrev Answers : Text → GetCredentialsResponse → Type 0
  Answers host resp =
      (is_buildbuddy host ≡ true)
      × (chain : Config Raw) × (default_config json buildbuddy_sources ≡ ok chain)
      × (secret : Text) × (lookup json world chain (lit "default") ≡ ok secret)
      × (resp ≡ api_key_response secret)

  credentials-Answers :
      (u : Url) (resp : GetCredentialsResponse)
      → credentials parse_url json world base64 decode none u ≡ ok resp
      → Answers u.host resp
  unfolding credentials config_from_context named
  credentials-Answers u resp h = elim (Bool-cases (is_buildbuddy u.host)) [
    | inr other ↦ elim (Result-cases (default_config json default_sources)) [
      | inr (e, fails) ↦ absurd (ground (arith, other, fails))
      | inl (chain, made) ↦ elim (Result-cases (lookup json world chain (lit "default"))) [
        | inr (e, fails) ↦ absurd (ground (arith, other, made, fails))
        | inl (secret, finds) ↦
            absurd (ground (arith, other, made, finds, header_for-nameless base64 chain secret))
      ]
    ]
    | inl buildbuddy ↦ elim (Result-cases (default_config json buildbuddy_sources)) [
      | inr (e, fails) ↦ absurd (ground (arith, buildbuddy, fails))
      | inl (chain, made) ↦ elim (Result-cases (lookup json world chain (lit "default"))) [
        | inr (e, fails) ↦ absurd (ground (arith, buildbuddy, made, fails))
        | inl (secret, finds) ↦ (
          buildbuddy,
          chain,
          made,
          secret,
          finds,
          ground (arith, buildbuddy, made, finds, header_for-api_key base64 chain secret),
        )
      ]
    ]
  ]

  Answers-credentials :
      (u : Url) (resp : GetCredentialsResponse)
      → Answers u.host resp
      → credentials parse_url json world base64 decode none u ≡ ok resp
  unfolding credentials config_from_context named
  Answers-credentials u resp (buildbuddy, chain, made, secret, finds, is) =
      ground (arith, buildbuddy, made, finds, is, header_for-api_key base64 chain secret)

  -- the answers by the parts of the lookup
  get-Answers_iff :
      (req : GetCredentialsRequest) (resp : GetCredentialsResponse)
      → (get parse_url json world base64 decode none req ≡ ok resp) ↔ (
          (u : Url) × (parse_url req.uri ≡ ok u)
          × IsBuildbuddyCall u
          × (chain : Config Raw) × (default_config json buildbuddy_sources ≡ ok chain)
          × (secret : Text) × (lookup json world chain (lit "default") ≡ ok secret)
          × (resp ≡ api_key_response secret))
  unfolding get
  get-Answers_iff req resp = (
    λ h. elim (Result-cases (parse_url req.uri)) [
      | inr (e, bad) ↦ absurd (ground (arith, bad))
      | inl (u, good) ↦ elim (Option-cases (cut_prefix u.path (b'/' ∷ []))) [
        | inl missing ↦ absurd (ground (arith, good, missing))
        | inr (rpc_name, found) ↦
            let schemes =
              text_eq u.scheme (lit "https")
              || text_eq u.scheme (lit "grpc")
              || text_eq u.scheme (lit "grpcs") in
            let right : schemes ≡ true = ground (arith, good, found) in
            let known : is_service services rpc_name ≡ true = ground (arith, good, found) in
            let (buildbuddy, chain, made, secret, finds, is) =
              credentials-Answers u resp (ground (arith, good, found)) in
            (
              u,
              good,
              Passes-IsBuildbuddyCall u (record {
                scheme = right;
                rpc_name = rpc_name;
                path = found;
                service = known;
                host = buildbuddy;
              }),
              chain,
              made,
              secret,
              finds,
              is,
            )
      ]
    ],
    λ (u, good, call, chain, made, secret, finds, is).
        let p = IsBuildbuddyCall-Passes u call in
        ground (
          arith,
          good,
          p.scheme,
          p.path,
          p.service,
          Answers-credentials u resp (p.host, chain, made, secret, finds, is),
        ),
  )

  -- Without a configuration the helper answers exactly the calls over https, grpc or grpcs of a
  -- service of a build on a host whose name ends in ".buildbuddy.io", with the key of the variable
  -- BUILDBUDDY_API_KEY, or where that is not set with that of the keyring, as it is, in the header
  -- x-buildbuddy-api-key; all else gets an error. The JSON codec of the sources is lossless.
  pub get-IsBuildbuddyCall_iff :
      IsLosslessSources json
      → (req : GetCredentialsRequest) (resp : GetCredentialsResponse)
      → (get parse_url json world base64 decode none req ≡ ok resp) ↔ (
          (u : Url) × (parse_url req.uri ≡ ok u)
          × IsBuildbuddyCall u
          × (key : Text) × IsApiKey world key
          × (resp ≡ api_key_response key))
  get-IsBuildbuddyCall_iff lossless req resp =
      let iff = get-Answers_iff req resp in
      let keys = buildbuddy-IsApiKey_iff json lossless world in
      (
        λ h.
            let (u, good, call, chain, made, key, finds, is) = iff.0 h in
            (u, good, call, key, (keys key).0 (chain, made, finds), is),
        λ (u, good, call, key, k, is).
            let (chain, made, finds) = (keys key).1 k in
            iff.1 (u, good, call, chain, made, key, finds, is),
      )
