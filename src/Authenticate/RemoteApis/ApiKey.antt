-- ===== src/Authenticate/RemoteApis/ApiKey.antt =====
-- The secret that the default sources for BuildBuddy of authenticate/remoteapis/remoteapis.go give.
use credential_helper.Base.{
  ◌≡◌, ◌↔◌, ◌⊎◌, refl, sym, ap, ◌∙◌, inl, inr, none, some, [], ◌∷◌, arith, Option-cases,
}
use credential_helper.Text.{Text, lit, text_eq, text_eq_refl}
use credential_helper.Errors.{Error, ok, is_not_found_err}
use credential_helper.Lookup.Source.{
  Secrets, KeyringAnswer, secret, absent, broken, Env, Keyring, env, keyring, source_env,
  source_keyring, canonicalize, source_lookup, bound_value,
}
use credential_helper.Lookup.Chain.{
  SourceJson, ConfigEntry, Config, default_config, source_for, lookup, lookup_loop,
}
use credential_helper.Lookup.Chain.Defaults.{IsLosslessSources}
use credential_helper.Authenticate.RemoteApis.{buildbuddy_sources}

-- The secret of the environment variable, or else of the keyring.
abbrev pub IsApiKey : Secrets → Text → Type 0
IsApiKey world found =
    (world.env (lit "BUILDBUDDY_API_KEY") ≡ some found)
    ⊎ ((world.env (lit "BUILDBUDDY_API_KEY") ≡ none)
        × (world.keyring (lit "tweag-credential-helper:buildbuddy_api_key")
            ≡ KeyringAnswer.secret found))

answer-cases :
    (k : KeyringAnswer)
    → (k ≡ absent) ⊎ (((e : Error) × (k ≡ broken e)) ⊎ ((value : Text) × (k ≡ secret value)))
answer-cases absent = inl refl
answer-cases (broken e) = inr (inl (e, refl))
answer-cases (secret value) = inr (inr (value, refl))

module _ {Raw : Type 0} (json : SourceJson Raw) (lossless : IsLosslessSources json)
    (world : Secrets) where
  abbrev key_env : Env
  key_env = record { source = source_env; name = lit "BUILDBUDDY_API_KEY"; binding = lit "default" }

  abbrev key_keyring : Keyring
  key_keyring = record {
    source = source_keyring;
    service = lit "tweag-credential-helper:buildbuddy_api_key";
    binding = lit "default";
  }

  -- what the default sources are encoded as
  buildbuddy_chain :
      (a : ConfigEntry Raw) × (b : ConfigEntry Raw) × (default_config json buildbuddy_sources
        ≡ ok (a ∷ b ∷ []))
      × (source_for json a ≡ ok (env key_env))
      × (source_for json b ≡ ok (keyring key_keyring))
  unfolding default_config source_for canonicalize lit text_eq
  buildbuddy_chain =
      let (raw, written, read) = lossless.env key_env in
      let (raw', written', read') = lossless.keyring key_keyring in
      (
        record { source = source_env; raw_message = raw },
        record { source = source_keyring; raw_message = raw' },
        ground (arith, written, written'),
        ground (arith, read),
        ground (arith, read'),
      )

  lookup-IsApiKey_iff :
      (a b : ConfigEntry Raw) (found : Text)
      → source_for json a ≡ ok (env key_env)
      → source_for json b ≡ ok (keyring key_keyring)
      → (lookup json world (a ∷ b ∷ []) (lit "default") ≡ ok found) ↔ IsApiKey world found
  unfolding lookup lookup_loop source_lookup bound_value is_not_found_err
  lookup-IsApiKey_iff a b found is_env is_keyring = (
    λ h. elim (Option-cases (world.env (lit "BUILDBUDDY_API_KEY"))) [
      | inr (value, set) ↦ inl (ground (arith, is_env, set, text_eq_refl (lit "default")))
      | inl unset ↦
          let k = world.keyring (lit "tweag-credential-helper:buildbuddy_api_key") in
          let same = text_eq_refl (lit "default") in
          elim (answer-cases k) [
            | inl missing ↦ absurd (ground (arith, is_env, is_keyring, unset, missing, same))
            | inr (inl (e, fails)) ↦ absurd (ground (arith, is_env, is_keyring, unset, fails, same))
            | inr (inr (value, set)) ↦
                inr (unset, ground (arith, is_env, is_keyring, unset, set, same))
          ]
    ],
    λ k. elim k [
      | inl set ↦ ground (arith, is_env, set, text_eq_refl (lit "default"))
      | inr (unset, set) ↦
          ground (arith, is_env, is_keyring, unset, set, text_eq_refl (lit "default"))
    ],
  )

  -- A key comes from the variable, or from the keyring where the variable is not set.
  pub buildbuddy-IsApiKey_iff :
      (found : Text)
      → ((chain : Config Raw) × (default_config json buildbuddy_sources ≡ ok chain)
          × (lookup json world chain (lit "default") ≡ ok found))
        ↔ IsApiKey world found
  buildbuddy-IsApiKey_iff found =
      let (a, b, made, is_env, is_keyring) = buildbuddy_chain in
      let iff = lookup-IsApiKey_iff a b found is_env is_keyring in
      (
        λ (chain, made', finds).
            let same : chain ≡ a ∷ b ∷ [] = ground (arith, made, made') in
            iff.0 (ap (λ c. lookup json world c (lit "default")) (sym same) ∙ finds),
        λ k. (a ∷ b ∷ [], made, iff.1 k),
      )
