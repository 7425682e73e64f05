-- ===== src/Authenticate/Oci/Resolver.antt =====
-- `NewFallbackOCI`, `NewCustomOCI` and `Resolver` of authenticate/oci/oci.go. A map that is nil is
-- `none`. The resolver has the maps of the helper and not copies of them: what `Resolver` makes of
-- them stays in the helper, and what a resolver learns the next one has.
use credential_helper.Base.{Option, none, some, [], ◌∷◌}
use credential_helper.Dict.{Dict, insert}
use credential_helper.Errors.{Result, ok, err}
use credential_helper.Authenticate.Oci.Tokens.{WwwAuthenticate}
use credential_helper.Authenticate.Oci.AuthConfig.{Authenticator}

pub record Oci : Type 0 where
  pub www_authenticate_for_registry : Option (Dict WwwAuthenticate)
  pub authenticator_for_registry : Option (Dict Authenticator)
  -- `resolveAuthenicators` with its result, if it is set
  pub resolve_authenticators : Option (Result (Dict Authenticator))

abbrev pub new_fallback_oci : Oci
new_fallback_oci = record {
  www_authenticate_for_registry = some [];
  authenticator_for_registry = some [];
  resolve_authenticators = none;
}

abbrev pub new_custom_oci :
    Option (Dict WwwAuthenticate)
    → Option (Dict Authenticator)
    → Option (Result (Dict Authenticator))
    → Oci
new_custom_oci www known resolve = record {
  www_authenticate_for_registry = www;
  authenticator_for_registry = known;
  resolve_authenticators = resolve;
}

-- a map that is not nil
abbrev made : {V : Type 0} → Option (Dict V) → Dict V
made none = []
made (some m) = m

-- `for k, v := range authenticators`
unfoldable pub merged : Dict Authenticator → Dict Authenticator → Dict Authenticator
merged [] known = known
merged ((registry, a) ∷ more) known = merged more (insert registry a known)

abbrev joined_to : Dict Authenticator → Option (Dict Authenticator) → Dict Authenticator
joined_to found none = found
joined_to found (some known) = merged found known

with_authenticators : Oci → Result Oci
with_authenticators o = elim o.resolve_authenticators [
  | none ↦ ok o
  | some (err e) ↦ err e
  | some (ok found) ↦ ok (record o {
    authenticator_for_registry = some (joined_to found o.authenticator_for_registry);
  })
]

-- `Resolver`: the maps that the resolver works with, which the helper has too
unfoldable pub resolver : Oci → Result (Dict WwwAuthenticate × Dict Authenticator) × Oci
unfolding with_authenticators
resolver o = elim (with_authenticators o) [
  | err e ↦ (err e, o)
  | ok o' ↦
      let www = made o'.www_authenticate_for_registry in
      let known = made o'.authenticator_for_registry in
      (
        ok (www, known),
        record o' {
          www_authenticate_for_registry = some www;
          authenticator_for_registry = some known;
        },
      )
]
