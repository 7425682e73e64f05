-- ===== src/Authenticate/Oci/AuthConfig/Remembered.antt =====
-- The authenticator that the Docker config leaves behind.
use credential_helper.Base.{◌≡◌, true, false, Option, none, some, arith}
use credential_helper.Text.{Text, text_eq_refl}
use credential_helper.Dict.{Dict, lookup, lookup-insert}
use credential_helper.Errors.{Result, ok}
use credential_helper.Lookup.Source.{Secrets}
use credential_helper.Lookup.Chain.{SourceJson}
use credential_helper.Authenticate.Oci.Tokens.{AuthConfig}
use credential_helper.Authenticate.Oci.Docker.{ConfigFile}
use credential_helper.Authenticate.Oci.AuthConfig.{
  ConfigFragment, Authenticator, is_empty_config, config_from_context, with_overrides,
  derive_auth_config, derive_default, from_docker, remember,
}

module _ {Raw : Type 0} (json : SourceJson Raw) (world : Secrets)
    (decode : Raw → ConfigFragment Raw → Result (ConfigFragment Raw)) (raw_config : Option Raw)
    (file : ConfigFile) (auth_for_host : ConfigFile → Text → Result (Option AuthConfig)) where
  -- Where no authenticator is known for a registry, and its credentials come from the Docker config
  -- and are not empty, the first derivation sets the configured method and the overrides, and the
  -- next one on the same resolver returns the credentials as the Docker config has them.
  pub derive_auth_config_twice :
      (registry service realm service' realm' : Text) (known : Dict Authenticator)
      (cfg : ConfigFragment Raw) (docker : AuthConfig)
      → lookup registry known ≡ none
      → config_from_context json world decode raw_config registry ≡ ok cfg
      → cfg.parse_docker_config ≡ true
      → auth_for_host file registry ≡ ok (some docker)
      → is_empty_config docker ≡ false
      → (derived : Result AuthConfig) (known' : Dict Authenticator)
      → derive_auth_config json world decode raw_config
          (ok file)
          auth_for_host
          registry
          service
          realm
          known
        ≡ (derived, known')
      → (derived ≡ ok (with_overrides json world decode raw_config cfg docker))
        × ((derive_auth_config json world decode raw_config
              (ok file)
              auth_for_host
              registry
              service'
              realm'
              known').0
            ≡ ok docker)
  unfolding derive_auth_config derive_default from_docker remember
  derive_auth_config_twice registry service realm service' realm' known cfg docker new config parse
        found some_ derived known' e =
      let law = lookup-insert registry registry (λ (a b c : Text). ok docker) known in
      (ground arith, ground (arith, law, text_eq_refl registry))
