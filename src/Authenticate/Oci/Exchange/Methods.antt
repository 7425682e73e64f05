-- ===== src/Authenticate/Oci/Exchange/Methods.antt =====
-- A second exchange for the same registry.
use credential_helper.Base.{ℕ, ◌≡◌, refl, true, false, Option, none, some, List, [], ◌||◌, arith}
use credential_helper.Text.{Text, lit, text_eq}
use credential_helper.Dict.{Dict, lookup}
use credential_helper.Errors.{Result, ok, err, failure}
use credential_helper.Api.{Rfc3339}
use credential_helper.Lookup.Source.{Secrets}
use credential_helper.Lookup.Chain.{SourceJson}
use credential_helper.Authenticate.Token.{OauthToken}
use credential_helper.Authenticate.Oci.Challenge.{Unquote}
use credential_helper.Authenticate.Oci.Tokens.{AuthConfig, WwwAuthenticate}
use credential_helper.Authenticate.Oci.Docker.{ConfigFile}
use credential_helper.Authenticate.Oci.AuthConfig.{
  ConfigFragment, Authenticator, is_empty_config, config_from_context, derive_auth_config,
}
use credential_helper.Authenticate.Oci.Exchange.{Http, www_authenticate, exchange, exchange_with}
use credential_helper.Authenticate.Oci.AuthConfig.Remembered.{derive_auth_config_twice}

no_method_refused :
    text_eq [] (lit "basic") || text_eq [] (lit "oauth2") || text_eq [] (lit "auto") ≡ false
unfolding text_eq lit
no_method_refused = refl

module _ {Raw : Type 0} (json : SourceJson Raw) (world : Secrets)
    (decode : Raw → ConfigFragment Raw → Result (ConfigFragment Raw)) (raw_config : Option Raw)
    (file : ConfigFile) (auth_for_host : ConfigFile → Text → Result (Option AuthConfig))
    (http : Http) (unquote : Unquote) (time : Rfc3339) (now : ℕ)
    (challenges : Dict WwwAuthenticate) where
  abbrev pub exchange_docker :
      Text → List Text → Dict Authenticator → Result OauthToken × Dict Authenticator
  exchange_docker =
      exchange http unquote time now challenges
        (derive_auth_config json world decode raw_config (ok file) auth_for_host)

  -- Where no authenticator is known for a registry, its realm is learned, and its credentials come
  -- from the Docker config, are not empty, and hold no registry token and no method, the second
  -- exchange for the registry on the same resolver fails because of its method, whatever method the
  -- configuration asks for and however the first exchange ended.
  pub exchange_twice :
      (registry : Text) (scopes scopes' : List Text) (known : Dict Authenticator)
      (cfg : ConfigFragment Raw) (docker : AuthConfig) (www : WwwAuthenticate)
      → www_authenticate http unquote time now challenges registry ≡ ok www
      → lookup registry known ≡ none
      → config_from_context json world decode raw_config registry ≡ ok cfg
      → cfg.parse_docker_config ≡ true
      → auth_for_host file registry ≡ ok (some docker)
      → is_empty_config docker ≡ false
      → docker.registry_token ≡ []
      → docker.token_exchange_method ≡ []
      → (exchange_docker registry scopes' (exchange_docker registry scopes known).1).0
        ≡ err (failure "unsupported token exchange method")
  unfolding exchange exchange_with
  exchange_twice registry scopes scopes' known cfg docker www learned new config parse found some_
        no_token no_method =
      let step =
        derive_auth_config json world decode raw_config (ok file) auth_for_host registry www.service
          www.realm in
      let (first, second) =
        derive_auth_config_twice json world decode raw_config file auth_for_host registry
          www.service www.realm www.service www.realm known cfg docker new config parse found some_
          (step known).0 (step known).1 refl in
      ground (arith, second, learned, no_token, no_method, no_method_refused)
