-- ===== src/Authenticate/Oci/AuthConfig.antt =====
-- `deriveAuthConfig` and `configFromContext` of authenticate/oci/oci.go. The map of authenticators
-- is shared by all requests to a resolver, and comes back with the result.
pub mod Remembered
use credential_helper.Base.{
  String, Bool, true, false, not, Option, none, some, List, [], ◌∷◌, ◌&&◌, if◌then◌else◌,
}
use credential_helper.Text.{Text, lit, text_eq, is_empty}
use credential_helper.Dict.{Dict, lookup, insert}
use credential_helper.Errors.{Error, Result, ok, err, wrapped, wrap, ◌>>=◌}
use credential_helper.Lookup.Source.{Secrets, Source, env, keyring, static}
use credential_helper.Lookup.Chain
use credential_helper.Lookup.Chain.{SourceJson, Config, default_config}
use credential_helper.Authenticate.Token.{from_context}
use credential_helper.Authenticate.Oci.Tokens.{AuthConfig}
use credential_helper.Authenticate.Oci.Docker.{ConfigFile, empty_auth_config}

pub record ConfigFragment (Raw : Type 0) : Type 0 where
  pub parse_docker_config : Bool
  pub token_exchange_method : Text
  pub lookup_chain : Config Raw

abbrev pub binding_username : Text
binding_username = lit "username"

abbrev pub binding_password : Text
binding_password = lit "password"

abbrev pub binding_auth : Text
binding_auth = lit "auth"

abbrev pub binding_identity_token : Text
binding_identity_token = lit "identitytoken"

abbrev pub binding_registry_token : Text
binding_registry_token = lit "registrytoken"

abbrev env_source : Text → Text → Source
env_source name binding = env (record { source = lit "env"; name = name; binding = binding })

-- `lookupChainByRegistry`, which has one entry
abbrev pub sources_by_registry : Text → List Source
sources_by_registry registry =
    if text_eq registry (lit "ghcr.io")
    then (env_source (lit "GITHUB_ACTOR") binding_username
        ∷ static (record { source = lit "env"; value = lit "unset"; binding = binding_username })
        ∷ env_source (lit "GHCR_TOKEN") binding_password
        ∷ env_source (lit "GH_TOKEN") binding_password
        ∷ env_source (lit "GITHUB_TOKEN") binding_password
        ∷ keyring (record {
          source = lit "keyring";
          service = lit "gh:github.com";
          binding = binding_password;
        })
        ∷ [])
    else []

-- `func(registry, service, realm string) (AuthConfig, error)`
abbrev pub Authenticator : Type 0
Authenticator = Text → Text → Text → Result AuthConfig

-- `customAuthConfig == AuthConfig{}`
unfoldable pub is_empty_config : AuthConfig → Bool
is_empty_config c =
    is_empty c.username
    && is_empty c.password
    && is_empty c.auth
    && is_empty c.identity_token
    && is_empty c.registry_token
    && is_empty c.token_exchange_method

-- a value of the lookup chain replaces the one from the Docker config
abbrev pub override : Result Text → Text → Text
override (ok value) old = value
override (err e) old = old

-- a password with no username gets the username "unset"
abbrev pub username_for : Result Text → Text → Text
username_for (err e) username = username
username_for (ok password) username = if is_empty username then lit "unset" else username

module _ {Raw : Type 0} (json : SourceJson Raw) (world : Secrets)
    (decode : Raw → ConfigFragment Raw → Result (ConfigFragment Raw))
    (raw_config : Option Raw) where
  -- `configFromContext`; the error of `Default` is its panic
  unfoldable pub config_from_context : Text → Result (ConfigFragment Raw)
  config_from_context registry = do
    chain ← default_config json (sources_by_registry registry)
    from_context decode raw_config (record {
      parse_docker_config = true;
      token_exchange_method = lit "auto";
      lookup_chain = chain;
    })

  -- the overrides from the lookup chain
  unfoldable pub with_overrides : ConfigFragment Raw → AuthConfig → AuthConfig
  with_overrides cfg base =
      let find = Chain.lookup json world cfg.lookup_chain in
      record {
        username =
            username_for (find binding_password) (override (find binding_username) base.username);
        password = override (find binding_password) base.password;
        auth = override (find binding_auth) base.auth;
        identity_token = override (find binding_identity_token) base.identity_token;
        registry_token = override (find binding_registry_token) base.registry_token;
        token_exchange_method = cfg.token_exchange_method;
      }

  module _ (docker_config : Result ConfigFile)
      (auth_for_host : ConfigFile → Text → Result (Option AuthConfig)) where
    remember : Text → Dict Authenticator → Option AuthConfig → AuthConfig × Dict Authenticator
    remember registry known none = (empty_auth_config, known)
    remember registry known (some c) = (c, insert registry (λ _ _ _. ok c) known)

    -- the Docker config for the registry, which is remembered as an authenticator
    from_docker : Text → Dict Authenticator → Result (AuthConfig × Dict Authenticator)
    unfolding remember
    from_docker registry known = do
      file ← wrap "loading Docker config" docker_config
      found ← wrap "finding auth config for registry" (auth_for_host file registry)
      ok (remember registry known found)

    -- without a custom authenticator, or with one that returned nothing
    derive_default : Text → Dict Authenticator → Result AuthConfig × Dict Authenticator
    unfolding from_docker
    derive_default registry known = elim (config_from_context registry) [
      | err e ↦ (err (wrapped "loading config from context" e), known)
      | ok cfg ↦
          let docker =
            if cfg.parse_docker_config
            then from_docker registry known
            else ok (empty_auth_config, known) in
          elim docker [
            | err e ↦ (err e, known)
            | ok (base, known') ↦ (ok (with_overrides cfg base), known')
          ]
    ]

    unfoldable pub derive_auth_config :
        Text → Text → Text → Dict Authenticator → Result AuthConfig × Dict Authenticator
    unfolding derive_default
    derive_auth_config registry service realm known = elim (lookup registry known) [
      | none ↦ derive_default registry known
      | some authenticator ↦ elim (authenticator registry service realm) [
        | err e ↦ (err e, known)
        | ok custom ↦
            if is_empty_config custom then derive_default registry known else (ok custom, known)
      ]
    ]
