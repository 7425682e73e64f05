-- ===== src/Authenticate/Oci/Docker.antt =====
-- authenticate/oci/dockerConfig.go. Base64, the files and the `docker-credential-` programs are
-- parameters.
pub mod RoundTrip
use credential_helper.Base.{not, ◌&&◌, Option, none, some, List, [], ◌∷◌, ◌++◌, if◌then◌else◌}
use credential_helper.Text.{Text, lit, is_empty}
use credential_helper.Text.Parts.{split_first}
use credential_helper.Dict.{Dict, lookup}
use credential_helper.Errors.{Error, Result, ok, err, failure, ◌>>=◌}
use credential_helper.Authenticate.Oci.Tokens.{AuthConfig}

pub record DockerAuthConfig : Type 0 where
  pub username : Text
  pub password : Text
  pub auth : Text
  pub server_address : Text
  pub identity_token : Text
  pub registry_token : Text

pub record ConfigFile : Type 0 where
  pub auths : Dict DockerAuthConfig
  pub credentials_store : Text
  pub credential_helpers : Dict Text

-- `AuthConfig{}`
abbrev pub empty_auth_config : AuthConfig
empty_auth_config = record {
  username = [];
  password = [];
  auth = [];
  identity_token = [];
  registry_token = [];
  token_exchange_method = [];
}

-- `ConfigFile{}`
abbrev pub empty_config_file : ConfigFile
empty_config_file = record { auths = []; credentials_store = []; credential_helpers = [] }

-- `base64.StdEncoding`
pub record Base64 : Type 0 where
  pub encode : Text → Text
  pub decode : Text → Result Text

-- the output of a credential helper program
pub record CredentialHelperOutput : Type 0 where
  pub server_url : Text
  pub username : Text
  pub secret : Text

module _ (base64 : Base64) where
  user_and_password : Option (Text × Text) → Result (Text × Text)
  user_and_password none = err (failure "invalid auth field")
  user_and_password (some pair) = ok pair

  unfoldable pub decode_auth_field : Text → Result (Text × Text)
  unfolding user_and_password
  decode_auth_field field = do
    decoded ← base64.decode field
    user_and_password (split_first b':' decoded)

  unfoldable pub encode_auth_field : Text → Text → Text
  encode_auth_field username password = base64.encode (username ++ b':' ∷ password)

  auth_config_of : DockerAuthConfig → Text → Text → Text → AuthConfig
  auth_config_of a username password auth = record {
    username = username;
    password = password;
    auth = auth;
    identity_token = a.identity_token;
    registry_token = a.registry_token;
    token_exchange_method = [];
  }

  -- `DockerAuthConfig.toAuthConfig`
  unfoldable pub to_auth_config : DockerAuthConfig → Result AuthConfig
  unfolding auth_config_of
  to_auth_config a =
      if is_empty a.password && not (is_empty a.auth)
      then (do
        (username, password) ← decode_auth_field a.auth
        ok (auth_config_of a username password a.auth))
      else if is_empty a.auth && (not (is_empty a.username) && not (is_empty a.password))
      then ok (auth_config_of a a.username a.password (encode_auth_field a.username a.password))
      else ok (auth_config_of a a.username a.password a.auth)

  -- what a run of `docker-credential-<helper> get` gives: decoded output, "credentials not found in
  -- native keychain", or an error
  module _ (run_helper : Text → Text → Result (Option CredentialHelperOutput)) where
    -- `dockerCredentialHelperToAuth`; `none` is a `found` that is false
    unfoldable pub docker_credential_helper_to_auth : Text → Text → Result (Option AuthConfig)
    docker_credential_helper_to_auth helper host = elim (run_helper helper host) [
      | err e ↦ err e
      | ok none ↦ ok none
      | ok (some cred) ↦
          ok (some (record empty_auth_config { username = cred.username; password = cred.secret }))
    ]

    auth_entry : Option DockerAuthConfig → Result (Option AuthConfig)
    auth_entry none = ok none
    auth_entry (some auth) = do out ← to_auth_config auth; ok (some out)

    unfoldable pub auth_for_host : ConfigFile → Text → Result (Option AuthConfig)
    unfolding auth_entry
    auth_for_host cfg host = elim (lookup host cfg.credential_helpers) [
      | some helper ↦ docker_credential_helper_to_auth helper host
      | none ↦
          if not (is_empty cfg.credentials_store)
          then docker_credential_helper_to_auth cfg.credentials_store host
          else auth_entry (lookup host cfg.auths)
    ]

-- An opened file: it is missing, cannot be opened, or has this content, decoded.
pub data Opened : Type 0 where
  missing : Opened
  unreadable : Error → Opened
  content : Result ConfigFile → Opened

module _ (path_join : List Text → Text) (open_file : Text → Opened) where
  abbrev location : Option Text → List Text → List Text → List Text
  location none rest locations = locations
  location (some dir) rest locations = path_join (dir ∷ rest) ∷ locations

  -- the places, from the home directory and the environment
  abbrev pub locations : Option Text → (Text → Option Text) → List Text
  locations home env = location home (lit ".docker" ∷ lit "config.json" ∷ []) (
      location (env (lit "DOCKER_CONFIG")) (lit "config.json" ∷ []) (
        registry_auth (env (lit "REGISTRY_AUTH_FILE"))
          (location (env (lit "XDG_RUNTIME_DIR")) (lit "containers" ∷ lit "auth.json" ∷ []) [])))
    where
      registry_auth : Option Text → List Text → List Text
      registry_auth none rest = rest
      registry_auth (some file) rest = file ∷ rest

  unfoldable pub first_config : List Text → Result ConfigFile
  first_config [] = ok empty_config_file
  first_config (loc ∷ locs) = elim (open_file loc) [
    | missing ↦ first_config locs
    | unreadable e ↦ err e
    | content c ↦ c
  ]

  unfoldable pub load_docker_config : Option Text → (Text → Option Text) → Result ConfigFile
  load_docker_config home env = first_config (locations home env)
