-- ===== src/Lookup/Source.antt =====
-- The sources `Env`, `Keyring`, `Static` and `Google`, with `Lookup`, `Canonicalize` and
-- `SetupInstructions`. The environment, the keyring and the Google libraries are parameters.
use credential_helper.Base.{ℕ, not, ◌||◌, Option, none, some, List, [], ◌++◌, if◌then◌else◌, ◌==◌}
use credential_helper.Text.{Text, lit, text_eq, is_empty, to_lower, trim_space}
use credential_helper.Errors.{Error, Result, ok, err, not_found, failure, guard, wrap, ◌>>=◌, ◌>>◌}

-- `keyring.Get`: a secret, `keyring.ErrNotFound`, or another error
pub data KeyringAnswer : Type 0 where
  secret : Text → KeyringAnswer
  absent : KeyringAnswer
  broken : Error → KeyringAnswer

pub record HttpResponse : Type 0 where
  pub status : ℕ
  pub body : Text

-- `google.Credentials`: its token source, its JSON, and `idtoken.NewTokenSource` over it, whose
-- token source is again a result
pub record Credentials : Type 0 where
  pub token : Result Text
  pub json : Option Text
  pub id_source : Text → Result (Result Text)

pub record GoogleAuth : Type 0 where
  pub find_default_credentials : List Text → Result Credentials
  -- `json.Unmarshal` of the credentials, and `json.Marshal` with "grant_type" set
  pub refresh_body : Text → Result Text
  -- the POST request to https://oauth2.googleapis.com/token
  pub post_token : Text → Result HttpResponse
  -- the "id_token" of a decoded response
  pub decode_id_token : Text → Result Text

-- What a source reads.
pub record Secrets : Type 0 where
  -- `os.LookupEnv`
  pub env : Text → Option Text
  pub keyring : Text → KeyringAnswer
  pub google : GoogleAuth
  -- `os.Args[0]`
  pub program : Text

pub record Env : Type 0 where
  pub source : Text
  pub name : Text
  pub binding : Text

pub record Keyring : Type 0 where
  pub source : Text
  pub service : Text
  pub binding : Text

pub record Static : Type 0 where
  pub source : Text
  pub value : Text
  pub binding : Text

pub record Google : Type 0 where
  pub source : Text
  pub token_type : Text
  pub scopes : List Text
  pub audience : Text
  pub binding : Text

pub data Source : Type 0 where
  env : Env → Source
  keyring : Keyring → Source
  static : Static → Source
  google : Google → Source

abbrev pub source_env : Text
source_env = lit "env"

abbrev pub source_keyring : Text
source_keyring = lit "keyring"

abbrev pub source_static : Text
source_static = lit "static"

abbrev pub source_google : Text
source_google = lit "google"

abbrev pub or_default : Text → Text
or_default binding = if is_empty binding then lit "default" else binding

unfoldable pub canonicalize : Source → Source
canonicalize (env e) = env (record e { source = source_env; binding = or_default e.binding })
canonicalize (keyring k) =
    keyring (record k { source = source_keyring; binding = or_default k.binding })
canonicalize (static s) =
    static (record s { source = source_static; binding = or_default s.binding })
canonicalize (google g) =
    google (record g { source = source_google; binding = or_default g.binding })

abbrev pub binding_of : Source → Text
binding_of (env e) = e.binding
binding_of (keyring k) = k.binding
binding_of (static s) = s.binding
binding_of (google g) = g.binding

abbrev pub source_name : Source → Text
source_name (env e) = e.source
source_name (keyring k) = k.source
source_name (static s) = s.source
source_name (google g) = g.source

module _ (world : Secrets) where
  abbrev bearer : Text → Text
  bearer token = lit "Bearer " ++ token

  access_token : Google → Result Text
  access_token g = do
    creds ←
        wrap "failed to find default credentials" (world.google.find_default_credentials g.scopes)
    token ← wrap "failed to get access token" creds.token
    ok (bearer token)

  -- an ID token for an audience
  audience_token : Credentials → Text → Result Text
  audience_token creds audience = do
    source ← wrap "failed to create id token source" (creds.id_source audience)
    token ← wrap "failed to mint id token" source
    ok (bearer token)

  -- an ID token from application_default_credentials.json
  refreshed_token : Credentials → Result Text
  refreshed_token creds = elim creds.json [
    | none ↦ err (failure "no JSON credentials available for JWT config")
    | some json ↦ do
      body ← wrap "failed to marshal request body" (world.google.refresh_body json)
      resp ← wrap "failed to send request to token endpoint" (world.google.post_token body)
      guard (resp.status == 200) (failure "token endpoint returned status")
      token ← wrap "failed to decode token response" (world.google.decode_id_token resp.body)
      guard (not (is_empty token)) (failure "token response does not contain an identity token")
      ok (bearer token)
  ]

  id_token : Google → Result Text
  id_token g = do
    creds ←
        wrap "failed to find default credentials for id token"
          (world.google.find_default_credentials [])
    if not (is_empty g.audience) then audience_token creds g.audience else refreshed_token creds

  google_lookup : Google → Result Text
  google_lookup g =
      let kind = to_lower (trim_space g.token_type) in
      if is_empty kind || text_eq kind (lit "access")
      then access_token g
      else if text_eq kind (lit "id") || text_eq kind (lit "jwt")
      then id_token g
      else err (failure "google: unknown token_type")

  env_value : Option Text → Result Text
  env_value none = err (not_found "")
  env_value (some value) = ok value

  keyring_value : KeyringAnswer → Result Text
  keyring_value (secret value) = ok value
  keyring_value absent = err (not_found "secret not found in keyring")
  keyring_value (broken e) = err e

  -- the value of a source whose binding is the one that is asked for
  unfoldable pub bound_value : Source → Result Text
  unfolding env_value keyring_value google_lookup access_token audience_token refreshed_token
      id_token
  bound_value (env e) = env_value (world.env e.name)
  bound_value (keyring k) = keyring_value (world.keyring k.service)
  bound_value (static s) = ok s.value
  bound_value (google g) = google_lookup g

  -- `Lookup` of each source begins with the same test
  unfoldable pub source_lookup : Source → Text → Result Text
  source_lookup s binding =
      if not (text_eq (binding_of s) binding) then err (not_found "") else bound_value s

  abbrev env_status : Option Text → Text
  env_status (some _) = lit "SET"
  env_status none = lit "NOT SET"

  abbrev keyring_status : KeyringAnswer → Text
  keyring_status absent = lit "NOT SET"
  keyring_status (broken _) = lit "ERROR ACCESSING KEYCHAIN"
  keyring_status (secret _) = lit "SET"

  -- the quoted form `%q` of a text is a parameter
  module _ (quote : Text → Text) (google_instructions : Text) where
    instructions : Source → Text
    instructions (env e) =
        lit " - Export the environment variable "
        ++ (e.name ++ (lit " (status: " ++ (env_status (world.env e.name) ++ lit ")")))
    instructions (keyring k) =
        lit " - Add the secret to the system keyring under the "
        ++ (k.service
            ++ (lit " service name (status: "
                ++ (keyring_status (world.keyring k.service)
                    ++ (lit "):\n    $ "
                        ++ (world.program ++ (lit " setup-keyring -f secret.txt " ++ k.service))))))
    instructions (static s) =
        lit " - If none of previous sources work, fall back to the static value "
        ++ (quote s.value ++ lit " (status: SET)")
    instructions (google g) = google_instructions

    -- `SetupInstructions`; `none` is the `false` of its second result
    unfoldable pub source_instructions : Source → Text → Option Text
    unfolding instructions
    source_instructions s binding =
        if not (text_eq (binding_of s) binding) then none else some (instructions s)
