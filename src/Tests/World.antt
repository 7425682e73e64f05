-- ===== src/Tests/World.antt =====
-- The parameters of the model, as concrete functions.
use credential_helper.Base.{ℕ, refl, false, Option, none, some, [], ◌∷◌}
use credential_helper.Text.{Text, lit}
use credential_helper.Text.Affix.{cut_prefix}
use credential_helper.Text.Parts.{split_first}
use credential_helper.Errors.{Result, ok, err, failure}
use credential_helper.Api.{
  GetCredentialsResponse, CachableGetCredentialsResponse, Codec, Json, IsLosslessJson, Rfc3339,
}
use credential_helper.Lookup.Source.{
  Env, Keyring, Static, Google, Source, env, keyring, static, google, Secrets, absent,
}
use credential_helper.Lookup.Chain.{SourceJson}
use credential_helper.Lookup.Chain.Defaults.{IsLosslessSources}
use credential_helper.Url.{Url, ParseUrl}

-- A message that is kept as the value that it encodes.
pub data Message : Type 0 where
  text : Text → Message
  response : GetCredentialsResponse → Message
  cachable : CachableGetCredentialsResponse → Message
  source : Source → Message

abbrev unexpected {ℓ} : {A : Type ℓ} → Result A
unexpected = err (failure "unexpected message")

abbrev text_codec : Codec Text Message
text_codec = record { marshal = λ t. ok (text t); unmarshal = read }
  where
    read : Option Message → Result Text
    read (some (text t)) = ok t
    read _ = unexpected

abbrev response_codec : Codec GetCredentialsResponse Message
response_codec = record { marshal = λ t. ok (response t); unmarshal = read }
  where
    read : Option Message → Result GetCredentialsResponse
    read (some (response t)) = ok t
    read _ = unexpected

abbrev cachable_codec : Codec CachableGetCredentialsResponse Message
cachable_codec = record { marshal = λ t. ok (cachable t); unmarshal = read }
  where
    read : Option Message → Result CachableGetCredentialsResponse
    read (some (cachable t)) = ok t
    read _ = unexpected

abbrev pub json : Json Message
json = record {
  key = text_codec;
  response = response_codec;
  cachable = cachable_codec;
  quoted = λ s. text (lit s);
  error_message = λ e. ok (text []);
}

pub json-IsLosslessJson : IsLosslessJson json
json-IsLosslessJson = record {
  key = λ a. (text a, refl, refl);
  response = λ a. (response a, refl, refl);
  cachable = λ a. (cachable a, refl, refl);
}

abbrev env_codec : Codec Env Message
env_codec = record { marshal = λ e. ok (source (env e)); unmarshal = read }
  where
    read : Option Message → Result Env
    read (some (source (env e))) = ok e
    read _ = unexpected

abbrev keyring_codec : Codec Keyring Message
keyring_codec = record { marshal = λ e. ok (source (keyring e)); unmarshal = read }
  where
    read : Option Message → Result Keyring
    read (some (source (keyring e))) = ok e
    read _ = unexpected

abbrev static_codec : Codec Static Message
static_codec = record { marshal = λ e. ok (source (static e)); unmarshal = read }
  where
    read : Option Message → Result Static
    read (some (source (static e))) = ok e
    read _ = unexpected

abbrev google_codec : Codec Google Message
google_codec = record { marshal = λ e. ok (source (google e)); unmarshal = read }
  where
    read : Option Message → Result Google
    read (some (source (google e))) = ok e
    read _ = unexpected

abbrev pub sources : SourceJson Message
sources = record {
  env = env_codec;
  keyring = keyring_codec;
  static = static_codec;
  google = google_codec;
}

pub sources-IsLosslessSources : IsLosslessSources sources
sources-IsLosslessSources = record {
  env = λ e. (source (env e), refl, refl);
  keyring = λ e. (source (keyring e), refl, refl);
  static = λ e. (source (static e), refl, refl);
  google = λ e. (source (google e), refl, refl);
}

-- an instant is written as one byte
abbrev pub time : Rfc3339
time = record { parse = read; format = λ t. t ∷ [] }
  where
    read : Text → Option ℕ
    read (t ∷ []) = some t
    read _ = none

-- no source has a value but the static ones
abbrev pub world : Secrets
world = record {
  env = λ name. none;
  keyring = λ service. absent;
  google = record {
    find_default_credentials = λ scopes. err (failure "no credentials");
    refresh_body = λ credentials. unexpected;
    post_token = λ body. unexpected;
    decode_id_token = λ body. unexpected;
  };
  program = lit "credential-helper";
}

abbrev located : Text → Text → Url
located scheme rest = elim (split_first b'/' rest) [
  | none ↦ record { scheme = scheme; host = rest; path = []; query_has = λ name. false }
  | some (host, path) ↦ record {
    scheme = scheme;
    host = host;
    path = b'/' ∷ path;
    query_has = λ name. false;
  }
]

-- http and https URLs with no query
abbrev pub parse_url : ParseUrl
parse_url uri = elim (cut_prefix uri (lit "https://")) [
  | some rest ↦ ok (located (lit "https") rest)
  | none ↦ elim (cut_prefix uri (lit "http://")) [
    | some rest ↦ ok (located (lit "http") rest)
    | none ↦ unexpected
  ]
]

abbrev pub answer_expiring : ℕ → GetCredentialsResponse
answer_expiring t = record {
  expires = t ∷ [];
  headers = (lit "Authorization", lit "Bearer a" ∷ []) ∷ [];
}
