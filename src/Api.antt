-- ===== src/Api.antt =====
-- The shared types: api/api.go, and what the program uses of the packages `encoding/json` and `time`.
pub mod Names
use credential_helper.Base.{ℕ, ◌≡◌, ◌≢◌, String, Option, some, List, []}
use credential_helper.Text.{Text, lit}
use credential_helper.Dict.{Dict}
use credential_helper.Errors.{Error, Result, ok}

pub record GetCredentialsRequest : Type 0 where
  pub uri : Text

pub record GetCredentialsResponse : Type 0 where
  pub expires : Text
  pub headers : Dict (List Text)

-- `GetCredentialsResponse{}`
abbrev pub empty_response : GetCredentialsResponse
empty_response = record { expires = []; headers = [] }

pub record CachableGetCredentialsResponse : Type 0 where
  pub cache_key : Text
  pub response : GetCredentialsResponse

abbrev pub agent_request_retrieve : Text
agent_request_retrieve = lit "retrieve"

abbrev pub agent_request_store : Text
agent_request_store = lit "store"

abbrev pub agent_request_prune : Text
agent_request_prune = lit "prune"

abbrev pub agent_request_shutdown : Text
agent_request_shutdown = lit "shutdown"

abbrev pub agent_response_ok : Text
agent_response_ok = lit "ok"

abbrev pub agent_response_cache_miss : Text
agent_response_cache_miss = lit "cache-miss"

abbrev pub agent_response_error : Text
agent_response_error = lit "error"

-- `Raw` stands for `json.RawMessage`; `none` is a payload that is absent.
pub record AgentRequest (Raw : Type 0) : Type 0 where
  pub method : Text
  pub payload : Option Raw

pub record AgentResponse (Raw : Type 0) : Type 0 where
  pub status : Text
  pub payload : Option Raw

-- `json.Marshal` and `json.Unmarshal` at one type
pub record Codec (A Raw : Type 0) : Type 0 where
  pub marshal : A → Result Raw
  pub unmarshal : Option Raw → Result A

-- `Unmarshal` reads back what `Marshal` writes.
abbrev pub IsLossless : {A Raw : Type 0} → Codec A Raw → Type 0
IsLossless {A} {Raw} c = (a : A) → (r : Raw) × (c.marshal a ≡ ok r) × (c.unmarshal (some r) ≡ ok a)

-- The messages that the agent and its clients encode.
pub record Json (Raw : Type 0) : Type 0 where
  pub key : Codec Text Raw
  pub response : Codec GetCredentialsResponse Raw
  pub cachable : Codec CachableGetCredentialsResponse Raw
  -- `[]byte("\"text\"")`
  pub quoted : String → Raw
  -- `json.Marshal(err.Error())`
  pub error_message : Error → Result Raw

pub record IsLosslessJson {Raw : Type 0} (json : Json Raw) : Type 0 where
  pub key : IsLossless json.key
  pub response : IsLossless json.response
  pub cachable : IsLossless json.cachable

-- `time.Parse(time.RFC3339, s)` and `t.UTC().Format(time.RFC3339)`; an instant counts seconds.
pub record Rfc3339 : Type 0 where
  pub parse : Text → Option ℕ
  pub format : ℕ → Text

-- A formatted instant is not empty, and is read back.
pub record IsFaithfulTime (time : Rfc3339) : Type 0 where
  pub parse-format : (t : ℕ) → time.parse (time.format t) ≡ some t
  pub format-ne-nil : (t : ℕ) → time.format t ≢ []

-- `api.Cache`: each method returns its result and the new state. `Prune` reads the clock once for
-- each key that it visits.
pub record Cache (S : Type 0) : Type 0 where
  pub retrieve : Text → S → Result GetCredentialsResponse × S
  pub store : CachableGetCredentialsResponse → S → Result (Unit {0}) × S
  pub prune : (Text → ℕ) → S → Result (Unit {0}) × S
