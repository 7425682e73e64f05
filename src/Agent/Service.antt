-- ===== src/Agent/Service.antt =====
-- agent/service.go: the handlers of `CachingAgent`, `handleConn` and `handleShutdown`.
-- A handler's error and the state that it leaves come back together. The clock readings of a
-- `Prune` come with the request that asks for it.
use credential_helper.Base.{ℕ, ◌+◌, Bool, true, Option, none, some, List, [], ◌∷◌, if◌then◌else◌}
use credential_helper.Base.Int.{ℤ, negsuc}
use credential_helper.Text.{Text, text_eq}
use credential_helper.Errors.{Result, ok, err, wrapped, is_cache_miss, ◌>>=◌, wrap}
use credential_helper.Api.{
  GetCredentialsResponse, AgentRequest, AgentResponse, Json, Cache, agent_request_retrieve,
  agent_request_store, agent_request_prune, agent_request_shutdown, agent_response_ok,
  agent_response_cache_miss, agent_response_error,
}

-- Durations are in nanoseconds. A timer is the duration of its last `Reset`. `closes` counts the
-- calls of `close(a.shutdownChan)`: the second one would panic.
pub record CachingAgent (S : Type 0) : Type 0 where
  pub cache : S
  pub shutdown_started : Bool
  pub idle_timeout : ℤ
  pub prune_interval : ℤ
  pub idle_timer : ℤ
  pub prune_timer : ℤ
  pub closes : ℕ

-- -time.Microsecond
abbrev pub minus_microsecond : ℤ
minus_microsecond = negsuc 999

abbrev pub plain_response : {Raw : Type 0} → Text → AgentResponse Raw
plain_response status = record { status = status; payload = none }

-- the part of `handleShutdown` behind its test, in one step
unfoldable pub begin_shutdown : {S : Type 0} → CachingAgent S → CachingAgent S
begin_shutdown a = record a {
  shutdown_started = true;
  idle_timeout = minus_microsecond;
  idle_timer = minus_microsecond;
  prune_interval = minus_microsecond;
  prune_timer = minus_microsecond;
  closes = a.closes + 1;
}

module _ {S Raw : Type 0} where
  unfoldable pub handle_shutdown : CachingAgent S → Result (AgentResponse Raw) × CachingAgent S
  unfolding begin_shutdown
  handle_shutdown a =
      if a.shutdown_started
      then (ok (plain_response agent_response_ok), a)
      else (ok (plain_response agent_response_ok), begin_shutdown a)

-- What arrives on a connection: a JSON object, in which a field may be missing, or anything else.
pub data Incoming (Raw : Type 0) : Type 0 where
  message : Option Text → Option Raw → Incoming Raw
  malformed : Incoming Raw

-- `json.Decode` leaves the fields alone that the message lacks, and `handleConn` has one `req` for
-- the whole connection.
unfoldable pub decode_into :
    {Raw : Type 0} → AgentRequest Raw → Option Text → Option Raw → AgentRequest Raw
decode_into req none none = req
decode_into req none (some p) = record req { payload = some p }
decode_into req (some m) none = record req { method = m }
decode_into req (some m) (some p) = record { method = m; payload = some p }

module _ {S Raw : Type 0} (cache : Cache S) (json : Json Raw) where
  retrieve_reply : Result GetCredentialsResponse → Result (AgentResponse Raw)
  retrieve_reply (ok resp) = do
    payload ← wrap "retrieve: failed to marshal cache value" (json.response.marshal resp)
    ok (record { status = agent_response_ok; payload = some payload })
  retrieve_reply (err e) =
      if is_cache_miss e then ok (plain_response agent_response_cache_miss) else err e

  unfoldable pub handle_retrieve :
      AgentRequest Raw → CachingAgent S → Result (AgentResponse Raw) × CachingAgent S
  unfolding retrieve_reply
  handle_retrieve req a = elim (json.key.unmarshal req.payload) [
    | err e ↦ (err (wrapped "retrieve: failed to unmarshal cache key from request" e), a)
    | ok key ↦ let (r, s) = cache.retrieve key a.cache in (retrieve_reply r, record a { cache = s })
  ]

  plain_reply : Result (Unit {0}) → Result (AgentResponse Raw)
  plain_reply (ok _) = ok (plain_response agent_response_ok)
  plain_reply (err e) = err e

  unfoldable pub handle_store :
      AgentRequest Raw → CachingAgent S → Result (AgentResponse Raw) × CachingAgent S
  unfolding plain_reply
  handle_store req a = elim (json.cachable.unmarshal req.payload) [
    | err e ↦ (err (wrapped "store: failed to unmarshal cache value from request" e), a)
    | ok value ↦ let (r, s) = cache.store value a.cache in (plain_reply r, record a { cache = s })
  ]

  unfoldable pub handle_prune :
      (Text → ℕ) → CachingAgent S → Result (AgentResponse Raw) × CachingAgent S
  unfolding plain_reply
  handle_prune now a =
      let (r, s) = cache.prune now a.cache in (plain_reply r, record a { cache = s })

  unknown_method : AgentResponse Raw
  unknown_method = record {
    status = agent_response_error;
    payload = some (json.quoted "unknown method");
  }

  -- the `switch` of `handleConn`
  unfoldable pub dispatch :
      (Text → ℕ) → AgentRequest Raw → CachingAgent S → Result (AgentResponse Raw) × CachingAgent S
  unfolding unknown_method
  dispatch now req a =
      if text_eq req.method agent_request_retrieve
      then handle_retrieve req a
      else if text_eq req.method agent_request_store
      then handle_store req a
      else if text_eq req.method agent_request_prune
      then handle_prune now a
      else if text_eq req.method agent_request_shutdown
      then handle_shutdown a
      else (ok unknown_method, a)

  raw_error : Result Raw → Raw
  raw_error (ok raw) = raw
  raw_error (err _) = json.quoted "unknown error"

  -- an error becomes a response with status "error"
  unfoldable pub respond : Result (AgentResponse Raw) → AgentResponse Raw
  unfolding raw_error
  respond (ok resp) = resp
  respond (err e) = record {
    status = agent_response_error;
    payload = some (raw_error (json.error_message e));
  }

  -- one round of `handleConn` after a message was decoded
  unfoldable pub handle_request :
      (Text → ℕ) → AgentRequest Raw → CachingAgent S → AgentResponse Raw × CachingAgent S
  handle_request now req a =
      let (r, a') = dispatch now req (record a { idle_timer = a.idle_timeout }) in (respond r, a')

  abbrev invalid_json : AgentResponse Raw
  invalid_json = record {
    status = agent_response_error;
    payload = some (json.quoted "invalid json in request");
  }

  -- `handleConn` on what arrives, up to the end of the connection; the responses in order
  unfoldable pub handle_conn :
      AgentRequest Raw
      → List (Incoming Raw × (Text → ℕ))
      → CachingAgent S
      → List (AgentResponse Raw) × CachingAgent S
  handle_conn req [] a = ([], a)
  handle_conn req ((malformed, now) ∷ rest) a = (invalid_json ∷ [], a)
  handle_conn req ((message m p, now) ∷ rest) a =
      let req' = decode_into req m p in
      let (resp, a') = handle_request now req' a in
      let (resps, a'') = handle_conn req' rest a' in (resp ∷ resps, a'')

-- `req := api.AgentRequest{}`
abbrev pub no_request : {Raw : Type 0} → AgentRequest Raw
no_request = record { method = []; payload = none }
