-- ===== src/Cache/Socket.antt =====
-- cache/socketcache.go. What answers on the connection is a function on the peer's state; an error
-- of it is a failure to encode the request or to decode the response.
use credential_helper.Base.{
  ℕ, zero, suc, ◌+◌, ◌/◌, not, ◌||◌, Option, none, some, if◌then◌else◌, ltb, String,
}
use credential_helper.Text.{Text, text_eq, is_empty}
use credential_helper.Errors.{Result, ok, err, cache_miss, failure, wrap}
use credential_helper.Api.{
  GetCredentialsResponse, CachableGetCredentialsResponse, AgentRequest, AgentResponse, Json, Cache,
  agent_request_retrieve, agent_request_store, agent_request_prune, agent_response_ok,
  agent_response_cache_miss,
}

-- the step of the loop in `NewSocketCache`: a millisecond, in nanoseconds
abbrev pub wait : ℕ
wait = 1000000

module _ {C : Type 0} (dial : ℕ → Option C) (timeout : ℕ) where
  -- The loop, with `waited` in nanoseconds; `dial i` is the result of the attempt after `i`.
  dial_loop : ℕ → ℕ → Option C
  dial_loop zero waited = none
  dial_loop (suc fuel) waited =
      let rest = dial_loop fuel (waited + wait) in
      if ltb waited timeout
      then elim (dial waited) [ some conn ↦ some conn | none ↦ rest ]
      else none

  unfoldable pub new_socket_cache : Result C
  unfolding dial_loop
  new_socket_cache = elim (dial_loop (timeout / wait + 1) 0) [
    | some conn ↦ ok conn
    | none ↦ err (failure "dialing socket")
  ]

-- The two ends that the cache writes to: its connection, and the standard streams.
pub record Ends (P Q : Type 0) : Type 0 where
  pub conn : P
  pub stdio : Q

abbrev pub Peer : Type 0 → Type 0 → Type 0
Peer Raw P = AgentRequest Raw → P → Result (AgentResponse Raw) × P

module _ {P Q Raw : Type 0} (json : Json Raw) (peer : Peer Raw P) (streams : Peer Raw Q) where
  retrieved : Result (AgentResponse Raw) → Result GetCredentialsResponse
  retrieved (err e) = err e
  retrieved (ok resp) =
      if text_eq resp.status agent_response_cache_miss
      then err cache_miss
      else if not (text_eq resp.status agent_response_ok)
      then err (failure "retrieving cacheKey from agent")
      else wrap "retrieving cacheKey from agent: umarshaling response"
          (json.response.unmarshal resp.payload)

  unfoldable pub retrieve : Text → Ends P Q → Result GetCredentialsResponse × Ends P Q
  unfolding retrieved
  retrieve key s = if is_empty key then (err cache_miss, s) else elim (json.key.marshal key) [
    | err e ↦ (err e, s)
    | ok payload ↦
        let req : AgentRequest Raw = record {
          method = agent_request_retrieve;
          payload = some payload;
        } in
        let (r, p) = peer req s.conn in (retrieved r, record s { conn = p })
  ]

  acknowledged : String → Result (AgentResponse Raw) → Result (Unit {0})
  acknowledged what (err e) = err e
  acknowledged what (ok resp) =
      if text_eq resp.status agent_response_ok then ok tt else err (failure what)

  unfoldable pub store : CachableGetCredentialsResponse → Ends P Q → Result (Unit {0}) × Ends P Q
  unfolding acknowledged
  store value s =
      if is_empty value.cache_key || is_empty value.response.expires
      then (ok tt, s)
      else elim (json.cachable.marshal value) [
        | err e ↦ (err e, s)
        | ok payload ↦
            let req : AgentRequest Raw = record {
              method = agent_request_store;
              payload = some payload;
            } in
            let (r, p) = peer req s.conn in
            (acknowledged "storing response in agent" r, record s { conn = p })
      ]

  -- `Prune` writes to `os.Stdout` and reads from `os.Stdin`
  unfoldable pub prune : (Text → ℕ) → Ends P Q → Result (Unit {0}) × Ends P Q
  unfolding acknowledged
  prune now s =
      let (r, q) = streams (record { method = agent_request_prune; payload = none }) s.stdio in
      (acknowledged "pruning cache in agent" r, record s { stdio = q })

  abbrev pub socket_cache : Cache (Ends P Q)
  socket_cache = record { retrieve = retrieve; store = store; prune = prune }
