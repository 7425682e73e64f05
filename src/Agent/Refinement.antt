-- ===== src/Agent/Refinement.antt =====
-- The socket cache in front of an agent with an in-memory cache, against that cache used directly.
use credential_helper.Base.{
  ℕ, ◌≡◌, refl, ap, sym, subst, false, none, some, List, [], ◌∷◌, arith, Option-cases, inl, inr,
}
use credential_helper.Text.{Text, lit, text_eq, text_eq_refl}
use credential_helper.Dict.{lookup}
use credential_helper.Errors.{Result, ok, is_cache_miss}
use credential_helper.Api.{
  GetCredentialsResponse, CachableGetCredentialsResponse, AgentRequest, Json, Cache, IsLosslessJson,
  Rfc3339, agent_request_retrieve, agent_request_store, agent_response_ok,
  agent_response_cache_miss,
}
use credential_helper.Cache.Mem
use credential_helper.Cache.Mem.{MemCache, mem_cache, is_cachable}
use credential_helper.Cache.Mem.Laws.{IsValid, store-IsValid}
use credential_helper.Cache.Socket
use credential_helper.Cache.Socket.{Ends, Peer, socket_cache}
use credential_helper.Agent.Service.{
  CachingAgent, decode_into, handle_retrieve, handle_store, dispatch, respond, handle_request,
}

-- The agent's side of one connection: `req` of `handleConn`, and the agent.
pub record Served (Raw : Type 0) : Type 0 where
  pub req : AgentRequest Raw
  pub agent : CachingAgent MemCache

-- A use of the cache by a client, and its result.
pub data Use : Type 0 where
  retrieving : Text → Use
  storing : CachableGetCredentialsResponse → Use

pub data Outcome : Type 0 where
  retrieved : Result GetCredentialsResponse → Outcome
  stored : Result (Unit {0}) → Outcome

module _ {S : Type 0} (cache : Cache S) where
  abbrev pub use_once : Use → S → Outcome × S
  use_once (retrieving k) s = let (r, s') = cache.retrieve k s in (retrieved r, s')
  use_once (storing v) s = let (r, s') = cache.store v s in (stored r, s')

  unfoldable pub use_all : List Use → S → List Outcome × S
  use_all [] s = ([], s)
  use_all (u ∷ us) s = let (o, s') = use_once u s in let (os, s'') = use_all us s' in (o ∷ os, s'')

ok_is_not_miss : text_eq agent_response_ok agent_response_cache_miss ≡ false
unfolding text_eq lit
ok_is_not_miss = refl

store_is_not_retrieve : text_eq agent_request_store agent_request_retrieve ≡ false
unfolding text_eq lit
store_is_not_retrieve = refl

no_empty_key : {c : MemCache} → IsValid c → lookup [] c.cache ≡ none
no_empty_key {c} h = elim (Option-cases (lookup [] c.cache)) [
  | inl missing ↦ missing
  | inr (v, there) ↦ ground (arith, h.at_key [] v there)
]

module _ {Q Raw : Type 0} (time : Rfc3339) (json : Json Raw) (now : Text → ℕ)
    (streams : Peer Raw Q) where
  -- the agent answers the message that the client encoded
  pub agent_peer : Peer Raw (Served Raw)
  agent_peer sent s =
      let req = decode_into s.req (some sent.method) sent.payload in
      let (resp, a) = handle_request (mem_cache time) json now req s.agent in
      (ok resp, record { req = req; agent = a })

  abbrev pub over_socket : Cache (Ends (Served Raw) Q)
  over_socket = socket_cache json agent_peer streams

  module _ (lossless : IsLosslessJson json) where
    pub retrieve_over_socket :
        (k : Text) (s : Ends (Served Raw) Q)
        → IsValid s.conn.agent.cache
        → ((Socket.retrieve json agent_peer streams k s).0 ≡ (Mem.retrieve k s.conn.agent.cache).0)
          × ((Socket.retrieve json agent_peer streams k s).1.conn.agent.cache ≡ s.conn.agent.cache)
    unfolding Socket.retrieve Mem.retrieve agent_peer decode_into handle_request dispatch
        handle_retrieve respond is_cache_miss
    retrieve_over_socket [] s h = (ground (arith, no_empty_key h), refl)
    retrieve_over_socket (c ∷ k) s h =
        let (raw, written, read) = lossless.key (c ∷ k) in
        elim (Option-cases (lookup (c ∷ k) s.conn.agent.cache.cache)) [
          | inl missing ↦
              ground
                (arith, text_eq_refl agent_request_retrieve, text_eq_refl agent_response_cache_miss)
          | inr (v, there) ↦
              let (raw', written', read') = lossless.response v.response in
              ground (
                arith,
                text_eq_refl agent_request_retrieve,
                text_eq_refl agent_response_ok,
                ok_is_not_miss,
              )
        ]

    pub store_over_socket :
        (v : CachableGetCredentialsResponse) (s : Ends (Served Raw) Q)
        → ((Socket.store json agent_peer streams v s).0 ≡ (Mem.store v s.conn.agent.cache).0)
          × ((Socket.store json agent_peer streams v s).1.conn.agent.cache
              ≡ (Mem.store v s.conn.agent.cache).1)
    unfolding Socket.store Mem.store agent_peer decode_into handle_request dispatch handle_store
        respond
    store_over_socket v s =
        let (raw, written, read) = lossless.cachable v in
        ground (
          arith,
          text_eq_refl agent_request_store,
          text_eq_refl agent_response_ok,
          store_is_not_retrieve,
        )

    once :
        (u : Use) (s : Ends (Served Raw) Q)
        → IsValid s.conn.agent.cache
        → ((use_once over_socket u s).0 ≡ (use_once (mem_cache time) u s.conn.agent.cache).0)
          × ((use_once over_socket u s).1.conn.agent.cache
              ≡ (use_once (mem_cache time) u s.conn.agent.cache).1)
    unfolding Mem.retrieve
    once (retrieving k) s h =
        (ap retrieved (retrieve_over_socket k s h).0, (retrieve_over_socket k s h).1)
    once (storing v) s h = (ap stored (store_over_socket v s).0, (store_over_socket v s).1)

    use_once-IsValid :
        (u : Use) {c : MemCache} → IsValid c → IsValid (use_once (mem_cache time) u c).1
    unfolding Mem.retrieve
    use_once-IsValid (retrieving k) h = h
    use_once-IsValid (storing v) h = store-IsValid v h

    -- Any sequence of reads and writes gives a client the same results through the agent's socket
    -- as on the agent's cache itself, and leaves the same cache behind, if the JSON codec loses
    -- nothing and the cache was well-formed.
    pub use_all-over_socket :
        (us : List Use) (s : Ends (Served Raw) Q)
        → IsValid s.conn.agent.cache
        → ((use_all over_socket us s).0 ≡ (use_all (mem_cache time) us s.conn.agent.cache).0)
          × ((use_all over_socket us s).1.conn.agent.cache
              ≡ (use_all (mem_cache time) us s.conn.agent.cache).1)
    unfolding use_all
    use_all-over_socket [] s h = (refl, refl)
    use_all-over_socket (u ∷ us) s h =
        let (same, kept) = once u s h in
        let s' = (use_once over_socket u s).1 in
        let (sames, kepts) =
          use_all-over_socket us s' (subst IsValid (sym kept) (use_once-IsValid u h)) in
        (cc (same, kept, sames), cc (kept, kepts))
