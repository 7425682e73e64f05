-- ===== src/Tests/Caching.antt =====
-- The caches, the agent and the client.
use credential_helper.Base.{
  ℕ, ◌≡◌, ◌≢◌, ◌⊎◌, ◌↔◌, refl, false, Option, none, some, List, [], ◌∷◌, arith,
}
use credential_helper.Base.Int.{pos}
use credential_helper.Text.{Text, lit, text_eq}
use credential_helper.Dict.{lookup, keep, insert}
use credential_helper.Errors.{Result, ok, err, cache_miss}
use credential_helper.Api.{
  GetCredentialsRequest, GetCredentialsResponse, CachableGetCredentialsResponse,
  agent_request_retrieve, agent_request_store, agent_request_prune, agent_request_shutdown,
}
use credential_helper.Cache.Mem
use credential_helper.Cache.Mem.{MemCache, new_mem_cache, mem_cache, is_cachable}
use credential_helper.Cache.Mem.Laws.{
  IsValid, new_mem_cache-IsValid, store-IsValid, retrieve-store, IsFresh, retrieve-prune_iff,
}
use credential_helper.Cache.Socket.{Ends, Peer}
use credential_helper.Agent.Service.{
  CachingAgent, Incoming, message, malformed, handle_conn, no_request,
}
use credential_helper.Agent.Replies.{stale_payload}
use credential_helper.Agent.Shutdown.{IsOrderly, handle_conn-IsOrderly}
use credential_helper.Agent.Refinement.{
  Served, Use, retrieving, storing, use_all, over_socket, use_all-over_socket,
}
use credential_helper.Client.{Helper, foreground}
use credential_helper.Client.Caching.{foreground_twice}
use credential_helper.Tests.World.{
  Message, text, cachable, json, json-IsLosslessJson, time, answer_expiring,
}

abbrev pub entry : CachableGetCredentialsResponse
entry = record { cache_key = lit "k"; response = answer_expiring 9 }

abbrev other_entry : CachableGetCredentialsResponse
other_entry = record { cache_key = lit "l"; response = answer_expiring 4 }

abbrev two_entries : MemCache
two_entries = (Mem.store other_entry (Mem.store entry new_mem_cache).1).1

two_entries-IsValid : IsValid two_entries
two_entries-IsValid = store-IsValid other_entry (store-IsValid entry new_mem_cache-IsValid)

abbrev now : Text → ℕ
now key = 5

retrieve-store_example :
    ((lit "k" ≢ [])
      × ((answer_expiring 9).expires ≢ [])
      × (lit "k" ≡ lit "k")
      × ((Mem.retrieve (lit "k") (Mem.store entry new_mem_cache).1).0 ≡ ok (answer_expiring 9)))
    ⊎ (((lit "k" ≡ []) ⊎ (((answer_expiring 9).expires ≡ []) ⊎ (lit "k" ≢ lit "k")))
        × ((Mem.retrieve (lit "k") (Mem.store entry new_mem_cache).1).0
            ≡ (Mem.retrieve (lit "k") new_mem_cache).0))
retrieve-store_example = retrieve-store entry (lit "k") new_mem_cache

retrieve-prune_iff_example :
    ((Mem.retrieve (lit "k") (Mem.prune time now two_entries).1).0 ≡ ok (answer_expiring 9)) ↔ (
      ((Mem.retrieve (lit "k") two_entries).0 ≡ ok (answer_expiring 9))
      × IsFresh time now (lit "k") (answer_expiring 9))
retrieve-prune_iff_example =
    retrieve-prune_iff time now (lit "k") (answer_expiring 9) {c = two_entries} two_entries-IsValid

-- the expired entry is gone, the other one stays
prune_test :
    ((Mem.retrieve (lit "l") (Mem.prune time now two_entries).1).0 ≡ err cache_miss)
    × ((Mem.retrieve (lit "k") (Mem.prune time now two_entries).1).0 ≡ ok (answer_expiring 9))
unfolding Mem.retrieve Mem.store Mem.prune Mem.survives lookup lit text_eq keep insert
prune_test = (refl, refl)

abbrev pub agent : CachingAgent MemCache
agent = record {
  cache = new_mem_cache;
  shutdown_started = false;
  idle_timeout = pos 100;
  prune_interval = pos 10;
  idle_timer = pos 100;
  prune_timer = pos 10;
  closes = 0;
}

pub agent-IsOrderly : IsOrderly agent
agent-IsOrderly = record {
  closed_once = refl;
  idle_stops = λ e. absurd (ground arith);
  prune_stops = λ e. absurd (ground arith);
}

abbrev asks : Text → Option Message → Incoming Message × (Text → ℕ)
asks method payload = (message (some method) payload, now)

abbrev conversation : List (Incoming Message × (Text → ℕ))
conversation =
    asks agent_request_store (some (cachable entry))
    ∷ asks agent_request_retrieve (some (text (lit "k")))
    ∷ asks agent_request_shutdown none
    ∷ asks agent_request_shutdown none
    ∷ asks (lit "dance") none
    ∷ (malformed, now)
    ∷ asks agent_request_prune none
    ∷ []

handle_conn-IsOrderly_example :
    IsOrderly (handle_conn (mem_cache time) json no_request conversation agent).1
handle_conn-IsOrderly_example =
    handle_conn-IsOrderly (mem_cache time) json no_request conversation {a = agent} agent-IsOrderly

stale_payload_example :
    handle_conn
      (mem_cache time)
      json
      no_request
      ((message (some agent_request_store) (some (cachable entry)), now)
        ∷ (message (some agent_request_store) none, now)
        ∷ [])
      agent
    ≡ handle_conn
        (mem_cache time)
        json
        no_request
        ((message (some agent_request_store) (some (cachable entry)), now)
          ∷ (message (some agent_request_store) (some (cachable entry)), now)
          ∷ [])
        agent
stale_payload_example =
    stale_payload (mem_cache time) json agent_request_store agent_request_store (cachable entry)
      no_request now now [] agent

-- nothing answers on the standard streams
abbrev pub silent : Peer Message (Unit {0})
silent req s = (err cache_miss, s)

abbrev pub connected : Ends (Served Message) (Unit {0})
connected = record { conn = record { req = no_request; agent = agent }; stdio = tt }

abbrev uses : List Use
uses = retrieving (lit "k") ∷ storing entry ∷ retrieving (lit "k") ∷ storing other_entry ∷ []

use_all-over_socket_example :
    ((use_all (over_socket time json now silent) uses connected).0
      ≡ (use_all (mem_cache time) uses new_mem_cache).0)
    × ((use_all (over_socket time json now silent) uses connected).1.conn.agent.cache
        ≡ (use_all (mem_cache time) uses new_mem_cache).1)
use_all-over_socket_example =
    use_all-over_socket time json now silent json-IsLosslessJson uses connected
      new_mem_cache-IsValid

abbrev pub prints : GetCredentialsResponse → Result (Unit {0})
prints resp = ok tt

abbrev pub request : GetCredentialsRequest
request = record { uri = lit "https://k/a" }

abbrev helper : Helper Message
helper = record {
  cache_key = λ req. lit "k";
  resolver = λ config. ok (λ req. ok (answer_expiring 9));
}

abbrev broken_helper : Helper Message
broken_helper = record { cache_key = λ req. lit "k"; resolver = λ config. err cache_miss }

abbrev pub configure : Text → Result (Option (Helper Message) × Option Message)
configure uri = ok (some helper, none)

foreground_twice_example :
    foreground
      (mem_cache time)
      prints
      (λ uri. ok (some broken_helper, none))
      (ok request)
      (foreground (mem_cache time) prints configure (ok request) new_mem_cache).1
    ≡ (
      record { printed = answer_expiring 9 ∷ []; fatal = none },
      (foreground (mem_cache time) prints configure (ok request) new_mem_cache).1,
    )
unfolding Mem.retrieve lit lookup
foreground_twice_example =
    foreground_twice time prints configure (λ uri. ok (some broken_helper, none)) request helper
      broken_helper none none (λ req. ok (answer_expiring 9)) (answer_expiring 9) new_mem_cache refl
      refl refl refl refl refl refl refl
      (foreground (mem_cache time) prints configure (ok request) new_mem_cache).1 refl
