-- ===== src/Agent/Shutdown.antt =====
-- Shutting the agent down: the channel is closed once, and the timers are negative from then on.
use credential_helper.Base.{ℕ, ◌≡◌, true, false, List, [], ◌∷◌, arith, if◌then◌else◌}
use credential_helper.Base.Int.{is_nonneg}
use credential_helper.Text.{Text}
use credential_helper.Api.{AgentRequest, Json, Cache}
use credential_helper.Agent.Service.{
  CachingAgent, Incoming, message, malformed, decode_into, handle_shutdown, handle_retrieve,
  handle_store, handle_prune, dispatch, handle_request, handle_conn,
}

pub record IsOrderly {S : Type 0} (a : CachingAgent S) : Type 0 where
  pub closed_once : a.closes ≡ (if a.shutdown_started then 1 else 0)
  pub idle_stops : a.shutdown_started ≡ true → is_nonneg a.idle_timeout ≡ false
  pub prune_stops : a.shutdown_started ≡ true → is_nonneg a.prune_interval ≡ false

module _ {S Raw : Type 0} (cache : Cache S) (json : Json Raw) where
  dispatch-IsOrderly :
      (now : Text → ℕ) (req : AgentRequest Raw) {a : CachingAgent S}
      → IsOrderly a
      → IsOrderly (dispatch cache json now req a).1
  unfolding dispatch handle_retrieve handle_store handle_prune handle_shutdown
  dispatch-IsOrderly now req h = ground arith

  handle_request-IsOrderly :
      (now : Text → ℕ) (req : AgentRequest Raw) {a : CachingAgent S}
      → IsOrderly a
      → IsOrderly (handle_request cache json now req a).1
  unfolding handle_request
  handle_request-IsOrderly now req {a} h =
      dispatch-IsOrderly now req {a = record a { idle_timer = a.idle_timeout }} (record {
        closed_once = h.closed_once;
        idle_stops = h.idle_stops;
        prune_stops = h.prune_stops;
      })

  -- Whatever arrives on a connection, an orderly agent stays orderly: the shutdown channel was
  -- closed once if shutdown has started and never otherwise, and once it has started both
  -- durations are negative.
  pub handle_conn-IsOrderly :
      (req : AgentRequest Raw) (incoming : List (Incoming Raw × (Text → ℕ))) {a : CachingAgent S}
      → IsOrderly a
      → IsOrderly (handle_conn cache json req incoming a).1
  unfolding handle_conn
  handle_conn-IsOrderly req [] h = h
  handle_conn-IsOrderly req ((malformed, now) ∷ rest) h = h
  handle_conn-IsOrderly req ((message m p, now) ∷ rest) h =
      handle_conn-IsOrderly (decode_into req m p) rest
        (handle_request-IsOrderly now (decode_into req m p) h)
