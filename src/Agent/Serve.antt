-- ===== src/Agent/Serve.antt =====
-- `Serve` of agent/service.go: its goroutines, interleaved in any order. Time is left out: a timer
-- may fire at any moment. Each access to the cache is one step, since its lock makes it one, and
-- so is the write of a duration with the reset of its timer.
pub mod Sound
pub mod Invariant
pub mod Stuck
pub mod Returns
use credential_helper.Base.{
  ℕ, ◌+◌, ◌≡◌, ◌≢◌, Bool, true, false, not, ◌&&◌, Option, List, [], ◌∷◌, ◌++◌, if◌then◌else◌,
}
use credential_helper.Base.Int.{ℤ, is_nonneg}
use credential_helper.Text.{Text, text_eq}
use credential_helper.Api.{AgentRequest, Json, Cache, agent_request_shutdown}
use credential_helper.Agent.Service.{
  CachingAgent, minus_microsecond, decode_into, handle_request, no_request,
}

-- The loop of `Serve`: at its `select`, behind it in `wg.Wait`, or returned.
pub data Main : Type 0 where
  selecting waiting returned : Main

-- `acceptLoop`: in `Accept`, at `out <- conn`, or returned.
pub data Acceptor : Type 0 where
  accepting handing accept_done : Acceptor

-- How far `handleShutdown` is behind a compare-and-swap that it won: before it stops the idle timer,
-- before it stops the prune timer, or before it closes the channel.
pub data Stage : Type 0 where
  claimed idle_stopped prune_stopped : Stage

-- The goroutine of the idle timer: at the timer, at its test, at the compare-and-swap of
-- `handleShutdown`, behind it after it won, or returned.
pub data Idler : Type 0 where
  idle_waiting idle_awake idle_calling idle_done : Idler
  idle_closing : Stage → Idler

-- The goroutine of the prune timer: at the head of its loop, at the timer, behind it, or returned.
pub data Pruner : Type 0 where
  prune_testing prune_waiting prune_awake prune_done : Pruner

-- `handleConn`: before it reads, or in `handleShutdown` behind a compare-and-swap that it won.
pub data Conn (Raw : Type 0) : Type 0 where
  reading : AgentRequest Raw → Conn Raw
  closing : Stage → AgentRequest Raw → Conn Raw

pub record Server (S Raw : Type 0) : Type 0 where
  pub agent : CachingAgent S
  pub listening : Bool
  pub main : Main
  pub acceptor : Acceptor
  pub idler : Idler
  pub pruner : Pruner
  pub conns : List (Conn Raw)

-- the compare-and-swap of `handleShutdown`, where it succeeds
abbrev pub claim : {S : Type 0} → CachingAgent S → CachingAgent S
claim a = record a { shutdown_started = true }

-- what `handleShutdown` does next, at a stage
unfoldable pub act : {S : Type 0} → Stage → CachingAgent S → CachingAgent S
act claimed a = record a { idle_timeout = minus_microsecond; idle_timer = minus_microsecond }
act idle_stopped a = record a {
  prune_interval = minus_microsecond;
  prune_timer = minus_microsecond;
}
act prune_stopped a = record a { closes = a.closes + 1 }

-- where the goroutines are then
unfoldable pub conn_behind : {Raw : Type 0} → Stage → AgentRequest Raw → Conn Raw
conn_behind claimed req = closing idle_stopped req
conn_behind idle_stopped req = closing prune_stopped req
conn_behind prune_stopped req = reading req

unfoldable pub idler_behind : Stage → Idler
idler_behind claimed = idle_closing idle_stopped
idler_behind idle_stopped = idle_closing prune_stopped
idler_behind prune_stopped = idle_done

-- the request asks for a shutdown, and none has started
abbrev pub wins : {S Raw : Type 0} → AgentRequest Raw → CachingAgent S → Bool
wins req a = text_eq req.method agent_request_shutdown && not a.shutdown_started

-- the test of a goroutine that a timer woke
abbrev pub heeds : {S : Type 0} → ℤ → CachingAgent S → Bool
heeds duration a = is_nonneg duration && not a.shutdown_started

-- the body of the loop of the prune timer, as one step
unfoldable pub scheduled_prune :
    {S : Type 0} → Cache S → (Text → ℕ) → CachingAgent S → CachingAgent S
scheduled_prune cache now a =
    let a' =
      if heeds a.prune_interval a then record a { cache = (cache.prune now a.cache).1 } else a in
    record a' { prune_timer = a'.prune_interval }

-- `NewCachingAgent` and the first lines of `Serve`
abbrev pub start_server : {S Raw : Type 0} → S → ℤ → ℤ → Server S Raw
start_server cache idle_timeout prune_interval = record {
  agent = record {
    cache = cache;
    shutdown_started = false;
    idle_timeout = idle_timeout;
    prune_interval = prune_interval;
    idle_timer = idle_timeout;
    prune_timer = ℤ.pos 0;
    closes = 0;
  };
  listening = true;
  main = selecting;
  acceptor = accepting;
  idler = idle_waiting;
  pruner = prune_testing;
  conns = [];
}

module _ {S Raw : Type 0} (cache : Cache S) (json : Json Raw) where
  pub data Step (s : Server S Raw) : Server S Raw → Type 0 where
    -- `acceptLoop`: `Accept` blocks until a client connects, the listener is closed, or the system
    -- reports another error
    accept : s.acceptor ≡ accepting → s.listening ≡ true → Step s (record s { acceptor = handing })
    accept_error :
        s.acceptor ≡ accepting → s.listening ≡ true → Step s (record s { acceptor = accept_done })
    accept_closed :
        s.acceptor ≡ accepting → s.listening ≡ false → Step s (record s { acceptor = accept_done })
    -- the three cases of the `select`; returning closes the listener
    hand :
        s.main ≡ selecting
        → s.acceptor ≡ handing
        → Step s (record s { acceptor = accepting; conns = reading no_request ∷ s.conns })
    stop :
        s.main ≡ selecting
        → s.agent.closes ≢ 0
        → Step s (record s { main = waiting; listening = false })
    cancel : s.main ≡ selecting → Step s (record s { main = waiting; listening = false })
    -- `wg.Wait`
    return :
        s.main ≡ waiting
        → s.acceptor ≡ accept_done
        → s.idler ≡ idle_done
        → s.pruner ≡ prune_done
        → s.conns ≡ []
        → Step s (record s { main = returned })
    -- a connection
    request :
        (before after : List (Conn Raw)) (req : AgentRequest Raw) (method : Option Text)
        (payload : Option Raw) (now : Text → ℕ)
        → s.conns ≡ before ++ reading req ∷ after
        → wins (decode_into req method payload) s.agent ≡ false
        → Step s (record s {
          agent = (handle_request cache json now (decode_into req method payload) s.agent).1;
          conns = before ++ reading (decode_into req method payload) ∷ after;
        })
    request_shutdown :
        (before after : List (Conn Raw)) (req : AgentRequest Raw) (method : Option Text)
        (payload : Option Raw)
        → s.conns ≡ before ++ reading req ∷ after
        → wins (decode_into req method payload) s.agent ≡ true
        → Step s (record s {
          agent = claim (record s.agent { idle_timer = s.agent.idle_timeout });
          conns = before ++ closing claimed (decode_into req method payload) ∷ after;
        })
    advance_shutdown :
        (before after : List (Conn Raw)) (req : AgentRequest Raw) (stage : Stage)
        → s.conns ≡ before ++ closing stage req ∷ after
        → Step s (record s {
          agent = act stage s.agent;
          conns = before ++ conn_behind stage req ∷ after;
        })
    hang_up :
        (before after : List (Conn Raw)) (req : AgentRequest Raw)
        → s.conns ≡ before ++ reading req ∷ after
        → Step s (record s { conns = before ++ after })
    -- the goroutine of the idle timer
    idle_wake : s.idler ≡ idle_waiting → Step s (record s { idler = idle_awake })
    idle_test :
        s.idler ≡ idle_awake
        → Step s (record s {
          idler = if heeds s.agent.idle_timeout s.agent then idle_calling else idle_done;
        })
    idle_lose :
        s.idler ≡ idle_calling
        → s.agent.shutdown_started ≡ true
        → Step s (record s { idler = idle_done })
    idle_win :
        s.idler ≡ idle_calling
        → s.agent.shutdown_started ≡ false
        → Step s (record s { idler = idle_closing claimed; agent = claim s.agent })
    idle_advance :
        (stage : Stage)
        → s.idler ≡ idle_closing stage
        → Step s (record s { idler = idler_behind stage; agent = act stage s.agent })
    -- the goroutine of the prune timer
    prune_test :
        s.pruner ≡ prune_testing
        → Step s
            (record s { pruner = if s.agent.shutdown_started then prune_done else prune_waiting })
    prune_wake : s.pruner ≡ prune_waiting → Step s (record s { pruner = prune_awake })
    prune_act :
        (now : Text → ℕ)
        → s.pruner ≡ prune_awake
        → Step s (record s { pruner = prune_testing; agent = scheduled_prune cache now s.agent })

  pub data Reach (s : Server S Raw) : Server S Raw → Type 0 where
    here : Reach s s
    next : {t u : Server S Raw} → Reach s t → Step t u → Reach s u
