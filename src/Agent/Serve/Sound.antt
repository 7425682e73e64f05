-- ===== src/Agent/Serve/Sound.antt =====
-- What each action of a goroutine of `Serve` keeps of the agent.
use credential_helper.Base.{
  ℕ, suc, ◌+◌, ◌≡◌, ◌≢◌, refl, Bool, true, false, arith, if◌then◌else◌, inl, inr,
}
use credential_helper.Base.Int.{ℤ, is_nonneg}
use credential_helper.Text.{Text}
use credential_helper.Errors.{Result-cases}
use credential_helper.Api.{AgentRequest, Json, Rfc3339}
use credential_helper.Cache.Mem
use credential_helper.Cache.Mem.{MemCache, mem_cache, new_mem_cache}
use credential_helper.Cache.Mem.Laws.{IsValid, store-IsValid, prune-IsValid}
use credential_helper.Agent.Service.{
  CachingAgent, begin_shutdown, handle_request, handle_retrieve, handle_store, handle_prune,
  handle_shutdown, dispatch,
}
use credential_helper.Agent.Serve.{
  Stage, claimed, idle_stopped, prune_stopped, act, claim, wins, heeds, scheduled_prune,
}

-- The goroutines behind a compare-and-swap that they won: all, those that have stopped the idle
-- timer, and those that have stopped the prune timer, too.
pub record Counts : Type 0 where
  pub all : ℕ
  pub past_idle : ℕ
  pub past_prune : ℕ

-- One more at a stage.
abbrev pub with_stage : Stage → Counts → Counts
with_stage claimed k = record k { all = suc k.all }
with_stage idle_stopped k = record k { all = suc k.all; past_idle = suc k.past_idle }
with_stage prune_stopped k = record {
  all = suc k.all;
  past_idle = suc k.past_idle;
  past_prune = suc k.past_prune;
}

-- One more at what follows the stage.
abbrev pub with_next : Stage → Counts → Counts
with_next claimed k = with_stage idle_stopped k
with_next idle_stopped k = with_stage prune_stopped k
with_next prune_stopped k = k

-- One agent, with its in-memory cache.
pub record IsSound (k : Counts) (a : CachingAgent MemCache) : Type 0 where
  pub closed : a.closes + k.all ≡ (if a.shutdown_started then 1 else 0)
  pub idle_stops : a.closes + k.past_idle ≢ 0 → is_nonneg a.idle_timeout ≡ false
  pub prune_stops : a.closes + k.past_prune ≢ 0 → is_nonneg a.prune_interval ≡ false
  pub valid : IsValid a.cache

with_cache :
    {k : Counts} {a : CachingAgent MemCache} (c : MemCache)
    → IsSound k a
    → IsValid c
    → IsSound k (record a { cache = c })
with_cache c h v = record {
  closed = h.closed;
  idle_stops = h.idle_stops;
  prune_stops = h.prune_stops;
  valid = v;
}

pub with_timers :
    {k : Counts} {a : CachingAgent MemCache} (i p : ℤ)
    → IsSound k a
    → IsSound k (record a { idle_timer = i; prune_timer = p })
with_timers i p h = record {
  closed = h.closed;
  idle_stops = h.idle_stops;
  prune_stops = h.prune_stops;
  valid = h.valid;
}

either :
    {k : Counts} {a b : CachingAgent MemCache} (t : Bool)
    → IsSound k a
    → IsSound k b
    → IsSound k (if t then a else b)
either true h g = h
either false h g = g

module _ {Raw : Type 0} (time : Rfc3339) (json : Json Raw) (now : Text → ℕ) {k : Counts} where
  handle_retrieve-IsSound :
      (req : AgentRequest Raw) {a : CachingAgent MemCache}
      → IsSound k a
      → IsSound k (handle_retrieve (mem_cache time) json req a).1
  unfolding handle_retrieve Mem.retrieve
  handle_retrieve-IsSound req {a} h = elim (Result-cases (json.key.unmarshal req.payload)) [
    | inl (key, read) ↦ rw (read, handle_retrieve) (with_cache a.cache h h.valid)
    | inr (e, bad) ↦ rw (bad, handle_retrieve) h
  ]

  handle_store-IsSound :
      (req : AgentRequest Raw) {a : CachingAgent MemCache}
      → IsSound k a
      → IsSound k (handle_store (mem_cache time) json req a).1
  unfolding handle_store
  handle_store-IsSound req {a} h = elim (Result-cases (json.cachable.unmarshal req.payload)) [
    | inl (v, read) ↦
        rw (read, handle_store) (with_cache (Mem.store v a.cache).1 h (store-IsValid v h.valid))
    | inr (e, bad) ↦ rw (bad, handle_store) h
  ]

  handle_prune-IsSound :
      {a : CachingAgent MemCache}
      → IsSound k a
      → IsSound k (handle_prune {Raw = Raw} (mem_cache time) json now a).1
  unfolding handle_prune
  handle_prune-IsSound {a} h =
      with_cache (Mem.prune time now a.cache).1 h (prune-IsValid time now h.valid)

  -- a request that does not win the compare-and-swap
  dispatch-IsSound :
      (req : AgentRequest Raw) {a : CachingAgent MemCache}
      → wins req a ≡ false
      → IsSound k a
      → IsSound k (dispatch (mem_cache time) json now req a).1
  unfolding dispatch handle_shutdown
  dispatch-IsSound req {a} loses h =
      ground
        (arith, handle_retrieve-IsSound req h, handle_store-IsSound req h, handle_prune-IsSound h)

  pub handle_request-IsSound :
      (req : AgentRequest Raw) {a : CachingAgent MemCache}
      → wins req a ≡ false
      → IsSound k a
      → IsSound k (handle_request (mem_cache time) json now req a).1
  unfolding handle_request
  handle_request-IsSound req {a} loses h =
      dispatch-IsSound req {a = record a { idle_timer = a.idle_timeout }} loses (with_timers _ _ h)

  pub scheduled_prune-IsSound :
      {a : CachingAgent MemCache} → IsSound k a → IsSound k (scheduled_prune (mem_cache time) now a)
  unfolding scheduled_prune
  scheduled_prune-IsSound {a} h = with_timers _ _ (
      either (heeds a.prune_interval a)
        (with_cache (Mem.prune time now a.cache).1 h (prune-IsValid time now h.valid)) h)

pub claim-IsSound :
    {k : Counts} {a : CachingAgent MemCache}
    → a.shutdown_started ≡ false
    → IsSound k a
    → IsSound (with_stage claimed k) (claim a)
claim-IsSound {k} {a} first h = record {
  closed = ground (arith, h.closed);
  idle_stops = h.idle_stops;
  prune_stops = h.prune_stops;
  valid = h.valid;
}

pub act-IsSound :
    (stage : Stage) (k : Counts) {a : CachingAgent MemCache}
    → IsSound (with_stage stage k) a
    → IsSound (with_next stage k) (act stage a)
unfolding act
act-IsSound claimed k {a} h = record {
  closed = h.closed;
  idle_stops = λ n. refl;
  prune_stops = h.prune_stops;
  valid = h.valid;
}
act-IsSound idle_stopped k {a} h = record {
  closed = h.closed;
  idle_stops = h.idle_stops;
  prune_stops = λ n. refl;
  valid = h.valid;
}
act-IsSound prune_stopped k {a} h = record {
  closed = omega (arith, h.closed);
  idle_stops = λ n. h.idle_stops (λ e. omega (arith, e));
  prune_stops = λ n. h.prune_stops (λ e. omega (arith, e));
  valid = h.valid;
}

-- The stages together are what `handleShutdown` does.
act-begin_shutdown :
    (a : CachingAgent MemCache)
    → act prune_stopped (act idle_stopped (act claimed (claim a))) ≡ begin_shutdown a
unfolding act begin_shutdown
act-begin_shutdown a = refl
