-- ===== src/Agent/Serve/Invariant.antt =====
-- What holds of the agent in every interleaving.
use credential_helper.Base.{
  ◌≤◌, ◌≡◌, ◌≢◌, refl, sym, ap, subst, ◌∙◌, Bool, true, false, List, [], ◌∷◌, ◌++◌, arith,
  if◌then◌else◌,
}
use credential_helper.Base.Int.{ℤ, is_nonneg}
use credential_helper.Api.{AgentRequest, Json, Rfc3339}
use credential_helper.Cache.Mem.{MemCache, mem_cache, new_mem_cache}
use credential_helper.Cache.Mem.Laws.{IsValid, new_mem_cache-IsValid}
use credential_helper.Agent.Service.{CachingAgent, decode_into}
use credential_helper.Agent.Serve.{
  Stage, claimed, idle_stopped, prune_stopped, Idler, Conn, Server, reading, closing, idle_closing,
  idle_calling, idle_done, conn_behind, idler_behind, heeds, start_server, Step, Reach,
}
use credential_helper.Agent.Serve.Sound.{
  Counts, with_stage, with_next, IsSound, with_timers, handle_request-IsSound,
  scheduled_prune-IsSound, claim-IsSound, act-IsSound,
}

no_one : Counts
no_one = record { all = 0; past_idle = 0; past_prune = 0 }

-- with a connection, with all of them, and with the goroutine of the idle timer
with_conn : {Raw : Type 0} → Conn Raw → Counts → Counts
with_conn (reading _) k = k
with_conn (closing stage _) k = with_stage stage k

with_conns : {Raw : Type 0} → List (Conn Raw) → Counts → Counts
unfolding with_conn
with_conns [] k = k
with_conns (c ∷ cs) k = with_conn c (with_conns cs k)

with_idler : Idler → Counts → Counts
with_idler (idle_closing stage) k = with_stage stage k
with_idler _ k = k

-- The order in which they are counted does not matter.
with_stage_comm :
    (s t : Stage) (k : Counts) → with_stage s (with_stage t k) ≡ with_stage t (with_stage s k)
with_stage_comm claimed claimed k = refl
with_stage_comm claimed idle_stopped k = refl
with_stage_comm claimed prune_stopped k = refl
with_stage_comm idle_stopped claimed k = refl
with_stage_comm idle_stopped idle_stopped k = refl
with_stage_comm idle_stopped prune_stopped k = refl
with_stage_comm prune_stopped claimed k = refl
with_stage_comm prune_stopped idle_stopped k = refl
with_stage_comm prune_stopped prune_stopped k = refl

module _ {Raw : Type 0} where
  with_conn_comm :
      (c d : Conn Raw) (k : Counts) → with_conn c (with_conn d k) ≡ with_conn d (with_conn c k)
  unfolding with_conn
  with_conn_comm (reading _) d k = refl
  with_conn_comm (closing s _) (reading _) k = refl
  with_conn_comm (closing s _) (closing t _) k = with_stage_comm s t k

  -- A connection can be counted last.
  with_conns_at :
      (before after : List (Conn Raw)) (c : Conn Raw) (k : Counts)
      → with_conns (before ++ c ∷ after) k ≡ with_conn c (with_conns (before ++ after) k)
  unfolding with_conns
  with_conns_at [] after c k = refl
  with_conns_at (d ∷ before) after c k =
      ap (with_conn d) (with_conns_at before after c k)
      ∙ with_conn_comm d c (with_conns (before ++ after) k)

-- the goroutines that have won the compare-and-swap and have not closed the channel yet
unfoldable pub winners : {Raw : Type 0} → Server MemCache Raw → Counts
unfolding with_conns with_conn with_idler no_one
winners s = with_conns s.conns (with_idler s.idler no_one)

-- The agent of the server is sound.
abbrev pub IsServing : {Raw : Type 0} → Server MemCache Raw → Type 0
IsServing s = IsSound (winners s) s.agent

recount : {j k : Counts} {a : CachingAgent MemCache} → j ≡ k → IsSound j a → IsSound k a
recount {a = a} e h = subst (λ n. IsSound n a) e h

with_conns_stage :
    {Raw : Type 0} (cs : List (Conn Raw)) (stage : Stage) (k : Counts)
    → with_conns cs (with_stage stage k) ≡ with_stage stage (with_conns cs k)
unfolding with_conns with_conn
with_conns_stage [] stage k = refl
with_conns_stage (reading _ ∷ cs) stage k = with_conns_stage cs stage k
with_conns_stage (closing s _ ∷ cs) stage k =
    ap (with_stage s) (with_conns_stage cs stage k) ∙ with_stage_comm s stage (with_conns cs k)

with_conns_next :
    {Raw : Type 0} (cs : List (Conn Raw)) (stage : Stage) (k : Counts)
    → with_conns cs (with_idler (idler_behind stage) k) ≡ with_next stage (with_conns cs k)
unfolding idler_behind with_idler
with_conns_next cs claimed k = with_conns_stage cs idle_stopped k
with_conns_next cs idle_stopped k = with_conns_stage cs prune_stopped k
with_conns_next cs prune_stopped k = refl

with_conn_behind :
    {Raw : Type 0} (req : AgentRequest Raw) (stage : Stage) (k : Counts)
    → with_conn (conn_behind stage req) k ≡ with_next stage k
unfolding with_conn conn_behind
with_conn_behind req claimed k = refl
with_conn_behind req idle_stopped k = refl
with_conn_behind req prune_stopped k = refl

-- The counts of a server where a connection is last.
winners_at :
    {Raw : Type 0} (s : Server MemCache Raw) (before after : List (Conn Raw)) (c : Conn Raw)
    → s.conns ≡ before ++ c ∷ after
    → winners s ≡ with_conn c (with_conns (before ++ after) (with_idler s.idler no_one))
unfolding winners
winners_at s before after c e =
    ap (λ cs. with_conns cs (with_idler s.idler no_one)) e
    ∙ with_conns_at before after c (with_idler s.idler no_one)

module _ {Raw : Type 0} (time : Rfc3339) (json : Json Raw) where
  either_idler :
      (s : Server MemCache Raw) (t : Bool)
      → IsSound (with_conns s.conns no_one) s.agent
      → IsSound
          (with_conns s.conns (with_idler (if t then idle_calling else idle_done) no_one))
          s.agent
  unfolding with_idler
  either_idler s true h = h
  either_idler s false h = h

  Step-IsServing :
      {s t : Server MemCache Raw} → Step (mem_cache time) json s t → IsServing s → IsServing t
  unfolding winners with_idler with_conn with_conns
  Step-IsServing (Step.accept e l) h = h
  Step-IsServing (Step.accept_error e l) h = h
  Step-IsServing (Step.accept_closed e l) h = h
  Step-IsServing (Step.hand e g) h = h
  Step-IsServing (Step.stop e c) h = h
  Step-IsServing (Step.cancel e) h = h
  Step-IsServing (Step.return a b c d e) h = h
  Step-IsServing {s} (Step.request before after req m p now e loses) h =
      handle_request-IsSound time json now (decode_into req m p) loses (
        recount
          (winners_at s before after (reading req) e
            ∙ sym (
                with_conns_at before after (reading (decode_into req m p))
                  (with_idler s.idler no_one)))
          h)
  Step-IsServing {s} (Step.request_shutdown before after req m p e first) h =
      recount
        (sym (
          with_conns_at before after (closing claimed (decode_into req m p))
            (with_idler s.idler no_one)))
        (claim-IsSound (ground arith)
          (with_timers _ _ (recount (winners_at s before after (reading req) e) h)))
  Step-IsServing {s} (Step.advance_shutdown before after req stage e) h =
      let rest = with_conns (before ++ after) (with_idler s.idler no_one) in
      recount
        (sym (
          with_conns_at before after (conn_behind stage req) (with_idler s.idler no_one)
          ∙ with_conn_behind req stage rest))
        (act-IsSound stage rest (recount (winners_at s before after (closing stage req) e) h))
  Step-IsServing {s} (Step.hang_up before after req e) h =
      recount (winners_at s before after (reading req) e) h
  Step-IsServing {s} (Step.idle_wake e) h =
      recount (ap (λ i. with_conns s.conns (with_idler i no_one)) e) h
  Step-IsServing {s} (Step.idle_test e) h =
      either_idler s (heeds s.agent.idle_timeout s.agent)
        (recount (ap (λ i. with_conns s.conns (with_idler i no_one)) e) h)
  Step-IsServing {s} (Step.idle_lose e l) h =
      recount (ap (λ i. with_conns s.conns (with_idler i no_one)) e) h
  Step-IsServing {s} (Step.idle_win e first) h =
      recount (sym (with_conns_stage s.conns claimed no_one))
        (claim-IsSound first (recount (ap (λ i. with_conns s.conns (with_idler i no_one)) e) h))
  Step-IsServing {s} (Step.idle_advance stage e) h =
      recount (sym (with_conns_next s.conns stage no_one)) (
        act-IsSound stage (with_conns s.conns no_one) (
          recount
            (ap (λ i. with_conns s.conns (with_idler i no_one)) e
              ∙ with_conns_stage s.conns stage no_one)
            h))
  Step-IsServing (Step.prune_test e) h = h
  Step-IsServing (Step.prune_wake e) h = h
  Step-IsServing (Step.prune_act now e) h = scheduled_prune-IsSound time json now h

  Reach-IsServing :
      {s t : Server MemCache Raw} → IsServing s → Reach (mem_cache time) json s t → IsServing t
  Reach-IsServing h Reach.here = h
  Reach-IsServing h (Reach.next r st) = Step-IsServing st (Reach-IsServing h r)

  -- From a start with an empty in-memory cache, however the goroutines of `Serve` interleave, the
  -- shutdown channel is closed at most once, and is not closed before shutdown has started; once it
  -- is closed both durations are negative; and the in-memory cache is well-formed.
  pub Reach-start_server :
      (idle_timeout prune_interval : ℤ) {t : Server MemCache Raw}
      → Reach (mem_cache time) json (start_server new_mem_cache idle_timeout prune_interval) t
      → (t.agent.closes ≤ (if t.agent.shutdown_started then 1 else 0))
        × (t.agent.closes ≢ 0
            → (is_nonneg t.agent.idle_timeout ≡ false) × (is_nonneg t.agent.prune_interval ≡ false))
        × IsValid t.agent.cache
  Reach-start_server i p {t} r =
      let h = Reach-IsServing start r in
      (
        omega (arith, h.closed),
        λ n. (h.idle_stops (λ e. n (omega (arith, e))), h.prune_stops (λ e. n (omega (arith, e)))),
        h.valid,
      )
    where
      start : IsServing {Raw = Raw} (start_server new_mem_cache i p)
      start = record {
        closed = unfold winners in refl;
        idle_stops = λ n. absurd (n (unfold winners in refl));
        prune_stops = λ n. absurd (n (unfold winners in refl));
        valid = new_mem_cache-IsValid;
      }
