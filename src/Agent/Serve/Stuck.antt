-- ===== src/Agent/Serve/Stuck.antt =====
-- How `Serve` can hang.
use credential_helper.Base.{ℕ, ◌≡◌, ◌≢◌, refl, true, false, none, some, [], arith}
use credential_helper.Base.Int.{ℤ}
use credential_helper.Text.{text_eq_refl}
use credential_helper.Api.{Json, Cache, agent_request_shutdown}
use credential_helper.Agent.Service.{CachingAgent, decode_into, no_request}
use credential_helper.Agent.Serve.{
  claimed, idle_stopped, prune_stopped, act, conn_behind, Server, waiting, returned, handing,
  start_server, wins, Step, Reach,
}

one_ne_zero : ◌≢◌ {A = ℕ} 1 0
one_ne_zero e = omega (arith, e)

-- The loop of `Serve` was left while `acceptLoop` hands over a connection.
abbrev IsStuck : {S Raw : Type 0} → Server S Raw → Type 0
IsStuck s = (s.main ≡ waiting) × (s.acceptor ≡ handing)

asks_to_shut_down :
    {S : Type 0} (Raw : Type 0) (a : CachingAgent S)
    → a.shutdown_started ≡ false
    → wins (decode_into (no_request {Raw = Raw}) (some agent_request_shutdown) none) a ≡ true
unfolding decode_into
asks_to_shut_down Raw a first = ground (arith, first, text_eq_refl agent_request_shutdown)

module _ {S Raw : Type 0} (cache : Cache S) (json : Json Raw) where
  Step-IsStuck : {s t : Server S Raw} → Step cache json s t → IsStuck s → IsStuck t
  Step-IsStuck (Step.accept e l) h = absurd (ground arith)
  Step-IsStuck (Step.accept_error e l) h = absurd (ground arith)
  Step-IsStuck (Step.accept_closed e l) h = absurd (ground arith)
  Step-IsStuck (Step.hand e g) h = absurd (ground arith)
  Step-IsStuck (Step.stop e c) h = absurd (ground arith)
  Step-IsStuck (Step.cancel e) h = absurd (ground arith)
  Step-IsStuck (Step.return a b c d e) h = absurd (ground arith)
  Step-IsStuck (Step.request before after req m p now e l) h = h
  Step-IsStuck (Step.request_shutdown before after req m p e f) h = h
  Step-IsStuck (Step.advance_shutdown before after req stage e) h = h
  Step-IsStuck (Step.hang_up before after req e) h = h
  Step-IsStuck (Step.idle_wake e) h = h
  Step-IsStuck (Step.idle_test e) h = h
  Step-IsStuck (Step.idle_lose e l) h = h
  Step-IsStuck (Step.idle_win e f) h = h
  Step-IsStuck (Step.idle_advance stage e) h = h
  Step-IsStuck (Step.prune_test e) h = h
  Step-IsStuck (Step.prune_wake e) h = h
  Step-IsStuck (Step.prune_act now e) h = h

  Reach-IsStuck : {s t : Server S Raw} → IsStuck s → Reach cache json s t → IsStuck t
  Reach-IsStuck h Reach.here = h
  Reach-IsStuck h (Reach.next r st) = Step-IsStuck st (Reach-IsStuck h r)

  -- `Serve` can hang: from the start a state can be reached in which a client has shut the agent
  -- down as it should be, and from which no interleaving makes `Serve` return.
  pub start_server_hangs :
      (c : S) (idle_timeout prune_interval : ℤ)
      → (s : Server S Raw) × Reach cache json (start_server c idle_timeout prune_interval) s
        × (s.agent.closes ≡ 1)
        × ((t : Server S Raw) → Reach cache json s t → t.main ≢ returned)
  unfolding act conn_behind decode_into
  start_server_hangs c i p =
      let r1 =
        Reach.next
          (Reach.next (Reach.next Reach.here (Step.accept refl refl)) (Step.hand refl refl))
          (Step.accept refl refl) in
      let r2 = Reach.next r1 (
        Step.request_shutdown [] [] no_request (some agent_request_shutdown) none refl
          (asks_to_shut_down Raw (start_server {Raw = Raw} c i p).agent refl)) in
      let r3 =
        Reach.next
          (Reach.next (Reach.next r2 (Step.advance_shutdown [] [] _ claimed refl))
            (Step.advance_shutdown [] [] _ idle_stopped refl))
          (Step.advance_shutdown [] [] _ prune_stopped refl) in
      let r4 = Reach.next r3 (Step.stop refl one_ne_zero) in
      (_, r4, refl, λ t r e. ground (arith, Reach-IsStuck (refl, refl) r))
