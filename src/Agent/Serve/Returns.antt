-- ===== src/Agent/Serve/Returns.antt =====
-- After a shutdown every goroutine ends, and `Serve` returns, once its clients send
-- no more requests and hang up.
use credential_helper.Base.{
  ℕ, zero, suc, ◌+◌, ◌<◌, ◌≡◌, ◌≢◌, ◌⊎◌, inl, inr, refl, Bool, true, false, List, [], ◌∷◌, ◌++◌,
  arith,
}
use credential_helper.Base.Int.{ℤ}
use credential_helper.Api.{Json, Cache}
use credential_helper.Agent.Serve.{
  Stage, claimed, idle_stopped, prune_stopped, act, conn_behind, idler_behind, Acceptor, Idler,
  Pruner, Conn, Server, selecting, waiting, returned, accepting, handing, accept_done, idle_waiting,
  idle_awake, idle_calling, idle_closing, idle_done, prune_testing, prune_waiting, prune_awake,
  prune_done, reading, closing, scheduled_prune, start_server, Step, Reach,
}

-- The steps that a goroutine has left, once a shutdown has started.
acceptor_left : Acceptor → ℕ
acceptor_left accepting = 1
acceptor_left handing = 1
acceptor_left accept_done = 0

stage_left : Stage → ℕ
stage_left claimed = 3
stage_left idle_stopped = 2
stage_left prune_stopped = 1

idler_left : Idler → ℕ
idler_left idle_waiting = 6
idler_left idle_awake = 5
idler_left idle_calling = 4
idler_left (idle_closing stage) = stage_left stage
idler_left idle_done = 0

pruner_left : Pruner → ℕ
pruner_left prune_waiting = 3
pruner_left prune_awake = 2
pruner_left prune_testing = 1
pruner_left prune_done = 0

module _ {Raw : Type 0} where
  conn_left : Conn Raw → ℕ
  conn_left (reading req) = 1
  conn_left (closing stage req) = suc (stage_left stage)

  conns_left : List (Conn Raw) → ℕ
  conns_left [] = 0
  conns_left (c ∷ cs) = conn_left c + conns_left cs

  conns_left-append :
      (before after : List (Conn Raw))
      → conns_left (before ++ after) ≡ conns_left before + conns_left after
  unfolding conns_left
  conns_left-append [] after = omega arith
  conns_left-append (c ∷ before) after = omega (arith, conns_left-append before after)

  conns_left_at :
      (before after : List (Conn Raw)) (c : Conn Raw)
      → conns_left (before ++ c ∷ after) ≡ conns_left before + conn_left c + conns_left after
  unfolding conns_left
  conns_left_at before after c = omega (arith, conns_left-append before (c ∷ after))

module _ {S Raw : Type 0} (cache : Cache S) (json : Json Raw) where
  -- A client sends one more request, on a connection that it keeps open.
  abbrev pub is_request : {s t : Server S Raw} → Step cache json s t → Bool
  is_request (Step.request before after req method payload now at loses) = true
  is_request (Step.request_shutdown before after req method payload at wins) = true
  is_request _ = false

  -- Steps that are not requests lead to the return in any order, and until then there is one. Where
  -- nothing but connections is left, that is a client that hangs up.
  pub data Ends : Server S Raw → Type 0 where
    ended : {s : Server S Raw} → s.main ≡ returned → Ends s
    goes :
        {s : Server S Raw} (t : Server S Raw) (st : Step cache json s t)
        → is_request st ≡ false
        → ((u : Server S Raw) (st' : Step cache json s u) → is_request st' ≡ false → Ends u)
        → Ends s

  -- The loop of `Serve` is left, and the listener closed with it.
  IsListening : Server S Raw → Type 0
  IsListening s = s.main ≢ selecting → s.listening ≡ false

  Step-IsListening : {s t : Server S Raw} → Step cache json s t → IsListening s → IsListening t
  unfolding IsListening
  Step-IsListening (Step.accept e l) h = h
  Step-IsListening (Step.accept_error e l) h = h
  Step-IsListening (Step.accept_closed e l) h = h
  Step-IsListening (Step.hand e g) h = h
  Step-IsListening (Step.stop e c) h = λ left. refl
  Step-IsListening (Step.cancel e) h = λ left. refl
  Step-IsListening (Step.return a b c d e) h = λ left. h (λ e'. ground arith)
  Step-IsListening (Step.request before after req m p now e l) h = h
  Step-IsListening (Step.request_shutdown before after req m p e f) h = h
  Step-IsListening (Step.advance_shutdown before after req stage e) h = h
  Step-IsListening (Step.hang_up before after req e) h = h
  Step-IsListening (Step.idle_wake e) h = h
  Step-IsListening (Step.idle_test e) h = h
  Step-IsListening (Step.idle_lose e f) h = h
  Step-IsListening (Step.idle_win e f) h = h
  Step-IsListening (Step.idle_advance stage e) h = h
  Step-IsListening (Step.prune_test e) h = h
  Step-IsListening (Step.prune_wake e) h = h
  Step-IsListening (Step.prune_act now e) h = h

  Reach-IsListening : {s t : Server S Raw} → Reach cache json s t → IsListening s → IsListening t
  Reach-IsListening Reach.here h = h
  Reach-IsListening (Reach.next r st) h = Step-IsListening st (Reach-IsListening r h)

  -- The loop was left after a shutdown had started, and `acceptLoop` is not handing over.
  record IsWinding (s : Server S Raw) : Type 0 where
    left : s.main ≡ waiting
    closed : s.listening ≡ false
    free : s.acceptor ≢ handing
    started : s.agent.shutdown_started ≡ true

  left_of : Server S Raw → ℕ
  left_of s =
      acceptor_left s.acceptor + idler_left s.idler + pruner_left s.pruner + conns_left s.conns

  abbrev Winds : Server S Raw → Server S Raw → Type 0
  Winds s t = (t.main ≡ returned) ⊎ (IsWinding t × (left_of t < left_of s))

  Step-Winds :
      {s t : Server S Raw} (st : Step cache json s t)
      → is_request st ≡ false
      → IsWinding s
      → Winds s t
  unfolding left_of acceptor_left idler_left pruner_left conn_left stage_left act conn_behind
      idler_behind scheduled_prune
  Step-Winds (Step.accept e l) r w = absurd (ground (arith, w.closed))
  Step-Winds (Step.accept_error e l) r w = absurd (ground (arith, w.closed))
  Step-Winds (Step.accept_closed e l) r w = inr (ground arith)
  Step-Winds (Step.hand e g) r w = absurd (ground (arith, w.left))
  Step-Winds (Step.stop e c) r w = absurd (ground (arith, w.left))
  Step-Winds (Step.cancel e) r w = absurd (ground (arith, w.left))
  Step-Winds (Step.return a b c d e) r w = inl refl
  Step-Winds (Step.request before after req m p now e l) r w = absurd (ground arith)
  Step-Winds (Step.request_shutdown before after req m p e f) r w = absurd (ground arith)
  Step-Winds (Step.advance_shutdown before after req claimed e) r w = inr (
      ground (
        arith,
        e,
        conns_left_at before after (closing claimed req),
        conns_left_at before after (conn_behind claimed req),
      ))
  Step-Winds (Step.advance_shutdown before after req idle_stopped e) r w = inr (
      ground (
        arith,
        e,
        conns_left_at before after (closing idle_stopped req),
        conns_left_at before after (conn_behind idle_stopped req),
      ))
  Step-Winds (Step.advance_shutdown before after req prune_stopped e) r w = inr (
      ground (
        arith,
        e,
        conns_left_at before after (closing prune_stopped req),
        conns_left_at before after (conn_behind prune_stopped req),
      ))
  Step-Winds (Step.hang_up before after req e) r w =
      inr (
        ground (arith, e, conns_left_at before after (reading req), conns_left-append before after))
  Step-Winds (Step.idle_wake e) r w = inr (ground arith)
  Step-Winds (Step.idle_test e) r w = inr (ground arith)
  Step-Winds (Step.idle_lose e f) r w = inr (ground arith)
  Step-Winds (Step.idle_win e f) r w = inr (ground arith)
  Step-Winds (Step.idle_advance claimed e) r w = inr (ground arith)
  Step-Winds (Step.idle_advance idle_stopped e) r w = inr (ground arith)
  Step-Winds (Step.idle_advance prune_stopped e) r w = inr (ground arith)
  Step-Winds (Step.prune_test e) r w = inr (ground arith)
  Step-Winds (Step.prune_wake e) r w = inr (ground arith)
  Step-Winds (Step.prune_act now e) r w = inr (ground arith)

  abbrev Goes : Server S Raw → Type 0
  Goes s = (t : Server S Raw) × (st : Step cache json s t) × (is_request st ≡ false)

  -- There is a step that is not a request: of a goroutine that is left, or the return.
  pruner-Goes :
      (p : Pruner) (s : Server S Raw)
      → s.pruner ≡ p
      → IsWinding s
      → s.acceptor ≡ accept_done
      → s.idler ≡ idle_done
      → s.conns ≡ []
      → Goes s
  pruner-Goes prune_waiting s e w a i c = (_, Step.prune_wake e, refl)
  pruner-Goes prune_awake s e w a i c = (_, Step.prune_act (λ key. 0) e, refl)
  pruner-Goes prune_testing s e w a i c = (_, Step.prune_test e, refl)
  pruner-Goes prune_done s e w a i c = (_, Step.return w.left a i e c, refl)

  idler-Goes :
      (i : Idler) (s : Server S Raw)
      → s.idler ≡ i
      → IsWinding s
      → s.acceptor ≡ accept_done
      → s.conns ≡ []
      → Goes s
  idler-Goes idle_waiting s e w a c = (_, Step.idle_wake e, refl)
  idler-Goes idle_awake s e w a c = (_, Step.idle_test e, refl)
  idler-Goes idle_calling s e w a c = (_, Step.idle_lose e w.started, refl)
  idler-Goes (idle_closing stage) s e w a c = (_, Step.idle_advance stage e, refl)
  idler-Goes idle_done s e w a c = pruner-Goes s.pruner s refl w a e c

  conns-Goes :
      (cs : List (Conn Raw)) (s : Server S Raw)
      → s.conns ≡ cs
      → IsWinding s
      → s.acceptor ≡ accept_done
      → Goes s
  conns-Goes [] s e w a = idler-Goes s.idler s refl w a e
  conns-Goes (reading req ∷ cs) s e w a = (_, Step.hang_up [] cs req e, refl)
  conns-Goes (closing stage req ∷ cs) s e w a = (_, Step.advance_shutdown [] cs req stage e, refl)

  IsWinding-Goes : (a : Acceptor) (s : Server S Raw) → s.acceptor ≡ a → IsWinding s → Goes s
  IsWinding-Goes accepting s e w = (_, Step.accept_closed e w.closed, refl)
  IsWinding-Goes handing s e w = absurd (w.free e)
  IsWinding-Goes accept_done s e w = conns-Goes s.conns s refl w e

  IsWinding-Ends : (n : ℕ) (s : Server S Raw) → left_of s < n → IsWinding s → Ends s
  IsWinding-Ends zero s l w = absurd (omega (arith, l))
  IsWinding-Ends (suc n) s l w =
      let (t, st, own) = IsWinding-Goes s.acceptor s refl w in
      goes t st own (λ u st' own'. elim (Step-Winds st' own' w) [
        | inl done ↦ ended done
        | inr (w', less) ↦ IsWinding-Ends n u (omega (arith, l, less)) w'
      ])

  -- Where the loop of a server was left after a shutdown had started, and `acceptLoop` is not handing
  -- over a connection, `Serve` returns after a number of steps that are not requests, in whichever
  -- order the goroutines take them and the clients hang up; until then there is such a step.
  pub Serve_returns :
      (store : S) (idle_timeout prune_interval : ℤ) (s : Server S Raw)
      → Reach cache json (start_server store idle_timeout prune_interval) s
      → s.main ≡ waiting
      → s.agent.shutdown_started ≡ true
      → s.acceptor ≢ handing
      → Ends s
  unfolding IsListening
  Serve_returns store idle_timeout prune_interval s reach left started free =
      let closed = Reach-IsListening reach (λ no. absurd (no refl)) (λ e. ground arith) in
      IsWinding-Ends (suc (left_of s)) s (omega arith)
        (record { left = left; closed = closed; free = free; started = started })
