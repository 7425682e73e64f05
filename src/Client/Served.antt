-- ===== src/Client/Served.antt =====
-- A run of the client over the agent's socket, against a run on the agent's cache itself.
use credential_helper.Base.{ℕ, ◌≡◌, refl, ap, sym, subst, ◌∙◌, Option, none, some, inl, inr}
use credential_helper.Text.{Text}
use credential_helper.Errors.{Result, ok, err, Result-cases}
use credential_helper.Api.{
  GetCredentialsRequest, GetCredentialsResponse, CachableGetCredentialsResponse, Json, Cache,
  IsLosslessJson, Rfc3339,
}
use credential_helper.Cache.Mem
use credential_helper.Cache.Mem.{MemCache, mem_cache}
use credential_helper.Cache.Mem.Laws.{IsValid, store-IsValid}
use credential_helper.Cache.Socket
use credential_helper.Cache.Socket.{Ends, Peer, socket_cache}
use credential_helper.Agent.Refinement.{
  Served, agent_peer, over_socket, retrieve_over_socket, store_over_socket,
}
use credential_helper.Client.{Helper, Report, foreground, respond, resolve, print_and_store}
use credential_helper.Client.Command.{connected, client_process}

-- One cache does what another one does, as far as a client sees.
record Simulates {S T : Type 0} (c : Cache S) (d : Cache T) (R : S → T → Type 0) : Type 0 where
  on_retrieve :
      (k : Text) (s : S) (t : T)
      → R s t
      → ((c.retrieve k s).0 ≡ (d.retrieve k t).0) × R (c.retrieve k s).1 (d.retrieve k t).1
  on_store :
      (v : CachableGetCredentialsResponse) (s : S) (t : T)
      → R s t
      → ((c.store v s).0 ≡ (d.store v t).0) × R (c.store v s).1 (d.store v t).1

abbrev Agree : {S T : Type 0} → (S → T → Type 0) → Report × S → Report × T → Type 0
Agree R x y = (x.0 ≡ y.0) × R x.1 y.1

module _ {S T : Type 0} {c : Cache S} {d : Cache T} {R : S → T → Type 0} (sim : Simulates c d R)
    (print : GetCredentialsResponse → Result (Unit {0})) where
  print_and_store-Agree :
      (key : Text) (resp : GetCredentialsResponse) (s : S) (t : T)
      → R s t
      → Agree R (print_and_store c print key resp s) (print_and_store d print key resp t)
  unfolding print_and_store
  print_and_store-Agree key resp s t r =
      let v : CachableGetCredentialsResponse = record { cache_key = key; response = resp } in
      let (same, kept) = sim.on_store v s t r in
      elim (Result-cases (print resp)) [
        | inr (e, failed) ↦ rw (failed, print_and_store) (refl, r)
        | inl (done, printed) ↦ elim (Result-cases (d.store v t).0) [
          | inr (e, failed) ↦ rw (printed, same, failed, print_and_store) (refl, kept)
          | inl (done', stored) ↦ rw (printed, same, stored, print_and_store) (refl, kept)
        ]
      ]

  module _ {Raw : Type 0} where
    resolve-Agree :
        (helper : Helper Raw) (config : Option Raw) (req : GetCredentialsRequest) (s : S) (t : T)
        → R s t
        → Agree R (resolve c print helper config req s) (resolve d print helper config req t)
    unfolding resolve
    resolve-Agree helper config req s t r = elim (Result-cases (helper.resolver config)) [
      | inr (e, failed) ↦ rw (failed, resolve) (refl, r)
      | inl (get, made) ↦ elim (Result-cases (get req)) [
        | inr (e, failed) ↦ rw (made, failed, resolve) (refl, r)
        | inl (resp, got) ↦
            rw (made, got, resolve) (print_and_store-Agree (helper.cache_key req) resp s t r)
      ]
    ]

    respond-Agree :
        (helper : Helper Raw) (config : Option Raw) (req : GetCredentialsRequest) (s : S) (t : T)
        → R s t
        → Agree R (respond c print helper config req s) (respond d print helper config req t)
    unfolding respond
    respond-Agree helper config req s t r =
        let k = helper.cache_key req in
        let (same, kept) = sim.on_retrieve k s t r in
        elim (Result-cases (d.retrieve k t).0) [
          | inr (e, missed) ↦
              rw (same, missed, respond)
                (resolve-Agree helper config req (c.retrieve k s).1 (d.retrieve k t).1 kept)
          | inl (resp, found) ↦ elim (Result-cases (print resp)) [
            | inr (e, failed) ↦ rw (same, found, failed, respond) (refl, kept)
            | inl (done, printed) ↦ rw (same, found, printed, respond) (refl, kept)
          ]
        ]

    foreground-Agree :
        (configure : Text → Result (Option (Helper Raw) × Option Raw))
        (req : Result GetCredentialsRequest) (s : S) (t : T)
        → R s t
        → Agree R (foreground c print configure req s) (foreground d print configure req t)
    unfolding foreground
    foreground-Agree configure (err e) s t r = (refl, r)
    foreground-Agree configure (ok req) s t r = elim (Result-cases (configure req.uri)) [
      | inr (e, failed) ↦ rw (failed, foreground) (refl, r)
      | inl ((none, config), chosen) ↦ rw (chosen, foreground) (refl, r)
      | inl ((some helper, config), chosen) ↦
          rw (chosen, foreground) (respond-Agree helper config req s t r)
    ]

module _ {Q Raw : Type 0} (time : Rfc3339) (json : Json Raw) (now : Text → ℕ) (streams : Peer Raw Q)
    (lossless : IsLosslessJson json) where
  -- the agent at the other end has this cache, and it is well-formed
  abbrev Serves : Ends (Served Raw) Q → MemCache → Type 0
  Serves s c = (s.conn.agent.cache ≡ c) × IsValid c

  retrieves :
      (k : Text) (s : Ends (Served Raw) Q) (t : MemCache)
      → Serves s t
      → ((Socket.retrieve json (agent_peer time json now streams) streams k s).0
          ≡ (Mem.retrieve k t).0)
        × Serves (Socket.retrieve json (agent_peer time json now streams) streams k s).1 t
  retrieves k s t (same, valid) =
      let (answer, kept) =
        retrieve_over_socket time json now streams lossless k s (subst IsValid (sym same) valid) in
      (answer ∙ ap (λ c. (Mem.retrieve k c).0) same, (kept ∙ same, valid))

  stores :
      (v : CachableGetCredentialsResponse) (s : Ends (Served Raw) Q) (t : MemCache)
      → Serves s t
      → ((Socket.store json (agent_peer time json now streams) streams v s).0 ≡ (Mem.store v t).0)
        × Serves
            (Socket.store json (agent_peer time json now streams) streams v s).1
            (Mem.store v t).1
  stores v s t (same, valid) =
      let (answer, kept) = store_over_socket time json now streams lossless v s in
      (
        answer ∙ ap (λ c. (Mem.store v c).0) same,
        (kept ∙ ap (λ c. (Mem.store v c).1) same, store-IsValid v valid),
      )

  socket-Simulates : Simulates (over_socket time json now streams) (mem_cache time) Serves
  unfolding Mem.retrieve
  socket-Simulates = record {
    on_retrieve = λ k s t r. retrieves k s t r;
    on_store = λ v s t r. stores v s t r;
  }

  -- A client that is connected to an agent with a well-formed cache reports what it would report
  -- with that cache itself, and leaves the agent with the same cache, if the JSON codec loses
  -- nothing, whatever the configuration, the helper and the request are.
  pub client_process-connected :
      {R : Type 0} (print : GetCredentialsResponse → Result (Unit {0}))
      (configure : Text → Result (Option (Helper R) × Option R))
      (req : Result GetCredentialsRequest) (s : Ends (Served Raw) Q)
      → IsValid s.conn.agent.cache
      → ((client_process json
            (agent_peer time json now streams)
            streams
            print
            (ok (connected s))
            configure
            req).0
          ≡ (foreground (mem_cache time) print configure req s.conn.agent.cache).0)
        × (s' : Ends (Served Raw) Q) × ((client_process json
              (agent_peer time json now streams)
              streams
              print
              (ok (connected s))
              configure
              req).1
            ≡ connected s')
        × (s'.conn.agent.cache
            ≡ (foreground (mem_cache time) print configure req s.conn.agent.cache).1)
  unfolding client_process
  client_process-connected print configure req s valid =
      let (report, kept) =
        foreground-Agree socket-Simulates print configure req s s.conn.agent.cache (refl, valid) in
      (
        report,
        (foreground (over_socket time json now streams) print configure req s).1,
        refl,
        kept.0,
      )
