-- ===== src/Build/Runner/Ends.antt =====
-- What is run, in which order, and what is done in the end.
use credential_helper.Base.{
  ◌≡◌, refl, sym, ap, ◌∙◌, subst, Option, List, [], ◌∷◌, ◌++◌, map, none, some, append_assoc,
  append-nil, arith, inl, inr, Option-cases,
}
use credential_helper.Text.{Text, lit}
use credential_helper.Dict.{Dict}
use credential_helper.Errors.{Error, Result, ok, err, failure, Result-cases}
use credential_helper.Build.Runner.{
  CommandLine, Event, ran, agent_started, agent_killed, agent_waited, Host, run_all, run_tests,
  run_setup, startup_flags, setup_commands, test_commands, shutdown_commands, remove_root,
  run_bazel_commands,
}

module _ (host : Host) where
  -- None of the commands fails, where they are run one after the other.
  abbrev pub Succeed : List CommandLine → List Event → Type 0
  Succeed [] done = Unit {0}
  Succeed (command ∷ commands) done =
      (host.run_error command done ≡ none) × Succeed commands (done ++ (ran command ∷ []))

  -- All the commands were run and succeeded; or they were up to one that failed, and none after it.
  pub data HasRun (commands : List CommandLine) (done : List Event)
      : Result (Unit {0}) → List Event → Type 0 where
    whole : Succeed commands done → HasRun commands done (ok tt) (map ran commands)
    up_to :
        (before after : List CommandLine) (command : CommandLine) (e : Error) {told : Error}
        → commands ≡ before ++ command ∷ after
        → Succeed before done
        → host.run_error command (done ++ map ran before) ≡ some e
        → HasRun commands done (err told) (map ran before ++ (ran command ∷ []))

  -- The setup fails; or the agent does not start after it; or the agent is started after all of it,
  -- killed after the tests, and waited for.
  pub data Course (agent : CommandLine) (setup tests : List CommandLine) (done : List Event)
      : Result (Unit {0}) → List Event → Type 0 where
    unprepared :
        {e : Error} {events : List Event}
        → HasRun setup done (err e) events
        → Course agent setup tests done (err e) events
    unaided :
        (e : Error) {told : Error}
        → Succeed setup done
        → host.start_error agent (done ++ map ran setup) ≡ some e
        → Course agent setup tests done (err told) (map ran setup)
    tested :
        {result : Result (Unit {0})} {events : List Event}
        → Succeed setup done
        → host.start_error agent (done ++ map ran setup) ≡ none
        → HasRun tests (done ++ map ran setup ++ (agent_started ∷ [])) result events
        → Course agent setup tests done result
            (map ran setup ++ (agent_started ∷ (events ++ (agent_killed ∷ agent_waited ∷ []))))

-- The function adds events to those that there were.
abbrev Adds :
    Result (Unit {0}) × List Event → List Event → (Result (Unit {0}) → List Event → Type 0) → Type 0
Adds (result, done') done P = (events : List Event) × (done' ≡ done ++ events) × P result events

module _ (host : Host) where
  HasRun-cons :
      (command : CommandLine) (commands : List CommandLine) (done : List Event)
      {result : Result (Unit {0})} {events : List Event}
      → host.run_error command done ≡ none
      → HasRun host commands (done ++ (ran command ∷ [])) result events
      → HasRun host (command ∷ commands) done result (ran command ∷ events)
  HasRun-cons command commands done goes (whole h) = whole (goes, h)
  HasRun-cons command commands done goes (up_to before after last e parts h fails) =
      up_to (command ∷ before) after last e (ap (λ cs. command ∷ cs) parts) (goes, h)
        (ap (host.run_error last) (sym (append_assoc done (ran command ∷ []) (map ran before)))
          ∙ fails)

  run_all-HasRun :
      (commands : List CommandLine) (done : List Event)
      → Adds (run_all host commands done) done (HasRun host commands done)
  unfolding run_all
  run_all-HasRun [] done = ([], sym (append-nil done), whole tt)
  run_all-HasRun (command ∷ commands) done = elim (Option-cases (host.run_error command done)) [
    | inr (e, fails) ↦ (
      ran command ∷ [],
      ground (arith, fails),
      subst (λ r. HasRun host (command ∷ commands) done r (ran command ∷ []))
          (ground (arith, fails))
          (up_to [] commands command e {told = failure "failed for command"} refl tt
            (ap (host.run_error command) (append-nil done) ∙ fails)),
    )
    | inl goes ↦
        let (events, adds, h) = run_all-HasRun commands (done ++ (ran command ∷ [])) in
        (
          ran command ∷ events,
          ground (arith, goes, adds, append_assoc done (ran command ∷ []) events),
          subst (λ r. HasRun host (command ∷ commands) done r (ran command ∷ events))
              (ground (arith, goes)) (HasRun-cons command commands done goes h),
        )
  ]

  -- What a list of commands that ends well has run.
  all_run :
      (commands : List CommandLine) (done : List Event) {result : Result (Unit {0})}
      {events : List Event}
      → HasRun host commands done result events
      → result ≡ ok tt
      → Succeed host commands done × (events ≡ map ran commands)
  all_run commands done (whole h) good = (h, refl)
  all_run commands done (up_to before after command e parts h fails) good = absurd (ground arith)

  run_tests-Course :
      (agent : CommandLine) (setup tests : List CommandLine) (done : List Event)
      → Succeed host setup done
      → Adds
          (run_tests host agent tests (done ++ map ran setup))
          done
          (Course host agent setup tests done)
  unfolding run_tests
  run_tests-Course agent setup tests done ready =
      elim (Option-cases (host.start_error agent (done ++ map ran setup))) [
        | inr (e, fails) ↦ (
          map ran setup,
          ground (arith, fails),
          subst (λ r. Course host agent setup tests done r (map ran setup)) (ground (arith, fails))
              (unaided e {told = failure "failed to start agent"} ready fails),
        )
        | inl starts ↦
            let start = done ++ map ran setup ++ (agent_started ∷ []) in
            let (events, adds, h) = run_all-HasRun tests start in
            (
              map ran setup ++ (agent_started ∷ (events ++ (agent_killed ∷ agent_waited ∷ []))),
              ground (
                arith,
                starts,
                adds,
                append_assoc done (map ran setup)
                    (agent_started ∷ (events ++ (agent_killed ∷ agent_waited ∷ []))),
                append_assoc (done ++ map ran setup) (agent_started ∷ [])
                    (events ++ (agent_killed ∷ agent_waited ∷ [])),
                append_assoc start events (agent_killed ∷ agent_waited ∷ []),
              ),
              subst
                  (λ r. Course host agent setup tests done r (
                    map ran setup
                    ++ (agent_started ∷ (events ++ (agent_killed ∷ agent_waited ∷ [])))))
                  (ground (arith, starts)) (tested ready starts h),
            )
      ]

  run_setup-Course :
      (agent : CommandLine) (setup tests : List CommandLine) (done : List Event)
      → Adds (run_setup host agent setup tests done) done (Course host agent setup tests done)
  unfolding run_setup
  run_setup-Course agent setup tests done =
      let (events, adds, h) = run_all-HasRun setup done in
      elim (Result-cases (run_all host setup done).0) [
        | inr (e, fails) ↦ (
          events,
          ground (arith, fails, adds),
          subst (λ r. Course host agent setup tests done r events) (ground (arith, fails))
              (unprepared (subst (λ r. HasRun host setup done r events) fails h)),
        )
        | inl (_, good) ↦
            let (ready, all) = all_run setup done h good in
            let (more, adds', course) = run_tests-Course agent setup tests done ready in
            let state : (run_all host setup done).1 ≡ done ++ map ran setup =
              adds ∙ ap (λ es. done ++ es) all in
            let same : run_setup host agent setup tests done
                ≡ run_tests host agent tests (done ++ map ran setup) =
              ground (arith, good, state) in
            (
              more,
              ap (λ r. r.1) same ∙ adds',
              subst (λ r. Course host agent setup tests done r more) (ap (λ r. r.0) (sym same))
                  course,
            )
      ]

  -- Whatever fails, a run of the commands ends with the last ones, and with the removal of Bazel's
  -- own root, if it has one. Before that, either the setup was run up to a command of it that
  -- failed, and an error is returned; or all of it succeeded and the agent failed to start, with an
  -- error; or all of it succeeded and the agent was started, the tests were run up to one that
  -- failed, with an error, or all succeeded, without one, and the agent was killed and waited for.
  pub run_bazel_commands-Course :
      (env : Dict Text) (bazel helper : Text) (root : Option Text) (done : List Event)
      → let flags = startup_flags root in
        let agent : CommandLine = record { name = helper; args = lit "agent-launch" ∷ [] } in
        let (result, done') = run_bazel_commands host env bazel helper root done in
        (events : List Event) × (done'
          ≡ done ++ events ++ (map ran (shutdown_commands bazel flags) ++ remove_root root))
        × Course host agent
            (setup_commands env bazel flags)
            (test_commands bazel flags)
            done
            result
            events
  unfolding run_bazel_commands
  run_bazel_commands-Course env bazel helper root done =
      let flags = startup_flags root in
      let agent : CommandLine = record { name = helper; args = lit "agent-launch" ∷ [] } in
      let (events, adds, course) =
        run_setup-Course agent (setup_commands env bazel flags) (test_commands bazel flags) done in
      (
        events,
        ap (λ d. d ++ (map ran (shutdown_commands bazel flags) ++ remove_root root)) adds,
        course,
      )
