-- ===== src/Build/Runner/Status.antt =====
-- What is left of the workspace when the process ends.
use credential_helper.Base.{
  ◌≡◌, refl, ap, ◌∙◌, ◌⊎◌, Bool, true, false, ◌||◌, none, List, [], ◌∷◌, ◌++◌, map, arith, inl, inr,
}
use credential_helper.Text.{Text, lit, text_eq, text_eq_refl}
use credential_helper.Dict.{Dict}
use credential_helper.Errors.{Error, Result, ok, err, Result-cases}
use credential_helper.Build.Runner.{
  CommandLine, Event, ran, agent_started, agent_killed, agent_waited, server_started, removed_all,
  Host, startup_flags, setup_commands, test_commands, shutdown_commands, run_bazel_commands,
  output_user_root,
}
use credential_helper.Agent.Locate.{getenv}
use credential_helper.Build.Runner.Ends.{
  HasRun, whole, up_to, Course, unprepared, unaided, tested, run_bazel_commands-Course,
}
use credential_helper.Build.Runner.Main.{
  returned, exited, unwind, workspace_dir, helper_path, test_workspace, body, run_httpbin_server,
  absolutify_env_vars, main,
}

-- Is the directory removed?
unfoldable pub removes : Text → List Event → Bool
removes dir [] = false
removes dir (removed_all path ∷ events) = text_eq path dir || removes dir events
removes dir (ran command ∷ events) = removes dir events
removes dir (agent_started ∷ events) = removes dir events
removes dir (agent_killed ∷ events) = removes dir events
removes dir (agent_waited ∷ events) = removes dir events
removes dir (server_started ∷ events) = removes dir events

removes-append :
    (dir : Text) (es fs : List Event) → removes dir (es ++ fs) ≡ removes dir es || removes dir fs
unfolding removes
removes-append dir [] fs = refl
removes-append dir (removed_all path ∷ es) fs = ground (arith, removes-append dir es fs)
removes-append dir (ran command ∷ es) fs = removes-append dir es fs
removes-append dir (agent_started ∷ es) fs = removes-append dir es fs
removes-append dir (agent_killed ∷ es) fs = removes-append dir es fs
removes-append dir (agent_waited ∷ es) fs = removes-append dir es fs
removes-append dir (server_started ∷ es) fs = removes-append dir es fs

removes-ran : (dir : Text) (commands : List CommandLine) → removes dir (map ran commands) ≡ false
unfolding removes
removes-ran dir [] = refl
removes-ran dir (command ∷ commands) = removes-ran dir commands

HasRun-removes :
    (host : Host) (dir : Text) (commands : List CommandLine) (done : List Event)
    {result : Result (Unit {0})} {events : List Event}
    → HasRun host commands done result events
    → removes dir events ≡ false
HasRun-removes host dir commands done (whole h) = removes-ran dir commands
HasRun-removes host dir commands done (up_to before after command e parts h fails) = ground (
  arith,
  removes-append dir (map ran before) (ran command ∷ []),
  removes-ran dir before,
  removes-ran dir (command ∷ []),
)

Course-removes :
    (host : Host) (dir : Text) (agent : CommandLine) (setup tests : List CommandLine)
    (done : List Event) {result : Result (Unit {0})} {events : List Event}
    → Course host agent setup tests done result events
    → removes dir events ≡ false
unfolding removes
Course-removes host dir agent setup tests done (unprepared h) = HasRun-removes host dir setup done h
Course-removes host dir agent setup tests done (unaided e ready fails) = removes-ran dir setup
Course-removes host dir agent setup tests done (tested {events} ready starts h) = ground (
  arith,
  removes-append dir (map ran setup)
      (agent_started ∷ (events ++ (agent_killed ∷ agent_waited ∷ []))),
  removes-append dir events (agent_killed ∷ agent_waited ∷ []),
  removes-ran dir setup,
  HasRun-removes host dir tests (done ++ map ran setup ++ (agent_started ∷ [])) h,
)

module _ (host : Host) (env : Dict Text) where
  abbrev dir : Text
  dir = workspace_dir env

  run_bazel_commands-removes :
      (env' : Dict Text) (bazel helper : Text) (done : List Event)
      → removes dir done ≡ false
      → removes dir (run_bazel_commands host env' bazel helper none done).1 ≡ false
  unfolding removes
  run_bazel_commands-removes env' bazel helper done h =
      let (events, adds, course) = run_bazel_commands-Course host env' bazel helper none done in
      let agent : CommandLine = record { name = helper; args = lit "agent-launch" ∷ [] } in
      let last = map ran (shutdown_commands bazel (startup_flags none)) ++ [] in
      ap (removes dir) adds
      ∙ ground (
        arith,
        removes-append dir (done ++ events) last,
        removes-append dir done events,
        h,
        Course-removes host dir agent (setup_commands env' bazel (startup_flags none))
            (test_commands bazel (startup_flags none)) done course,
        removes-append dir (map ran (shutdown_commands bazel (startup_flags none))) [],
        removes-ran dir (shutdown_commands bazel (startup_flags none)),
      )

  -- the commands that `main` runs behind the server
  abbrev pub bazel_run : Dict Text → (Text → Result Text) → Result (Unit {0}) × List Event
  bazel_run env' rlocation =
      run_bazel_commands host env' (getenv env (lit "BIT_BAZEL_BINARY")) (helper_path host env) none
        (run_httpbin_server host rlocation []).1

  run_httpbin_server-removes :
      (rlocation : Text → Result Text)
      → removes dir (run_httpbin_server host rlocation []).1 ≡ false
  unfolding run_httpbin_server removes
  run_httpbin_server-removes rlocation = ground arith

  logged-removes :
      (env' : Dict Text) (rlocation : Text → Result Text) (logs : CommandLine)
      → removes dir ((bazel_run env' rlocation).1 ++ (ran logs ∷ [])) ≡ false
  unfolding removes
  logged-removes env' rlocation logs = ground (
    arith,
    removes-append dir (bazel_run env' rlocation).1 (ran logs ∷ []),
    run_bazel_commands-removes env' (getenv env (lit "BIT_BAZEL_BINARY")) (helper_path host env)
        (run_httpbin_server host rlocation []).1 (run_httpbin_server-removes rlocation),
  )

  -- Outside Windows, where the variables are made absolute, the server starts and the workspace is
  -- prepared, `main` returns and the scratch directory is removed if the commands of Bazel return no
  -- error; if they return one, the process exits and the scratch directory stays.
  pub main-removes :
      (env' : Dict Text) (rlocation : Text → Result Text)
      → host.windows ≡ false
      → absolutify_env_vars host env ≡ ok env'
      → (run_httpbin_server host rlocation []).0 ≡ ok tt
      → (((bazel_run env' rlocation).0 ≡ ok tt)
          × ((main host env rlocation (ok tt)).0 ≡ returned)
          × (removes (workspace_dir env) (main host env rlocation (ok tt)).1 ≡ true))
        ⊎ ((e : Error) × ((bazel_run env' rlocation).0 ≡ err e)
            × ((main host env rlocation (ok tt)).0 ≡ exited)
            × (removes (workspace_dir env) (main host env rlocation (ok tt)).1 ≡ false))
  unfolding main body unwind test_workspace output_user_root removes
  main-removes env' rlocation unix absolute served =
      let logs : CommandLine = record {
        name = helper_path host env;
        args = lit "agent-logs" ∷ [];
      } in
      let stays = logged-removes env' rlocation logs in
      elim (Result-cases (bazel_run env' rlocation).0) [
        | inl (_, good) ↦ inl (
          good,
          ground (arith, unix, absolute, served, good),
          ground (
            arith,
            unix,
            absolute,
            served,
            good,
            stays,
            removes-append dir ((bazel_run env' rlocation).1 ++ (ran logs ∷ []))
                (removed_all dir ∷ []),
            text_eq_refl dir,
          ),
        )
        | inr (e, fails) ↦ inr (
          e,
          fails,
          ground (arith, unix, absolute, served, fails),
          ground (arith, unix, absolute, served, fails, stays),
        )
      ]
