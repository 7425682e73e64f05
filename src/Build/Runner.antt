-- ===== src/Build/Runner.antt =====
-- The commands of a run of bzl/private/integration_test_runner/integration_test_runner.go, told
-- apart by what they start. What is printed is left out.
pub mod Main
pub mod Ends
pub mod Status
use credential_helper.Base.{
  Bool, true, false, Option, none, some, List, [], ◌∷◌, ◌++◌, map, if◌then◌else◌,
}
use credential_helper.Text.{Text, lit}
use credential_helper.Dict.{Dict, lookup}
use credential_helper.Errors.{Error, Result, ok, err, failure, ◌>>=◌}

-- `commandLine`
pub record CommandLine : Type 0 where
  pub name : Text
  pub args : List Text

pub data Event : Type 0 where
  -- `cmd.Run`, which waits for the end
  ran : CommandLine → Event
  -- `cmd.Start`, `Process.Kill` and `cmd.Wait` of the agent
  agent_started agent_killed agent_waited : Event
  -- `cmd.Start` of the server
  server_started : Event
  -- `os.RemoveAll`
  removed_all : Text → Event

-- What fails, after what was done before; and what the environment gives.
pub record Host : Type 0 where
  pub windows : Bool
  pub run_error : CommandLine → List Event → Option Error
  pub start_error : CommandLine → List Event → Option Error
  pub user_cache_dir : Result Text
  pub temp_dir : Text
  pub mkdir_temp : Text → Result Text
  pub abs : Text → Result Text
  pub setenv_error : Text → Text → Option Error

-- `installerTarget`
unfoldable pub installer_target : Dict Text → Text
installer_target env = elim (lookup (lit "BAZEL_INTEGRATION_TEST_INSTALL_TARGET") env) [
  | some target ↦ target
  | none ↦ lit "@tweag-credential-helper//installer"
]

-- `bazelCommand`
unfoldable pub bazel_command : Text → List Text → List Text → CommandLine
bazel_command name command startup_flags = record { name = name; args = startup_flags ++ command }

abbrev some_path : Text
some_path = lit "somepath(@tweag-credential-helper//installer, @tweag-credential-helper)"

abbrev build_mode : Text → List Text
build_mode mode =
    lit "cquery"
    ∷ (lit "--@tweag-credential-helper//bzl/config:helper_build_mode=" ++ mode)
    ∷ some_path
    ∷ []

-- The commands of `bazelCommands`: before the agent, with it, and at the end.
unfoldable pub setup_commands : Dict Text → Text → List Text → List CommandLine
unfolding bazel_command installer_target
setup_commands env bazel startup_flags =
    bazel_command bazel (lit "info" ∷ []) startup_flags
    ∷ bazel_command bazel (lit "run" ∷ installer_target env ∷ []) startup_flags
    ∷ bazel_command bazel (build_mode (lit "auto")) startup_flags
    ∷ bazel_command bazel (build_mode (lit "from_source")) startup_flags
    ∷ bazel_command bazel (build_mode (lit "prebuilt")) startup_flags
    ∷ bazel_command bazel (lit "shutdown" ∷ []) startup_flags
    ∷ []

unfoldable pub test_commands : Text → List Text → List CommandLine
unfolding bazel_command
test_commands bazel startup_flags =
    bazel_command bazel (lit "test" ∷ lit "--cache_test_results=no" ∷ lit "//..." ∷ [])
      startup_flags
    ∷ []

unfoldable pub shutdown_commands : Text → List Text → List CommandLine
unfolding bazel_command
shutdown_commands bazel startup_flags = bazel_command bazel (lit "shutdown" ∷ []) startup_flags ∷ []

-- `outputUserRoot`, whose error is a panic
unfoldable pub output_user_root : Host → Result (Option Text)
output_user_root host =
    if host.windows
    then host.mkdir_temp (elim host.user_cache_dir [ ok cache ↦ cache | err _ ↦ host.temp_dir ])
      >>= (λ dir. ok (some dir))
    else ok none

abbrev pub startup_flags : Option Text → List Text
startup_flags root =
    elim root [ none ↦ [] | some dir ↦ (lit "--output_user_root=" ++ dir) ∷ [] ]
    ++ (lit "--bazelrc=.bazelrc" ∷ lit "--bazelrc=.bazelrc.generated" ∷ [])

abbrev pub remove_root : Option Text → List Event
remove_root none = []
remove_root (some dir) = removed_all dir ∷ []

module _ (host : Host) where
  -- a loop over commands that the first error ends
  unfoldable pub run_all : List CommandLine → List Event → Result (Unit {0}) × List Event
  run_all [] done = (ok tt, done)
  run_all (command ∷ commands) done =
      let done' = done ++ (ran command ∷ []) in
      let rest = run_all commands done' in
      elim (host.run_error command done) [
        | some e ↦ (err (failure "failed for command"), done')
        | none ↦ rest
      ]

  -- from the agent's start on, with the two `defer`s
  unfoldable pub run_tests :
      CommandLine → List CommandLine → List Event → Result (Unit {0}) × List Event
  unfolding run_all
  run_tests agent tests done = elim (host.start_error agent done) [
    | some e ↦ (err (failure "failed to start agent"), done)
    | none ↦
        let (result, done') = run_all tests (done ++ (agent_started ∷ [])) in
        (result, done' ++ (agent_killed ∷ agent_waited ∷ []))
  ]

  -- before the `defer`s of the first lines run
  unfoldable pub run_setup :
      CommandLine
      → List CommandLine
      → List CommandLine
      → List Event
      → Result (Unit {0}) × List Event
  unfolding run_tests
  run_setup agent setup tests done =
      let (result, done') = run_all setup done in
      elim result [ err e ↦ (err e, done') | ok _ ↦ run_tests agent tests done' ]

  -- `runBazelCommands`; the errors of the last commands are ignored
  unfoldable pub run_bazel_commands :
      Dict Text → Text → Text → Option Text → List Event → Result (Unit {0}) × List Event
  unfolding run_setup setup_commands test_commands shutdown_commands
  run_bazel_commands env bazel helper root done =
      let flags = startup_flags root in
      let agent : CommandLine = record { name = helper; args = lit "agent-launch" ∷ [] } in
      let (result, done') =
        run_setup agent (setup_commands env bazel flags) (test_commands bazel flags) done in
      (result, done' ++ (map ran (shutdown_commands bazel flags) ++ remove_root root))
