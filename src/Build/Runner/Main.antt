-- ===== src/Build/Runner/Main.antt =====
-- `main` of bzl/private/integration_test_runner/integration_test_runner.go.
use credential_helper.Base.{none, some, List, [], ◌∷◌, ◌++◌, if◌then◌else◌}
use credential_helper.Text.{Text, lit, is_empty, is_space}
use credential_helper.Text.Parts.{push_head}
use credential_helper.Text.Path.{join_path}
use credential_helper.Dict.{Dict, lookup, insert}
use credential_helper.Errors.{Result, ok, err, failure, wrapped, ◌>>=◌}
use credential_helper.Agent.Locate.{getenv}
use credential_helper.Build.Runner.{
  CommandLine, Event, ran, server_started, removed_all, Host, output_user_root, run_bazel_commands,
}

space_parts : Text → List Text
space_parts [] = [] ∷ []
space_parts (c ∷ s) = let rest = space_parts s in if is_space c then [] ∷ rest else push_head c rest

filled : List Text → List Text
filled [] = []
filled (part ∷ parts) = let rest = filled parts in if is_empty part then rest else part ∷ rest

-- `strings.Fields`
unfoldable pub fields : Text → List Text
unfolding space_parts filled
fields s = filled (space_parts s)

module _ (host : Host) where
  -- the loop of `absolutifyEnvVars`
  unfoldable pub absolutify : List Text → Dict Text → Result (Dict Text)
  absolutify [] env = ok env
  absolutify (key ∷ keys) env = elim (lookup key env) [
    | none ↦ absolutify keys env
    | some value ↦ host.abs value >>= λ path. elim (host.setenv_error key path) [
      | some e ↦ err e
      | none ↦ absolutify keys (insert key path env)
    ]
  ]

  -- `absolutifyEnvVars`
  unfoldable pub absolutify_env_vars : Dict Text → Result (Dict Text)
  unfolding absolutify fields
  absolutify_env_vars env = absolutify (fields (getenv env (lit "ENV_VARS_TO_ABSOLUTIFY"))) env

  -- `runHttpbinServer`, over the package `runfiles`; the server is not waited for
  unfoldable pub run_httpbin_server :
      (Text → Result Text) → List Event → Result (Unit {0}) × List Event
  run_httpbin_server rlocation done =
      elim (rlocation (lit "+_repo_rules+go_httpbin/cmd/go-httpbin/go-httpbin_/go-httpbin")) [
        | err e ↦ (err (failure "failed to find go-httpbin binary"), done)
        | ok path ↦
            elim (host.start_error (record { name = path; args = lit "-port" ∷ lit "9494" ∷ [] })
              done) [
                | some e ↦ (err (wrapped "failed to start go-httpbin" e), done)
                | none ↦ (ok tt, done ++ (server_started ∷ []))
              ]
      ]

-- How the process ends: by the return of `main`, by `os.Exit(1)`, or by a panic.
pub data Exit : Type 0 where
  returned exited panicked : Exit

abbrev pub workspace_dir : Dict Text → Text
workspace_dir env = getenv env (lit "BIT_WORKSPACE_DIR") ++ lit ".scratch"

abbrev pub helper_path : Host → Dict Text → Text
helper_path host env =
    join_path (workspace_dir env ∷ lit "tools" ∷ lit "credential-helper" ∷ [])
    ++ (if host.windows then lit ".exe" else [])

-- The deferred calls of a function run where it returns and where it panics; `os.Exit` ends the
-- process without them.
unfoldable pub unwind : List Event → Exit × List Event → Exit × List Event
unwind deferred (returned, done) = (returned, done ++ deferred)
unwind deferred (panicked, done) = (panicked, done ++ deferred)
unwind deferred (exited, done) = (exited, done)

module _ (host : Host) (env : Dict Text) where
  -- the body of `main` from `runBazelCommands` on
  unfoldable pub test_workspace : Dict Text → List Event → Exit × List Event
  unfolding output_user_root run_bazel_commands
  test_workspace env' done = elim (output_user_root host) [
    | err e ↦ (panicked, done)
    | ok root ↦
        let helper = helper_path host env in
        let bazel = getenv env (lit "BIT_BAZEL_BINARY") in
        let (result, done') = run_bazel_commands host env' bazel helper root done in
        let logs : CommandLine = record { name = helper; args = lit "agent-logs" ∷ [] } in
        let done'' = done' ++ (ran logs ∷ []) in
        elim result [ err e ↦ (exited, done'') | ok _ ↦ (returned, done'') ]
  ]

  -- the body of `main` behind its `defer`
  unfoldable pub body : (Text → Result Text) → Result (Unit {0}) → Exit × List Event
  unfolding absolutify_env_vars run_httpbin_server test_workspace
  body rlocation prepared = elim (absolutify_env_vars host env) [
    | err e ↦ (panicked, [])
    | ok env' ↦
        let (served, done) = run_httpbin_server host rlocation [] in
        elim served [
          | err e ↦ (exited, done)
          | ok _ ↦ elim prepared [ err e ↦ (exited, done) | ok _ ↦ test_workspace env' done ]
        ]
  ]

  -- `main`, over the package `runfiles`, with the result of `prepareWorkspace`
  unfoldable pub main : (Text → Result Text) → Result (Unit {0}) → Exit × List Event
  unfolding body unwind
  main rlocation prepared = unwind (removed_all (workspace_dir env) ∷ []) (body rlocation prepared)
