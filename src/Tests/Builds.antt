-- ===== src/Tests/Builds.antt =====
-- The programs of the build, the lock of Windows and the syslog.
use credential_helper.Base.{
  ℕ, ◌≡◌, refl, ltb, true, false, none, some, List, [], ◌∷◌, ◌++◌, arith, map, length,
  if◌then◌else◌, ◌↔◌, ◌⊎◌,
}
use credential_helper.Text.{Text, lit, text_eq}
use credential_helper.Text.Affix.{cut_prefix, has_prefix}
use credential_helper.Text.Parts.{split, join, split_first}
use credential_helper.Text.Path.{element, walk, reversed, clean, join_path}
use credential_helper.Dict.{lookup}
use credential_helper.Errors.{Error, Result, ok, err, external}
use credential_helper.Build.Files.{Files, Calls, read}
use credential_helper.Build.Distdir.{DistdirEntry}
use credential_helper.Build.Distdir
use credential_helper.Build.Distdir.Filled.{main_twice}
use credential_helper.Build.Platforms
use credential_helper.Build.Workspace.{cut, patched_module}
use credential_helper.Build.Runner
use credential_helper.Build.Runner.{
  CommandLine, Event, ran, startup_flags, setup_commands, test_commands, shutdown_commands,
  run_bazel_commands, bazel_command, run_setup, run_all, output_user_root,
}
use credential_helper.Build.Runner.Ends.{Course, run_bazel_commands-Course}
use credential_helper.Build.Runner.Main
use credential_helper.Build.Runner.Main.{returned, exited, workspace_dir, test_workspace}
use credential_helper.Build.Runner.Status.{removes, bazel_run, main-removes}
use credential_helper.Logging.{reaches, log_level_debug}
use credential_helper.Logging.Syslog.{Logs, panicked, syslog_debugf, syslog_debugf-panicked_iff}
use credential_helper.Agent.Start.{lockfile_new}
use credential_helper.Agent.Start.Windows.{Kernel, IsDocumented, lock, lock-lockfile_new}
use credential_helper.Tests.Agents.{no_faults}

abbrev pub nothing_fails : Calls
nothing_fails = record {
  link_refused = λ src dst now. false;
  open_error = λ path. none;
  create_error = λ path now. none;
  write_error = λ content. none;
  mkdir_error = λ path now. none;
  mkdir_all_error = λ path now. none;
}

-- one file
abbrev pub one_file : Text → Text → Files
one_file path content = record {
  names = (path, 0) ∷ [];
  contents = λ i. content;
  next = 1;
  dirs = [];
}

abbrev entry : DistdirEntry
entry = record { basename = lit "a"; source_path = lit "s" }

main_twice_example :
    let first =
      (Distdir.main nothing_fails (entry ∷ []) (lit "d" ∷ []) (one_file (lit "s") (lit "x"))).1 in
    let (result, second) = Distdir.main nothing_fails (entry ∷ []) (lit "d" ∷ []) first in
    (read (lit "s") first ≡ some (lit "x"))
    × (result ≡ ok tt)
    × (read (lit "s") second ≡ some [])
    × (read (join_path (lit "d" ∷ lit "a" ∷ [])) second ≡ some [])
unfolding lit lookup text_eq join_path clean walk reversed element has_prefix split join
main_twice_example =
    main_twice nothing_fails entry (lit "d") (one_file (lit "s") (lit "x")) (lit "x") refl refl
      (λ now. refl) refl (λ now. refl) refl

flag_accepted :
    Platforms.set (lit "linux_amd64=bin") []
    ≡ ok (record { os = lit "linux"; cpu = lit "amd64"; path = lit "bin" } ∷ [])
unfolding Platforms.set split_first lit
flag_accepted = refl

abbrev marked : Text
marked = lit "a\n# BEGIN BAZEL_DEP\nb\n# END BAZEL_DEP\nc"

-- The end marker comes first: the text between the markers is there twice.
patched_twice :
    patched_module (lit "a # END BAZEL_DEP b # BEGIN BAZEL_DEP c") (lit "dep")
    ≡ ok (lit "a # END BAZEL_DEP b dep b # BEGIN BAZEL_DEP c")
unfolding patched_module cut cut_prefix lit
patched_twice = refl

patched_marked : patched_module marked (lit "dep") ≡ ok (lit "a\ndep\nc")
unfolding patched_module cut cut_prefix lit
patched_marked = refl

-- Every command that is a test fails.
abbrev failing : Runner.Host
failing = record {
  windows = false;
  run_error =
      λ command done. if ltb 3 (length command.args) then some (external (lit "failed")) else none;
  start_error = λ command done. none;
  user_cache_dir = ok (lit "/cache");
  temp_dir = lit "/tmp";
  mkdir_temp = λ path. ok path;
  abs = λ path. ok path;
  setenv_error = λ key value. none;
}

abbrev launching : CommandLine
launching = record { name = lit "helper"; args = lit "agent-launch" ∷ [] }

run_bazel_commands-Course_example :
    let (result, done) = run_bazel_commands failing [] (lit "bazel") (lit "helper") none [] in
    (events : List Event) × (done
      ≡ [] ++ events ++ (map ran (shutdown_commands (lit "bazel") (startup_flags none)) ++ []))
    × Course failing launching
        (setup_commands [] (lit "bazel") (startup_flags none))
        (test_commands (lit "bazel") (startup_flags none))
        []
        result
        events
run_bazel_commands-Course_example =
    run_bazel_commands-Course failing [] (lit "bazel") (lit "helper") none []

nothing_absolute : Main.absolutify_env_vars failing [] ≡ ok []
unfolding Main.absolutify_env_vars Main.absolutify Main.fields lookup
nothing_absolute = refl

server_starts : (Main.run_httpbin_server failing (λ path. ok path) []).0 ≡ ok tt
unfolding Main.run_httpbin_server
server_starts = refl

main-removes_example :
    (((bazel_run failing [] [] (λ path. ok path)).0 ≡ ok tt)
      × ((Main.main failing [] (λ path. ok path) (ok tt)).0 ≡ returned)
      × (removes (workspace_dir []) (Main.main failing [] (λ path. ok path) (ok tt)).1 ≡ true))
    ⊎ ((e : Error) × ((bazel_run failing [] [] (λ path. ok path)).0 ≡ err e)
        × ((Main.main failing [] (λ path. ok path) (ok tt)).0 ≡ exited)
        × (removes (workspace_dir []) (Main.main failing [] (λ path. ok path) (ok tt)).1 ≡ false))
main-removes_example =
    main-removes failing [] [] (λ path. ok path) refl nothing_absolute server_starts

-- A setup command fails, and the directory stays.
main_exited : (Main.main failing [] (λ path. ok path) (ok tt)).0 ≡ exited
unfolding Main.main Main.body Main.unwind Main.absolutify_env_vars Main.absolutify Main.fields
    run_bazel_commands lookup Main.run_httpbin_server test_workspace output_user_root setup_commands
    bazel_command run_setup run_all lit
main_exited = refl

abbrev to_text : Text → List Text → Text
to_text format args = format

abbrev no_syslog : Result ℕ
no_syslog = err (external (lit "no syslog"))

abbrev no_logs : Logs ℕ
no_logs = record { syslogger = none; syslog = []; stderr = [] }

syslog_debugf-panicked_iff_example :
    (syslog_debugf to_text no_syslog
        (λ e. lit "no syslog")
        (λ w m. true)
        log_level_debug
        (lit "uri")
        []
        no_logs
      ≡ panicked)
    ↔ ((reaches log_level_debug log_level_debug ≡ true)
        × (no_logs.syslogger ≡ none)
        × (e : Error) × (no_syslog ≡ err e))
syslog_debugf-panicked_iff_example =
    syslog_debugf-panicked_iff to_text no_syslog (λ e. lit "no syslog") (λ w m. true)
      log_level_debug (lit "uri") [] no_logs

abbrev kernel : Kernel
kernel = record {
  lock_file_ex = λ pid flags low high h. elim h.holder [
    | none ↦ (1, none, record h { holder = some pid })
    | some other ↦ (0, some (external []), h)
  ];
  unlock_file_ex = λ pid low high h. (1, none, record h { holder = none });
}

kernel-IsDocumented : IsDocumented kernel
kernel-IsDocumented = record {
  takes = λ pid h free. (none, ground (arith, free));
  refuses = λ pid other h held. (some (external []), ground (arith, held));
}

lock-lockfile_new_example :
    (((lock kernel none 7 (record { holder = none; socket = none })).0 ≡ ok tt)
      ↔ ((lockfile_new no_faults 7 (record { holder = none; socket = none })).0 ≡ ok tt))
    × ((lock kernel none 7 (record { holder = none; socket = none })).1
        ≡ (lockfile_new no_faults 7 (record { holder = none; socket = none })).1)
lock-lockfile_new_example =
    lock-lockfile_new kernel no_faults 7 (record { holder = none; socket = none })
      kernel-IsDocumented refl
