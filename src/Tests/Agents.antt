-- ===== src/Tests/Agents.antt =====
-- The agent's process: its paths, its lock and the loop of `Serve`.
use credential_helper.Base.{
  ℕ, ◌≡◌, ◌≢◌, refl, ◌≤◌, true, false, none, some, [], ◌∷◌, arith, if◌then◌else◌,
}
use credential_helper.Base.Int.{ℤ, is_nonneg}
use credential_helper.Text.{Text, lit, text_eq, text_eq_refl}
use credential_helper.Text.Affix.{has_prefix, trim_prefix}
use credential_helper.Text.Path.{join_path, is_abs, clean, walk, element, reversed}
use credential_helper.Text.Parts
use credential_helper.Dict.{Dict, lookup, insert}
use credential_helper.Errors.{ok, err, ◌>>=◌}
use credential_helper.Api.Names.{workdir_env, placeholder_workdir}
use credential_helper.Api.{agent_request_shutdown}
use credential_helper.Cache.Mem.{MemCache, new_mem_cache, mem_cache}
use credential_helper.Cache.Mem.Laws.{IsValid}
use credential_helper.Agent.Service.{no_request, decode_into}
use credential_helper.Agent.Locate.{
  Machine, Process, setup_workspace_directory, setup_workdir, expand_path, agent_paths,
  setup_environment, workdir, cache_dir, workdir_hash,
}
use credential_helper.Agent.Locate.Inherited.{IsRooted, setup_environment-inherited}
use credential_helper.Agent.Serve.{
  claimed, idle_stopped, prune_stopped, act, conn_behind, Server, Conn, Reach, Step, waiting,
  returned, wins, start_server, claim,
}
use credential_helper.Agent.Serve.Invariant.{Reach-start_server}
use credential_helper.Agent.Serve.Stuck.{start_server_hangs}
use credential_helper.Agent.Serve.Returns.{Ends, Serve_returns}
use credential_helper.Agent.Start.{Faults, lockfile_new, listen}
use credential_helper.Agent.Start.Exclusion
use credential_helper.Agent.Start.Exclusion.{
  outside, serving, at_rest, one_agent, new_caching_agent_refused,
}
use credential_helper.Tests.World.{Message, json, time}

abbrev pub machine : Machine
machine = record {
  windows = false;
  temp_dir = lit "/tmp";
  user_cache_dir = ok (lit "/home/u/.cache");
  user_home_dir = ok (lit "/home/u");
  md5_hex = λ t. lit "d41d";
  from_slash = λ t. t;
  setenv_error = λ k v. none;
  mkdir_all = λ t. ok tt;
  chdir = λ cwd path.
      ok (if is_abs path then ok path else (do dir ← cwd; ok (join_path (dir ∷ path ∷ []))));
}

abbrev shell : Process
shell = record { env = []; cwd = ok (lit "/work") }

-- what `SetupEnvironment` makes of a process, or the process itself
abbrev started : Process → Process
started p = elim (setup_environment machine p) [ ok p' ↦ p' | err e ↦ p ]

-- the agent that the client launches, with its environment and another working directory
abbrev child : Process
child = record { env = (started shell).env; cwd = ok (lit "/") }

shell_sets_up : setup_environment machine shell ≡ ok (started shell)
unfolding setup_environment setup_workspace_directory setup_workdir lookup insert text_eq lit
shell_sets_up = refl

child_sets_up : setup_environment machine child ≡ ok (started child)
unfolding setup_environment setup_workspace_directory setup_workdir lookup insert text_eq lit
child_sets_up = refl

machine-IsRooted : IsRooted machine
machine-IsRooted cwd cwd' path absolute = ground arith

shell_inside : is_abs (workdir (started shell).env) ≡ true
unfolding setup_environment setup_workspace_directory setup_workdir lookup insert text_eq lit
    join_path clean walk element reversed Parts.join Parts.split has_prefix cache_dir workdir_hash
shell_inside = refl

setup_environment-inherited_example :
    ((started child).cwd ≡ (started shell).cwd)
    × (agent_paths machine (started child).env ≡ agent_paths machine (started shell).env)
setup_environment-inherited_example =
    setup_environment-inherited machine shell (started shell) child (started child) shell_sets_up
      refl child_sets_up machine-IsRooted shell_inside

-- With a relative working directory in the environment, the two processes end in different places.
abbrev relative : Process
relative = record { env = (workdir_env, lit "foo") ∷ []; cwd = ok (lit "/work") }

relative_nests :
    ((started relative).cwd ≡ ok (lit "/work/foo"))
    × ((started (started relative)).cwd ≡ ok (lit "/work/foo/foo"))
unfolding setup_environment setup_workspace_directory setup_workdir lookup insert text_eq lit
    join_path clean walk element reversed Parts.join Parts.split has_prefix
relative_nests = (refl, refl)

abbrev at_work : Dict Text
at_work = (workdir_env, lit "/home/u/.cache/tch") ∷ []

abbrev short_input : Text
short_input = lit "%workdir%/run/agent.sock"

short_input-has_prefix : has_prefix short_input placeholder_workdir ≡ true
unfolding lit has_prefix
short_input-has_prefix = refl

at_work-set : workdir at_work ≢ []
unfolding lit lookup text_eq
at_work-set = λ e. ground arith

-- the socket of the agent by default, as it is short enough for the system and as it is in full
paths_test :
    (expand_path machine at_work short_input true ≡ lit "run/agent.sock")
    × (expand_path machine at_work short_input false ≡ lit "/home/u/.cache/tch/run/agent.sock")
unfolding lit expand_path has_prefix trim_prefix join_path lookup text_eq clean walk element
    reversed Parts.join Parts.split
paths_test = (refl, refl)

abbrev first : Server MemCache Message
first = start_server new_mem_cache (ℤ.pos 100) (ℤ.pos 10)

abbrev handed_over : Server MemCache Message
handed_over = record first { conns = Conn.reading no_request ∷ [] }

abbrev shut_down : Server MemCache Message
shut_down = record handed_over {
  agent =
      act prune_stopped
        (act idle_stopped (act claimed (claim (record first.agent { idle_timer = ℤ.pos 100 }))));
  conns = Conn.reading (decode_into no_request (some agent_request_shutdown) none) ∷ [];
}

shutdown_wins :
    wins (decode_into (no_request {Raw = Message}) (some agent_request_shutdown) none) first.agent
    ≡ true
unfolding decode_into
shutdown_wins = ground (arith, text_eq_refl agent_request_shutdown)

shut_down-Reach : Reach (mem_cache time) json first shut_down
unfolding conn_behind
shut_down-Reach =
    let claims =
      Reach.next
        (Reach.next
          (Reach.next (Reach.next Reach.here (Step.accept refl refl)) (Step.hand refl refl))
          (Step.request_shutdown [] [] no_request (some agent_request_shutdown) none refl
            shutdown_wins))
        (Step.advance_shutdown [] [] _ claimed refl) in
    Reach.next (Reach.next claims (Step.advance_shutdown [] [] _ idle_stopped refl))
      (Step.advance_shutdown [] [] _ prune_stopped refl)

Reach-start_server_example :
    (shut_down.agent.closes ≤ 1)
    × (shut_down.agent.closes ≢ 0
        → (is_nonneg shut_down.agent.idle_timeout ≡ false)
          × (is_nonneg shut_down.agent.prune_interval ≡ false))
    × IsValid shut_down.agent.cache
unfolding act
Reach-start_server_example =
    Reach-start_server time json (ℤ.pos 100) (ℤ.pos 10) {t = shut_down} shut_down-Reach

start_server_hangs_example :
    (s : Server MemCache Message) × Reach (mem_cache time) json first s
    × (s.agent.closes ≡ 1)
    × ((t : Server MemCache Message) → Reach (mem_cache time) json s t → t.main ≢ returned)
start_server_hangs_example =
    start_server_hangs (mem_cache time) json new_mem_cache (ℤ.pos 100) (ℤ.pos 10)

abbrev left : Server MemCache Message
left = record shut_down { main = waiting; listening = false }

left-Reach : Reach (mem_cache time) json first left
unfolding act
left-Reach = Reach.next shut_down-Reach (Step.stop refl (λ e. ground arith))

left-started : left.agent.shutdown_started ≡ true
unfolding act
left-started = refl

Serve_returns_example : Ends (mem_cache time) json left
Serve_returns_example =
    Serve_returns (mem_cache time) json new_mem_cache (ℤ.pos 100) (ℤ.pos 10) left left-Reach refl
      left-started (λ e. ground arith)

abbrev pub no_faults : Faults
no_faults = record {
  open_lock = none;
  write_pid = none;
  harden = none;
  remove = false;
  listen = none;
}

-- an agent that started where an earlier one had died
abbrev one_serves : Exclusion.Machine
one_serves = record {
  host = record { holder = some 7; socket = some 7 };
  stage =
      Exclusion.set
        (Exclusion.set (Exclusion.set (λ i. outside) 7 Exclusion.locked) 7 Exclusion.ready) 7
        serving;
}

one_serves-Reach : Exclusion.Reach (at_rest (some 3)) one_serves
unfolding lockfile_new listen
one_serves-Reach =
    Exclusion.Reach.next
      (Exclusion.Reach.next
        (Exclusion.Reach.next Exclusion.Reach.here (Exclusion.Step.take_lock 7 no_faults refl refl))
        (Exclusion.Step.clear_socket 7 no_faults refl))
      (Exclusion.Step.start_listening 7 no_faults refl refl)

one_agent_example :
    ((i j : ℕ) → one_serves.stage i ≢ outside → one_serves.stage j ≢ outside → i ≡ j)
    × ((i : ℕ) → one_serves.stage i ≡ serving → one_serves.host.socket ≡ some i)
one_agent_example = one_agent (some 3) {m = one_serves} one_serves-Reach
