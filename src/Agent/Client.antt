-- ===== src/Agent/Client.antt =====
-- agent/client.go: the launch of an agent process, and the client of the agent's commands.
use credential_helper.Base.{Option, none, some, List, [], ◌∷◌, if◌then◌else◌}
use credential_helper.Text.{Text, lit}
use credential_helper.Text.Path.{join_path}
use credential_helper.Dict.{Dict}
use credential_helper.Errors.{Result, ok, err, wrap, ◌>>◌}
use credential_helper.Api.{AgentRequest, AgentResponse}
use credential_helper.Logging.{LogLevel, log_level_debug, reaches}
use credential_helper.Agent.Locate.{run}
use credential_helper.Cache.Socket.{Peer}

-- What the launch of a process `P` calls of the operating system.
pub record Launcher (P : Type 0) : Type 0 where
  pub executable : Result Text
  -- opening a log file for appending
  pub open_log : Text → Result (Unit {0})
  -- `os.StartProcess` with its arguments, and with the two logs if they are kept
  pub start_process : Text → List Text → Option (Text × Text) → P → Result (Unit {0}) × P
  pub release : Result (Unit {0})

abbrev pub agent_stdout : Dict Text → Text
agent_stdout env = join_path (run env ∷ lit "agent.stdout" ∷ [])

abbrev pub agent_stderr : Dict Text → Text
agent_stderr env = join_path (run env ∷ lit "agent.stderr" ∷ [])

module _ {P : Type 0} (launcher : Launcher P) (level : LogLevel) (env : Dict Text) where
  -- in debug mode the agent's output is kept
  agent_logs : Result (Option (Text × Text))
  agent_logs =
      if reaches level log_level_debug
      then (do
        wrap "opening agent stdout file for logging" (launcher.open_log (agent_stdout env))
        wrap "opening agent stderr file for logging" (launcher.open_log (agent_stderr env))
        ok (some (agent_stdout env, agent_stderr env)))
      else ok none

  start_agent : Text → Option (Text × Text) → P → Result (Unit {0}) × P
  start_agent self logs p =
      let (started, p') = launcher.start_process self (self ∷ lit "agent-launch" ∷ []) logs p in
      ((do wrap "starting agent process" started; launcher.release), p')

  unfoldable pub launch_agent_process : P → Result (Unit {0}) × P
  unfolding agent_logs start_agent
  launch_agent_process p = elim (wrap "finding path to own executable" launcher.executable) [
    | err e ↦ (err e, p)
    | ok self ↦ elim agent_logs [ err e ↦ (err e, p) | ok logs ↦ start_agent self logs p ]
  ]

-- `Command`; what answers on the connection tells a failure to encode or to decode
abbrev pub command :
    {P Raw : Type 0} → Peer Raw P → AgentRequest Raw → P → Result (AgentResponse Raw) × P
command peer req p = peer req p
