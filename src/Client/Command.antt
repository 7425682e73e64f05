-- ===== src/Client/Command.antt =====
-- The commands of cmd/root/root.go around `foreground`. A call of `logging.Fatalf` is an error.
pub mod Shutdown
use credential_helper.Base.{ℕ, Bool, ◌||◌, Option, none, some, if◌then◌else◌}
use credential_helper.Base.Int.{ℤ}
use credential_helper.Text.{Text, lit, text_eq, to_lower}
use credential_helper.Dict.{Dict, lookup}
use credential_helper.Errors.{Error, Result, ok, err, failure, wrap, wrapped, ◌>>=◌}
use credential_helper.Api.{
  GetCredentialsRequest, GetCredentialsResponse, AgentRequest, AgentResponse, Json,
  agent_request_shutdown, agent_response_ok,
}
use credential_helper.Api.Names.{standalone, log_level_env, idle_timeout_env, prune_interval_env}
use credential_helper.Logging.{LogLevel, log_level_off, from_string}
use credential_helper.Cache.Nothing.{no_cache}
use credential_helper.Cache.Socket.{Ends, Peer, new_socket_cache, socket_cache}
use credential_helper.Agent.Locate.{Machine, getenv, agent_paths}
use credential_helper.Agent.Client.{Launcher, launch_agent_process, command}
use credential_helper.Agent.Start.{Host, Faults, new_caching_agent}
use credential_helper.Agent.Serve.{Server, start_server}
use credential_helper.Client.{Helper, Report, died, foreground}

unfoldable pub should_run_standalone : Dict Text → Bool
should_run_standalone env =
    let standalone_ = to_lower (getenv env standalone) in
    text_eq standalone_ (lit "true") || text_eq standalone_ (lit "1")

-- `setLogLevel`: the level of the process, which is off before
abbrev pub set_log_level : (Text → Option ℤ) → Dict Text → LogLevel
set_log_level atoi env = elim (lookup log_level_env env) [
  | none ↦ log_level_off
  | some level ↦ from_string atoi level
]

-- `getDurationFromEnvOrDefault`, with `time.ParseDuration` as a parameter
unfoldable pub get_duration_from_env_or_default :
    (Text → Result ℤ) → Dict Text → Text → ℤ → Result ℤ
get_duration_from_env_or_default parse_duration env key fallback = elim (lookup key env) [
  | none ↦ ok fallback
  | some timeout ↦ parse_duration timeout
]

-- The cache that a client works with, over the connection to the agent if there is one.
pub data Connected (C : Type 0) : Type 0 where
  alone : Connected C
  connected : C → Connected C

module _ {P C : Type 0} (m : Machine) (launcher : Launcher P) (level : LogLevel) (env : Dict Text)
    (dial : Text → P → ℕ → Option C) where
  -- `launchOrConnectAgent`, with a timeout of a second
  unfoldable pub launch_or_connect_agent : P → Result (Connected C) × P
  launch_or_connect_agent p =
      if should_run_standalone env
      then (ok alone, p)
      else (let (launched, p') = launch_agent_process launcher level env p in
          elim launched [
            | err e ↦ (err e, p')
            | ok _ ↦ elim (new_socket_cache (dial (agent_paths m env).0 p') 1000000000) [
              | err e ↦ (err e, p')
              | ok conn ↦ (ok (connected conn), p')
            ]
          ])

module _ {P Q R Raw : Type 0} (json : Json Raw) (peer : Peer Raw P) (streams : Peer Raw Q)
    (print : GetCredentialsResponse → Result (Unit {0})) where
  -- `clientProcess`, from the connection on: the report, and the ends of the connection if there is one
  unfoldable pub client_process :
      Result (Connected (Ends P Q))
      → (Text → Result (Option (Helper R) × Option R))
      → Result GetCredentialsRequest
      → Report × Connected (Ends P Q)
  client_process (err e) configure req =
      (died (wrapped "failed to launch or connect to agent" e), alone)
  client_process (ok alone) configure req = ((foreground no_cache print configure req tt).0, alone)
  client_process (ok (connected ends)) configure req =
      let (report, ends') = foreground (socket_cache json peer streams) print configure req ends in
      (report, connected ends')

module _ {P Raw : Type 0} (peer : Peer Raw P) where
  -- the answer to a command, of which the payload is printed
  answer : Result (AgentResponse Raw) → Result (Option Raw)
  answer (err e) = err e
  answer (ok resp) =
      if text_eq resp.status agent_response_ok
      then ok resp.payload
      else err (failure "agent response")

  -- what is read from the standard input for a command, if it is read
  payload_of : Option (Result (Option Raw)) → Result (Option Raw)
  payload_of none = ok none
  payload_of (some read) = read

  send : Text → Option Raw → P → Result (Option Raw) × P
  unfolding answer
  send method payload p =
      let (resp, p') = command peer (record { method = method; payload = payload }) p in
      (answer resp, p')

  -- `clientCommandProcess` on a connection to the agent, or on the error of dialing it; what is
  -- printed is the payload of the response
  unfoldable pub client_command_process :
      Text → Option (Result (Option Raw)) → Result P → Result (Option Raw) × Option P
  unfolding send payload_of
  client_command_process method stdin (err e) =
      if text_eq method agent_request_shutdown then (ok none, none) else (err e, none)
  client_command_process method stdin (ok p) = elim (payload_of stdin) [
    | err e ↦ (err e, some p)
    | ok payload ↦ let (printed, p') = send method payload p in (printed, some p')
  ]

-- 3 * time.Hour, time.Minute
abbrev pub default_idle_timeout : ℤ
default_idle_timeout = ℤ.pos 10800000000000

abbrev pub default_prune_interval : ℤ
default_prune_interval = ℤ.pos 60000000000

-- the idle timeout and the prune interval
unfoldable pub durations : (Text → Result ℤ) → Dict Text → Result (ℤ × ℤ)
durations parse_duration env = do
  idle_timeout ←
      wrap "determining idle timeout"
        (get_duration_from_env_or_default parse_duration env idle_timeout_env default_idle_timeout)
  prune_interval ← wrap "determining idle timeout" (
      get_duration_from_env_or_default parse_duration env prune_interval_env default_prune_interval)
  ok (idle_timeout, prune_interval)

module _ {S Raw : Type 0} (m : Machine) (parse_duration : Text → Result ℤ) (faults : Faults)
    (pid : ℕ) (env : Dict Text) (new_cache : S) where
  -- the agent's server, or none where the error is logged
  serving : ℤ → ℤ → Host → Option (Server S Raw) × Host
  serving idle_timeout prune_interval h =
      let (made, h') = new_caching_agent faults (agent_paths m env).0 pid h in
      elim made [
        | err e ↦ (none, h')
        | ok _ ↦ (some (start_server new_cache idle_timeout prune_interval), h')
      ]

  -- `agentProcess` up to `Serve`
  unfoldable pub agent_process : Host → Result (Option (Server S Raw)) × Host
  unfolding serving
  agent_process h =
      if should_run_standalone env
      then (err (failure "running as agent is not supported in standalone mode"), h)
      else elim (durations parse_duration env) [
        | err e ↦ (err e, h)
        | ok (idle, interval) ↦ let (server, h') = serving idle interval h in (ok server, h')
      ]
