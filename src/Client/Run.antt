-- ===== src/Client/Run.antt =====
-- `Run` of cmd/root/root.go, which chooses a command, and `agentLogsProcess`.
use credential_helper.Base.{Bool, true, false, Option, none, some, List, [], ◌∷◌, if◌then◌else◌}
use credential_helper.Text.{Text, lit, text_eq}
use credential_helper.Dict.{Dict}
use credential_helper.Errors.{Error, Result, ok, err, failure, wrap, wrapped, ◌>>=◌}
use credential_helper.Api.{agent_request_shutdown, agent_request_prune}
use credential_helper.Agent.Locate.{Machine, Process, setup_environment}
use credential_helper.Client.Installer.{want_installer_run}
use credential_helper.Agent.Client.{agent_stdout, agent_stderr}

-- What a process printed on its two streams, and the error that ended it.
pub record Output : Type 0 where
  pub stdout : Text
  pub stderr : Text
  pub fatal : Option Error

-- `agentLogsProcess`, with the files of the logs: they may not open, and not be read to the end
unfoldable pub agent_logs_process : Dict Text → (Text → Result (Text × Option Error)) → Output
agent_logs_process env read = elim (read (agent_stdout env)) [
  | err e ↦ record { stdout = []; stderr = []; fatal = some (wrapped "opening agent stdout log" e) }
  | ok (out, stopped) ↦ elim (read (agent_stderr env)) [
    | err e ↦ record {
      stdout = [];
      stderr = [];
      fatal = some (wrapped "opening agent stderr log" e);
    }
    | ok (errors, stopped') ↦ elim stopped [
      | some e ↦ record {
        stdout = out;
        stderr = [];
        fatal = some (wrapped "copying agent stdout log to stdout" e);
      }
      | none ↦ elim stopped' [
        | some e ↦ record {
          stdout = out;
          stderr = errors;
          fatal = some (wrapped "copying agent stderr log to stderr" e);
        }
        | none ↦ record { stdout = out; stderr = errors; fatal = none }
      ]
    ]
  ]
]

-- What `Run` does with the arguments of the process: the first one is its name.
pub data Action : Type 0 where
  get agent_launch agent_logs install show_version : Action
  setup_uri setup_keyring : List Text → Action
  -- a command for the agent, and if its payload is read from the standard input
  agent_command : Text → Bool → Action

-- the `switch` of `Run`
unfoldable pub action_for : Text → List Text → Result Action
action_for name args =
    if text_eq name (lit "get")
    then ok get
    else if text_eq name (lit "setup-uri")
    then ok (setup_uri args)
    else if text_eq name (lit "setup-keyring")
    then ok (setup_keyring args)
    else if text_eq name (lit "agent-launch")
    then ok agent_launch
    else if text_eq name (lit "agent-shutdown")
    then ok (agent_command agent_request_shutdown false)
    else if text_eq name (lit "agent-prune")
    then ok (agent_command agent_request_prune false)
    else if text_eq name (lit "agent-logs")
    then ok agent_logs
    else if text_eq name (lit "agent-raw")
    then elim args [
      | [] ↦ err (failure "missing command argument")
      | method ∷ rest ↦ ok (agent_command method true)
    ]
    else if text_eq name (lit "installer-install")
    then ok install
    else if text_eq name (lit "version")
    then ok show_version
    else err (failure "unknown command")

-- `Run`, with `SetupEnvironment`: the action, and the process that does it
unfoldable pub run : Machine → List Text → Process → Result (Action × Process)
run m (program ∷ name ∷ args) p = do
  p' ← wrap "setting up process environment" (setup_environment m p)
  action ← action_for name args
  ok (action, p')
run m _ p =
    let (want, p') = want_installer_run p in
    if want then ok (install, p') else err (failure "usage")
