-- ===== src/Logging/Syslog.antt =====
-- logging/syslog_linux.go, with the use of it in cmd/root/root.go, and logging/syslog_fallback.go.
use credential_helper.Base.{
  ◌≡◌, ◌↔◌, Bool, true, not, Option, none, some, List, [], ◌∷◌, ◌++◌, arith, if◌then◌else◌, inl,
  inr, Option-cases, Bool-cases,
}
use credential_helper.Text.{Text}
use credential_helper.Errors.{Error, Result, ok, err, Result-cases}
use credential_helper.Logging.{LogLevel, log_level_debug, reaches, debugf}

-- What the process has of the syslog, and has written to it and to the standard error. A writer
-- `W` is `syslogger`, and `none` is its nil.
pub record Logs (W : Type 0) : Type 0 where
  pub syslogger : Option W
  pub syslog : List Text
  pub stderr : List Text

-- The state, or the panic of a call on a nil pointer.
pub data Call (S : Type 0) : Type 0 where
  done : S → Call S
  panicked : Call S

module _ {Arg W : Type 0} (sprintf : Text → List Arg → Text) where
  -- over `syslog.New`, the text that `log.Printf` makes of its error, and the messages that a
  -- writer takes; its error is ignored
  module _ (syslog_new : Result W) (told : Error → Text) (takes : W → Text → Bool) where
    -- `Init`
    unfoldable pub init : Logs W → Logs W
    init logs = elim syslog_new [
      | ok writer ↦ record logs { syslogger = some writer }
      | err e ↦ record logs { syslogger = none; stderr = logs.stderr ++ (told e ∷ []) }
    ]

    -- `Writer.Debug`
    abbrev debug : Text → Logs W → Call (Logs W)
    debug message logs = elim logs.syslogger [
      | none ↦ panicked
      | some writer ↦ done (record logs {
        syslog = if takes writer message then logs.syslog ++ (message ∷ []) else logs.syslog;
      })
    ]

    -- `SyslogDebugf` of Linux
    unfoldable pub syslog_debugf : LogLevel → Text → List Arg → Logs W → Call (Logs W)
    unfolding init
    syslog_debugf level format args logs =
        if not (reaches level log_level_debug)
        then done logs
        else debug (sprintf format args)
            (elim logs.syslogger [ some writer ↦ logs | none ↦ init logs ])

    -- The message to the syslog ends the process by a panic exactly if the level is debug, no
    -- writer was made before, and none can be made now.
    pub syslog_debugf-panicked_iff :
        (level : LogLevel) (format : Text) (args : List Arg) (logs : Logs W)
        → (syslog_debugf level format args logs ≡ panicked) ↔ (
            (reaches level log_level_debug ≡ true)
            × (logs.syslogger ≡ none)
            × (e : Error) × (syslog_new ≡ err e))
    unfolding syslog_debugf init
    syslog_debugf-panicked_iff level format args logs = (
      λ h. elim (Bool-cases (reaches level log_level_debug)) [
        | inr quiet ↦ absurd (ground (arith, quiet))
        | inl debugs ↦ elim (Option-cases logs.syslogger) [
          | inr (writer, there) ↦ absurd (ground (arith, debugs, there))
          | inl missing ↦ elim (Result-cases syslog_new) [
            | inl (writer, made) ↦ absurd (ground (arith, debugs, missing, made))
            | inr (e, fails) ↦ (debugs, missing, e, fails)
          ]
        ]
      ],
      λ (debugs, missing, e, fails). ground (arith, debugs, missing, fails),
    )

  -- `SyslogDebugf` elsewhere
  abbrev pub syslog_debugf_fallback : LogLevel → Text → List Arg → Logs W → Call (Logs W)
  syslog_debugf_fallback level format args logs =
      done (record logs { stderr = debugf sprintf level format args logs.stderr })
