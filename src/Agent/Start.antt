-- ===== src/Agent/Start.antt =====
-- `NewCachingAgent` and `cleanup` of agent/service.go over agent/internal/lockfile: how agents of
-- several processes share one lock file and one socket.
pub mod Exclusion
pub mod Windows
use credential_helper.Base.{
  ℕ, Bool, true, false, not, Option, none, some, is_some, if◌then◌else◌, [],
}
use credential_helper.Text.{Text, lit}
use credential_helper.Text.Affix.{has_prefix}
use credential_helper.Errors.{Error, Result, ok, err, failure, wrapped, ◌>>=◌, ◌>>◌}

-- The process with the lock, and the process that made the socket file, if there is one. The file
-- of a process that died stays.
pub record Host : Type 0 where
  pub holder : Option ℕ
  pub socket : Option ℕ

-- The calls of the operating system that fail.
pub record Faults : Type 0 where
  pub open_lock : Option Error
  pub write_pid : Option Error
  pub harden : Option Error
  pub remove : Bool
  pub listen : Option Error

abbrev checked : Option Error → Result (Unit {0})
checked none = ok tt
checked (some e) = err e

-- `flock` with `LOCK_EX | LOCK_NB`
abbrev flock : ℕ → Host → Result (Unit {0}) × Host
flock pid h = elim h.holder [
  | some other ↦ (err (failure "acquiring agent lock file (agent already running?)"), h)
  | none ↦ (ok tt, record h { holder = some pid })
]

module _ (faults : Faults) where
  -- `lock` of Unix; after a failure to write the lock stays with the process
  abbrev pub lock : ℕ → Host → Result (Unit {0}) × Host
  lock pid h =
      let (locked, h') = flock pid h in
      elim locked [
        | err e ↦ (err e, h')
        | ok _ ↦ elim faults.write_pid [
          | some e ↦ (err (wrapped "writing pid to agent lock file" e), h')
          | none ↦ (ok tt, h')
        ]
      ]

  -- `lockfile.New`
  unfoldable pub lockfile_new : ℕ → Host → Result (Unit {0}) × Host
  lockfile_new pid h = elim faults.open_lock [ some e ↦ (err e, h) | none ↦ lock pid h ]

  -- `os.Remove` of the socket, whose error is ignored
  abbrev pub remove_socket : Host → Host
  remove_socket h = if faults.remove then h else record h { socket = none }

  -- `net.Listen`, which fails where the file exists
  unfoldable pub listen : ℕ → Host → Result (Unit {0}) × Host
  listen pid h = elim faults.listen [
    | some e ↦ (err e, h)
    | none ↦ elim h.socket [
      | some other ↦ (err (failure "address already in use"), h)
      | none ↦ (ok tt, record h { socket = some pid })
    ]
  ]

  -- from the lock on, for a socket that is a file and for one that is not
  prepared : Text → Result (Unit {0})
  prepared socket_path = if has_prefix socket_path (lit "@") then ok tt else checked faults.harden

  cleared : Text → Host → Host
  cleared socket_path h = if has_prefix socket_path (lit "@") then h else remove_socket h

  -- `NewCachingAgent`; the caller keeps what it did before an error until it exits
  unfoldable pub new_caching_agent : Text → ℕ → Host → Result (Unit {0}) × Host
  unfolding prepared cleared
  new_caching_agent socket_path pid h =
      let (locked, h1) = lockfile_new pid h in
      elim locked [
        | err e ↦ (err e, h1)
        | ok _ ↦ elim (prepared socket_path) [
          | err e ↦ (err e, h1)
          | ok _ ↦ listen pid (cleared socket_path h1)
        ]
      ]

-- `lis.Close`, which removes the file of the socket
abbrev pub close_listener : Host → Host
close_listener h = record h { socket = none }

-- `unlock` of Unix, over the error of its `flock`
abbrev pub unlock : Option Error → Host → Result (Unit {0}) × Host
unlock (some e) h = (err e, h)
unlock none h = (ok tt, record h { holder = none })

-- `Lockfile.Close`; the file is closed in any case, which gives the lock back
unfoldable pub lockfile_close : Option Error → Host → Result (Unit {0}) × Host
lockfile_close fault h = let (done, h') = unlock fault h in (done, record h' { holder = none })
