-- ===== src/Agent/Harden.antt =====
-- What keeps other users from the agent: agent/agent_unix.go, agent/agent_windows.go, and the
-- attributes of the agent's process in agent/client_unix.go and agent/client_windows.go.
use credential_helper.Base.{
  ℕ, ◌+◌, ◌≡◌, Bool, true, false, not, ◌&&◌, Option, none, some, List, [], ◌∷◌, arith,
}
use credential_helper.Errors.{Error, Result, ok, err, wrapped, ◌>>>◌}

-- Three of the bits of a mode, for one class of users.
pub record Access : Type 0 where
  pub may_read : Bool
  pub may_write : Bool
  pub may_execute : Bool

pub record Mode : Type 0 where
  pub owner : Access
  pub group : Access
  pub others : Access

abbrev pub no_access : Access
no_access = record { may_read = false; may_write = false; may_execute = false }

abbrev pub all_access : Access
all_access = record { may_read = true; may_write = true; may_execute = true }

-- The process, with its umask, and a directory with its owner and its mode.
pub record Guarded : Type 0 where
  pub umask : Mode
  pub dir_owner : ℕ
  pub dir_group : ℕ
  pub dir_mode : Mode

-- the process's `os.Getuid` and `os.Getgid`, and the errors of the calls for the directory
pub record Identity : Type 0 where
  pub uid : ℕ
  pub gid : ℕ
  pub chown_error : Option Error
  pub chmod_error : Option Error

-- `hardenAgentProcess`, with 0o077
unfoldable pub harden_agent_process : Guarded → Guarded
harden_agent_process g = record g {
  umask = record { owner = no_access; group = all_access; others = all_access };
}

-- `os.Chown`, `os.Chmod`
abbrev chown : Identity → Guarded → Result (Unit {0}) × Guarded
chown me g = elim me.chown_error [
  | some e ↦ (err (wrapped "chown socket directory" e), g)
  | none ↦ (ok tt, record g { dir_owner = me.uid; dir_group = me.gid })
]

abbrev chmod : Identity → Mode → Guarded → Result (Unit {0}) × Guarded
chmod me mode g = elim me.chmod_error [
  | some e ↦ (err (wrapped "chmod socket directory" e), g)
  | none ↦ (ok tt, record g { dir_mode = mode })
]

-- `hardenSocketDir`, with 0o700
unfoldable pub harden_socket_dir : Identity → Guarded → Result (Unit {0}) × Guarded
harden_socket_dir me g = chown me g >>> λ owned g'.
    chmod me (record { owner = all_access; group = no_access; others = no_access }) g'

-- both functions of Windows
abbrev pub harden_agent_process_windows : Guarded → Guarded
harden_agent_process_windows g = g

abbrev pub harden_socket_dir_windows : Guarded → Result (Unit {0}) × Guarded
harden_socket_dir_windows g = (ok tt, g)

-- the mode that a new file gets, when this one is asked for
masked_access : Access → Access → Access
masked_access mask asked = record {
  may_read = asked.may_read && not mask.may_read;
  may_write = asked.may_write && not mask.may_write;
  may_execute = asked.may_execute && not mask.may_execute;
}

unfoldable pub created : Mode → Guarded → Mode
unfolding masked_access
created asked g = record {
  owner = masked_access g.umask.owner asked.owner;
  group = masked_access g.umask.group asked.group;
  others = masked_access g.umask.others asked.others;
}

-- nobody but the owner has access
pub record IsPrivate (mode : Mode) : Type 0 where
  pub group : mode.group ≡ no_access
  pub others : mode.others ≡ no_access

masked_access-all : (asked : Access) → masked_access all_access asked ≡ no_access
unfolding masked_access
masked_access-all asked = ground arith

-- Where the directory was hardened after the process, it is the user's, and neither it nor a file
-- that the process makes then, whatever mode is asked for, can be used by another user.
pub harden-IsPrivate :
    (me : Identity) (g : Guarded) (asked : Mode)
    → (harden_socket_dir me (harden_agent_process g)).0 ≡ ok tt
    → let g' = (harden_socket_dir me (harden_agent_process g)).1 in
      (g'.dir_owner ≡ me.uid) × IsPrivate g'.dir_mode × IsPrivate (created asked g')
unfolding harden_socket_dir harden_agent_process created
harden-IsPrivate me g asked good = (
  ground arith,
  record { group = ground arith; others = ground arith },
  record {
    group = ground (arith, masked_access-all asked.group);
    others = ground (arith, masked_access-all asked.others);
  },
)

-- What the operating system is told of the agent's process: `nil` is an input that is closed.
pub record ProcAttr (F : Type 0) : Type 0 where
  pub files : List (Option F)
  pub new_process_group : Bool
  pub creation_flags : ℕ

-- `procAttrForAgentProcess` of Unix
unfoldable pub proc_attr_for_agent_process : {F : Type 0} → Option F → Option F → ProcAttr F
proc_attr_for_agent_process stdout stderr = record {
  files = none ∷ stdout ∷ stderr ∷ [];
  new_process_group = true;
  creation_flags = 0;
}

abbrev pub detached_process : ℕ
detached_process = 8

abbrev pub create_new_process_group : ℕ
create_new_process_group = 512

-- the one of Windows; the two flags have no bit in common
unfoldable pub proc_attr_for_agent_process_windows : {F : Type 0} → Option F → Option F → ProcAttr F
proc_attr_for_agent_process_windows stdout stderr = record {
  files = none ∷ stdout ∷ stderr ∷ [];
  new_process_group = false;
  creation_flags = detached_process + create_new_process_group;
}
