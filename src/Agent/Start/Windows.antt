-- ===== src/Agent/Start/Windows.antt =====
-- agent/internal/lockfile/lockfile_windows.go, over the two functions of kernel32.dll.
use credential_helper.Base.{
  ℕ, ◌+◌, ◌≡◌, ◌↔◌, Option, none, some, arith, ◌==◌, if◌then◌else◌, inl, inr, Option-cases,
}
use credential_helper.Errors.{Error, Result, ok, err, failure, wrapped}
use credential_helper.Agent.Start.{Host, Faults, lockfile_new}

-- A call of `LockFileEx` or `UnlockFileEx` for a process, with its flags and the two halves of the
-- number of bytes, and 0 for what is reserved: what it returns, the error that comes with it, and the host.
pub record Kernel : Type 0 where
  pub lock_file_ex : ℕ → ℕ → ℕ → ℕ → Host → ℕ × Option Error × Host
  pub unlock_file_ex : ℕ → ℕ → ℕ → Host → ℕ × Option Error × Host

-- `^uint32(0)`
abbrev pub all_bytes : ℕ
all_bytes = 4294967295

abbrev pub lockfile_fail_immediately : ℕ
lockfile_fail_immediately = 1

abbrev pub lockfile_exclusive_lock : ℕ
lockfile_exclusive_lock = 2

module _ (kernel : Kernel) where
  -- `lockFileEx`
  unfoldable pub lock_file_ex : ℕ → ℕ → ℕ → ℕ → Host → Result (Unit {0}) × Host
  lock_file_ex pid flags bytes_low bytes_high h =
      let (r1, e1, h') = kernel.lock_file_ex pid flags bytes_low bytes_high h in
      if r1 == 0
      then elim e1 [ some e ↦ (err e, h') | none ↦ (err (failure "invalid argument"), h') ]
      else (ok tt, h')

  -- `unlockFileEx`, which returns the error of the call as it is
  unfoldable pub unlock_file_ex : ℕ → ℕ → ℕ → Host → Result (Unit {0}) × Host
  unlock_file_ex pid bytes_low bytes_high h =
      let (r1, e1, h') = kernel.unlock_file_ex pid bytes_low bytes_high h in
      if r1 == 0 then elim e1 [ some e ↦ (err e, h') | none ↦ (ok tt, h') ] else (ok tt, h')

  -- `lock`; the two flags have no bit in common
  unfoldable pub lock : Option Error → ℕ → Host → Result (Unit {0}) × Host
  unfolding lock_file_ex
  lock write_pid pid h =
      let (locked, h') =
        lock_file_ex pid (lockfile_exclusive_lock + lockfile_fail_immediately) all_bytes all_bytes
          h in
      elim locked [
        | err e ↦ (err (wrapped "acquiring agent lock file (agent already running?)" e), h')
        | ok _ ↦ elim write_pid [
          | some e ↦ (err (wrapped "writing pid to agent lock file" e), h')
          | none ↦ (ok tt, h')
        ]
      ]

  -- `unlock`
  unfoldable pub unlock : ℕ → Host → Result (Unit {0}) × Host
  unfolding unlock_file_ex
  unlock pid h = unlock_file_ex pid all_bytes all_bytes h

-- What Windows documents of an exclusive lock that fails immediately, on the whole file: it is
-- taken exactly if no process has it.
pub record IsDocumented (kernel : Kernel) : Type 0 where
  pub takes :
      (pid : ℕ) (h : Host)
      → h.holder ≡ none
      → (e : Option Error) × (kernel.lock_file_ex pid 3 all_bytes all_bytes h
          ≡ (1, e, record h { holder = some pid }))
  pub refuses :
      (pid other : ℕ) (h : Host)
      → h.holder ≡ some other
      → (e : Option Error) × (kernel.lock_file_ex pid 3 all_bytes all_bytes h ≡ (0, e, h))

-- A lock file that opens is locked on Windows just as on Unix: the lock ends well on the one
-- exactly if it does on the other, and leaves the same host, if the call is as it is documented.
pub lock-lockfile_new :
    (kernel : Kernel) (faults : Faults) (pid : ℕ) (h : Host)
    → IsDocumented kernel
    → faults.open_lock ≡ none
    → (((lock kernel faults.write_pid pid h).0 ≡ ok tt) ↔ ((lockfile_new faults pid h).0 ≡ ok tt))
      × ((lock kernel faults.write_pid pid h).1 ≡ (lockfile_new faults pid h).1)
unfolding lock lock_file_ex lockfile_new
lock-lockfile_new kernel faults pid h documented opens = elim (Option-cases h.holder) [
  | inl free ↦
      let (e, takes) = documented.takes pid h free in
      (
        (λ good. ground (arith, free, takes, good), λ good. ground (arith, free, takes, good)),
        ground (arith, free, takes),
      )
  | inr (other, held) ↦
      let (e, refuses) = documented.refuses pid other h held in
      elim e
          as (λ e.
            kernel.lock_file_ex pid 3 all_bytes all_bytes h ≡ (0, e, h)
            → (((lock kernel faults.write_pid pid h).0 ≡ ok tt)
                ↔ ((lockfile_new faults pid h).0 ≡ ok tt))
              × ((lock kernel faults.write_pid pid h).1 ≡ (lockfile_new faults pid h).1)) [
                | none ↦ λ call. (
                  (
                    λ good. ground (arith, held, call, good),
                    λ good. ground (arith, held, call, good),
                  ),
                  ground (arith, held, call),
                )
                | some x ↦ λ call. (
                  (
                    λ good. ground (arith, held, call, good),
                    λ good. ground (arith, held, call, good),
                  ),
                  ground (arith, held, call),
                )
              ]
        refuses
]
