-- ===== src/Agent/Start/Exclusion.antt =====
-- At most one agent at a time, whatever the order of the steps of several processes.
use credential_helper.Base.{ℕ, ◌≡◌, ◌≢◌, refl, Option, none, some, if◌then◌else◌, arith, ◌==◌}
use credential_helper.Text.{Text}
use credential_helper.Errors.{Error, ok}
use credential_helper.Agent.Start.{
  Host, Faults, lockfile_new, remove_socket, listen, close_listener, lockfile_close,
  new_caching_agent,
}

-- Where a process stands: not in the agent's code, with the lock, with the old socket removed,
-- serving, with its listener closed, or with the lock and an error, about to exit.
pub data Stage : Type 0 where
  outside locked ready serving closed failed : Stage

pub record Machine : Type 0 where
  pub host : Host
  pub stage : ℕ → Stage

abbrev pub set : (ℕ → Stage) → ℕ → Stage → ℕ → Stage
set stages i s j = if i == j then s else stages j

-- A step of process `i`, for a socket that is a file. The calls of the operating system may fail; a
-- process that ends, as it does after an error, leaves its lock and keeps its socket file.
pub data Step (m : Machine) : Machine → Type 0 where
  take_lock :
      (i : ℕ) (faults : Faults)
      → m.stage i ≡ outside
      → (lockfile_new faults i m.host).0 ≡ ok tt
      → Step m (record { host = (lockfile_new faults i m.host).1; stage = set m.stage i locked })
  fail_to_write :
      (i : ℕ) (faults : Faults) (e : Error)
      → m.stage i ≡ outside
      → faults.open_lock ≡ none
      → faults.write_pid ≡ some e
      → m.host.holder ≡ none
      → Step m (record { host = (lockfile_new faults i m.host).1; stage = set m.stage i failed })
  clear_socket :
      (i : ℕ) (faults : Faults)
      → m.stage i ≡ locked
      → Step m (record { host = remove_socket faults m.host; stage = set m.stage i ready })
  start_listening :
      (i : ℕ) (faults : Faults)
      → m.stage i ≡ ready
      → (listen faults i m.host).0 ≡ ok tt
      → Step m (record { host = (listen faults i m.host).1; stage = set m.stage i serving })
  stop_listening :
      (i : ℕ)
      → m.stage i ≡ serving
      → Step m (record { host = close_listener m.host; stage = set m.stage i closed })
  unlock :
      (i : ℕ) (fault : Option Error)
      → m.stage i ≡ closed
      → Step m (record { host = (lockfile_close fault m.host).1; stage = set m.stage i outside })
  exit :
      (i : ℕ)
      → m.stage i ≢ outside
      → Step m (record { host = record m.host { holder = none }; stage = set m.stage i outside })

pub data Reach (m : Machine) : Machine → Type 0 where
  here : Reach m m
  next : {n o : Machine} → Reach m n → Step n o → Reach m o

-- No process is an agent, whatever socket file an earlier one left.
abbrev pub at_rest : Option ℕ → Machine
at_rest socket = record { host = record { holder = none; socket = socket }; stage = λ _. outside }

record Inv (m : Machine) : Type 0 where
  held : (i : ℕ) → m.stage i ≢ outside → m.host.holder ≡ some i
  owned : (i : ℕ) → m.stage i ≡ serving → m.host.socket ≡ some i

lockfile_new-ok :
    (faults : Faults) (i : ℕ) (h : Host)
    → (lockfile_new faults i h).0 ≡ ok tt
    → (h.holder ≡ none) × ((lockfile_new faults i h).1 ≡ record h { holder = some i })
unfolding lockfile_new
lockfile_new-ok faults i h good = (ground arith, ground arith)

lockfile_new-write_pid :
    (faults : Faults) (i : ℕ) (h : Host) (e : Error)
    → faults.open_lock ≡ none
    → faults.write_pid ≡ some e
    → h.holder ≡ none
    → (lockfile_new faults i h).1 ≡ record h { holder = some i }
unfolding lockfile_new
lockfile_new-write_pid faults i h e opened unwritten free = ground arith

listen-ok :
    (faults : Faults) (i : ℕ) (h : Host)
    → (listen faults i h).0 ≡ ok tt
    → (listen faults i h).1 ≡ record h { socket = some i }
unfolding listen
listen-ok faults i h good = ground arith

lockfile_close-holder :
    (fault : Option Error) (h : Host) → (lockfile_close fault h).1 ≡ record h { holder = none }
unfolding lockfile_close
lockfile_close-holder none h = refl
lockfile_close-holder (some e) h = refl

Step-Inv : {m n : Machine} → Step m n → Inv m → Inv n
Step-Inv {m} (take_lock i faults e good) h =
    let (free, made) = lockfile_new-ok faults i m.host good in
    rw made (record {
      held = λ j n. ground (arith, h.held j, free);
      owned = λ j n. ground (arith, h.held j, h.owned j, free);
    })
Step-Inv {m} (fail_to_write i faults x e opened unwritten free) h =
    rw (lockfile_new-write_pid faults i m.host x opened unwritten free) (record {
      held = λ j n. ground (arith, h.held j, free);
      owned = λ j n. ground (arith, h.held j, h.owned j, free);
    })
Step-Inv (clear_socket i faults e) h = record {
  held = λ j n. ground (arith, h.held j, h.held i);
  owned = λ j n. ground (arith, h.held j, h.held i, h.owned j);
}
Step-Inv {m} (start_listening i faults e good) h = rw (listen-ok faults i m.host good) (record {
  held = λ j n. ground (arith, h.held j, h.held i);
  owned = λ j n. ground (arith, h.held j, h.held i, h.owned j);
})
Step-Inv (stop_listening i e) h = record {
  held = λ j n. ground (arith, h.held j, h.held i);
  owned = λ j n. ground (arith, h.held j, h.held i, h.owned j);
}
Step-Inv {m} (unlock i fault e) h = rw (lockfile_close-holder fault m.host) (record {
  held = λ j n. ground (arith, h.held j, h.held i);
  owned = λ j n. ground (arith, h.held j, h.held i, h.owned j);
})
Step-Inv (exit i e) h = record {
  held = λ j n. ground (arith, h.held j, h.held i);
  owned = λ j n. ground (arith, h.held j, h.held i, h.owned j);
}

Reach-Inv : {m n : Machine} → Inv m → Reach m n → Inv n
Reach-Inv h here = h
Reach-Inv h (next r st) = Step-Inv st (Reach-Inv h r)

-- Whatever the order of the steps of several processes, at most one is an agent, from its lock to
-- its unlock, and the socket of a serving agent is the one that it made.
pub one_agent :
    (socket : Option ℕ) {m : Machine}
    → Reach (at_rest socket) m
    → ((i j : ℕ) → m.stage i ≢ outside → m.stage j ≢ outside → i ≡ j)
      × ((i : ℕ) → m.stage i ≡ serving → m.host.socket ≡ some i)
one_agent socket r =
    let h = Reach-Inv (record { held = λ i n. absurd (n refl); owned = λ i n. ground arith }) r in
    (λ i j n k. ground (arith, h.held i n, h.held j k), h.owned)

-- While a process has the lock, another cannot start an agent: it gets an error, and leaves the lock
-- and the socket as they are.
pub new_caching_agent_refused :
    (faults : Faults) (socket_path : Text) (i j : ℕ) (h : Host)
    → h.holder ≡ some i
    → ((new_caching_agent faults socket_path j h).0 ≢ ok tt)
      × ((new_caching_agent faults socket_path j h).1 ≡ h)
unfolding new_caching_agent lockfile_new
new_caching_agent_refused faults socket_path i j h taken = (ground arith, ground arith)
