-- ===== src/Container/Lock.antt =====
-- internal/container/container.go, Lock: locks on files of the container's directory, by flock. A lock
-- belongs to an open descriptor and ends when that is closed.
pub mod Taken
pub mod Whole
pub mod Atomic
pub mod Exclusion
use nsbox.Base.{
  ℕ, suc, Text, List, [], ◌∷◌, ◌++◌, codes, Bool, true, false, any, not, ◌==◌, str_eq,
  if◌then◌else◌, Option, none, some, Result, Error, Errno, ewouldblock, ok, err, panic, errorf,
  errno, wrap, wrap_err, filter_out,
}
use nsbox.FilePath.{join_path}

pub data LockWaitRequest : Type 0 where
  wait_for_lock no_wait_for_lock : LockWaitRequest

pub data LockLevel : Type 0 where
  run_lock exports_lock config_lock full_container_lock : LockLevel

-- Who holds the lock of a file: a descriptor of this process, or another process.
pub data Owner : Type 0 where
  fd : ℕ → Owner
  other_process : Owner

-- Descriptors are numbered as they are opened. A call fails if the next fault says so.
pub record Table : Type 0 where
  pub next_fd : ℕ
  pub open_fds : List ℕ
  pub holder : Text → Option Owner
  pub faults : List (Option Errno)

-- A call that waits for a lock does not return before the lock is free.
pub data Outcome {ℓ} (A : Type ℓ) : Type ℓ where
  done : Result A → Outcome A
  waits : Outcome A

unfoldable pub lock_name : LockLevel → Text
lock_name run_lock = codes "run"
lock_name exports_lock = codes "exports"
lock_name config_lock = codes "config"
lock_name full_container_lock = []

unfoldable pub lock_path : Text → LockLevel → Text
unfolding lock_name
lock_path path full_container_lock = path
lock_path path run_lock = join_path (path ∷ (lock_name run_lock ++ codes ".lock") ∷ [])
lock_path path exports_lock = join_path (path ∷ (lock_name exports_lock ++ codes ".lock") ∷ [])
lock_path path config_lock = join_path (path ∷ (lock_name config_lock ++ codes ".lock") ∷ [])

-- The fault of the next call, and the table without it.
abbrev pub next_fault : List (Option Errno) → Option Errno
next_fault [] = none
next_fault (f ∷ faults) = f

abbrev pub later_faults : List (Option Errno) → List (Option Errno)
later_faults [] = []
later_faults (f ∷ faults) = faults

abbrev pub after_call : Table → Table
after_call t = record t { faults = later_faults t.faults }

-- unix.Open: a new descriptor.
abbrev pub opened : Table → Table
opened t = record t { next_fd = suc t.next_fd; open_fds = t.next_fd ∷ t.open_fds }

abbrev pub hold : Text → ℕ → Table → Table
hold path n t = record t { holder = λ p. if str_eq path p then some (fd n) else t.holder p }

abbrev pub locked_error : Error
locked_error = errorf (codes "container is locked")

-- unix.Flock on a descriptor, by who holds the lock of its file.
abbrev pub flock : LockWaitRequest → Text → ℕ → Option Owner → Table → Outcome ℕ × Table
flock wait path n none t = (done (ok n), hold path n t)
flock no_wait_for_lock path n (some o) t = (done (err locked_error), t)
flock wait_for_lock path n (some o) t = (waits, t)

-- The error of a fault of Flock.
abbrev pub flock_error : Errno → Error
flock_error ewouldblock = locked_error
flock_error e = wrap (errno e) (codes "failed to lock container directory")

abbrev pub try_flock : Option Errno → LockWaitRequest → Text → ℕ → Table → Outcome ℕ × Table
try_flock (some e) wait path n t = (done (err (flock_error e)), t)
try_flock none wait path n t = flock wait path n (t.holder path) t

abbrev pub try_open : Option Errno → LockWaitRequest → Text → Table → Outcome ℕ × Table
try_open (some e) wait path t =
    (done (err (wrap (errno e) (codes "failed to open container directory"))), t)
try_open none wait path t =
    try_flock (next_fault t.faults) wait path t.next_fd (opened (after_call t))

-- os.Create of the lock file, whose content does not matter.
abbrev pub try_create : Option Errno → LockWaitRequest → Text → Table → Outcome ℕ × Table
try_create (some e) wait path t = (done (err (wrap (errno e) (codes "create lock file"))), t)
try_create none wait path t = try_open (next_fault t.faults) wait path (after_call t)

-- The first part of Lock: one file, without the levels below.
unfoldable pub lock_one : Text → LockLevel → LockWaitRequest → Table → Outcome ℕ × Table
lock_one path full_container_lock wait t =
    try_open (next_fault t.faults) wait (lock_path path full_container_lock) (after_call t)
lock_one path level wait t =
    try_create (next_fault t.faults) wait (lock_path path level) (after_call t)

-- Release: each descriptor is closed.
abbrev pub is_in : List ℕ → ℕ → Bool
is_in fds n = any (λ m. m == n) fds

abbrev pub freed : List ℕ → Option Owner → Option Owner
freed fds none = none
freed fds (some other_process) = some other_process
freed fds (some (fd n)) = if is_in fds n then none else some (fd n)

unfoldable pub release : List ℕ → Table → Table
release fds t = record t {
  open_fds = filter_out (is_in fds) t.open_fds;
  holder = λ p. freed fds (t.holder p);
}

-- A round of the loop over the lower levels, by the result of its lock.
abbrev pub lower_step :
    List ℕ → (ℕ → Table → Outcome (List ℕ) × Table) → Outcome ℕ × Table → Outcome (List ℕ) × Table
lower_step fds next (done (ok n), t) = next n t
lower_step fds next (done (err e), t) =
    (done (err (wrap e (codes "locking lower level lock"))), release fds t)
lower_step fds next (done (panic m), t) = (done (panic m), t)
lower_step fds next (waits, t) = (waits, t)

unfoldable pub lock_lower :
    Text → LockWaitRequest → List LockLevel → List ℕ → Table → Outcome (List ℕ) × Table
lock_lower path wait [] fds t = (done (ok fds), t)
lock_lower path wait (level ∷ levels) fds t =
    lower_step fds (λ n t'. lock_lower path wait levels (fds ++ n ∷ []) t')
      (lock_one path level wait t)

abbrev pub lower_levels : LockLevel → List LockLevel
lower_levels full_container_lock = run_lock ∷ exports_lock ∷ config_lock ∷ []
lower_levels level = []

abbrev pub lock_rest {ℓ κ} :
    {A : Type ℓ} {B : Type κ}
    → (A → Table → Outcome B × Table)
    → Outcome A × Table
    → Outcome B × Table
lock_rest next (done (ok n), t) = next n t
lock_rest next (done (err e), t) = (done (err e), t)
lock_rest next (done (panic m), t) = (done (panic m), t)
lock_rest next (waits, t) = (waits, t)

-- Container.Lock: the descriptors of the lock.
unfoldable pub lock : Text → LockLevel → LockWaitRequest → Table → Outcome (List ℕ) × Table
lock path level wait t =
    lock_rest (λ n t'. lock_lower path wait (lower_levels level) (n ∷ []) t')
      (lock_one path level wait t)

-- LockUntilProcessDeath: the descriptors are left open.
unfoldable pub lock_until_process_death :
    Text → LockLevel → LockWaitRequest → Table → Outcome (Unit {0}) × Table
unfolding lock
lock_until_process_death path level wait t =
    lock_rest (λ fds t'. (done (ok tt), t')) (lock path level wait t)

-- LockAndDelete, with what `delete` answers for os.RemoveAll under the lock.
abbrev pub deleted : Result (Unit {0}) → Result (Unit {0})
deleted r = wrap_err (codes "failure during container deletion") r

unfoldable pub lock_and_delete :
    (Table → Result (Unit {0})) → Text → LockWaitRequest → Table → Outcome (Unit {0}) × Table
unfolding lock release
lock_and_delete delete path wait t =
    lock_rest (λ fds t'. (done (deleted (delete t')), release fds t'))
      (lock path full_container_lock wait t)
