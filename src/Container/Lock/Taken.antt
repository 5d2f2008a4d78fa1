-- ===== src/Container/Lock/Taken.antt =====
-- One lock of a file: it is taken where nobody held it, or nothing changes.
use nsbox.Base.{
  ℕ, ◌≤◌, ◌<◌, Text, Option, none, some, str_eq, if◌then◌else◌, Error, Errno, ok, err, ◌≡◌, refl,
  sym, ◌∙◌, ap, arith,
}
use nsbox.Container.Lock.{
  LockWaitRequest, wait_for_lock, no_wait_for_lock, LockLevel, run_lock, exports_lock, config_lock,
  full_container_lock, Owner, fd, Table, Outcome, done, waits, lock_path, next_fault, after_call,
  opened, flock, try_flock, try_open, try_create, lock_one,
}

-- No lock is held on a descriptor that is not open yet.
abbrev pub IsWellFormed : Table → Type 0
IsWellFormed t = (p : Text) (n : ℕ) → t.holder p ≡ some (fd n) → n < t.next_fd

-- The table has the same locks as the one before, and no fewer descriptors have been opened.
abbrev pub Same : Table → Table → Type 0
Same b t = (b.next_fd ≤ t.next_fd) × ((p : Text) → t.holder p ≡ b.holder p)

-- What a call may lead to, from the table `b`.
pub data Tried (wait : LockWaitRequest) (path : Text) (b : Table) : Outcome ℕ × Table → Type 0 where
  got :
      {t : Table} (n : ℕ)
      → b.next_fd ≤ n
      → n < t.next_fd
      → b.holder path ≡ none
      → ((p : Text) → t.holder p ≡ (if str_eq path p then some (fd n) else b.holder p))
      → Tried wait path b (done (ok n), t)
  refused : {e : Error} {t : Table} → Same b t → Tried wait path b (done (err e), t)
  stuck : {t : Table} → wait ≡ wait_for_lock → Same b t → Tried wait path b (waits, t)

module _ (wait : LockWaitRequest) (path : Text) (b : Table) where
  flock-Tried :
      (o : Option Owner) (n : ℕ) (t : Table)
      → t.holder path ≡ o
      → b.next_fd ≤ n
      → n < t.next_fd
      → Same b t
      → Tried wait path b (flock wait path n o t)
  flock-Tried none n t e low high (le, same) =
      got n low high (sym (same path) ∙ e)
        (λ p. ap (λ o. if str_eq path p then some (fd n) else o) (same p))
  flock-Tried (some o) n t e low high s = wait_case wait
    where
      wait_case :
          (request : LockWaitRequest) → Tried request path b (flock request path n (some o) t)
      wait_case no_wait_for_lock = refused s
      wait_case wait_for_lock = stuck refl s

  try_flock-Tried :
      (f : Option Errno) (n : ℕ) (t : Table)
      → b.next_fd ≤ n
      → n < t.next_fd
      → Same b t
      → Tried wait path b (try_flock f wait path n t)
  try_flock-Tried (some e) n t low high s = refused s
  try_flock-Tried none n t low high s = flock-Tried (t.holder path) n t refl low high s

  try_open-Tried :
      (f : Option Errno) (t : Table) → Same b t → Tried wait path b (try_open f wait path t)
  try_open-Tried (some e) t s = refused s
  try_open-Tried none t (le, same) =
      try_flock-Tried (next_fault t.faults) t.next_fd (opened (after_call t)) le (omega arith)
        (omega (arith, le), same)

  try_create-Tried :
      (f : Option Errno) (t : Table) → Same b t → Tried wait path b (try_create f wait path t)
  try_create-Tried (some e) t s = refused s
  try_create-Tried none t s = try_open-Tried (next_fault t.faults) (after_call t) s

pub lock_one-Tried :
    (path : Text) (level : LockLevel) (wait : LockWaitRequest) (t : Table)
    → Tried wait (lock_path path level) t (lock_one path level wait t)
unfolding lock_one
lock_one-Tried path full_container_lock wait t =
    try_open-Tried wait (lock_path path full_container_lock) t (next_fault t.faults) (after_call t)
      (omega arith, λ p. refl)
lock_one-Tried path run_lock wait t =
    try_create-Tried wait (lock_path path run_lock) t (next_fault t.faults) (after_call t)
      (omega arith, λ p. refl)
lock_one-Tried path exports_lock wait t =
    try_create-Tried wait (lock_path path exports_lock) t (next_fault t.faults) (after_call t)
      (omega arith, λ p. refl)
lock_one-Tried path config_lock wait t =
    try_create-Tried wait (lock_path path config_lock) t (next_fault t.faults) (after_call t)
      (omega arith, λ p. refl)
