-- ===== src/Container/Lock/Exclusion.antt =====
-- What a lock that was taken means for the locks and the release that follow.
use nsbox.Base.{
  ℕ, ◌<◌, Text, List, ◌∷◌, Bool, true, false, Option, none, some, Result, Error, ok, err, panic,
  ◌≡◌, ◌≢◌, refl, sym, ◌∙◌, ap, subst, arith,
}
use mathlib.Core.Bool.{true≢false}
use nsbox.Container.Lock.{
  LockWaitRequest, wait_for_lock, no_wait_for_lock, LockLevel, run_lock, exports_lock, config_lock,
  full_container_lock, Owner, fd, Table, Outcome, done, waits, lock_path, release, lower_levels,
  lock_rest, lock, lock_and_delete, deleted, other_process,
}
use nsbox.Container.Lock.Taken.{IsWellFormed}
use nsbox.Container.Lock.Whole.{
  Kept, same, taken, IsHeld, held, Locked, locked, not_locked, waiting, Took, NewFds, release-Took,
  none≢taken,
}
use nsbox.Container.Lock.Atomic.{HeldAll, lock-Locked}

abbrev number : Option Owner → ℕ
number none = 0
number (some other_process) = 0
number (some (fd n)) = n

-- The levels whose files a lock takes.
pub data Takes : LockLevel → LockLevel → Type 0 where
  itself : {l : LockLevel} → Takes l l
  run_too : Takes full_container_lock run_lock
  exports_too : Takes full_container_lock exports_lock
  config_too : Takes full_container_lock config_lock

pub data IsRefused : Outcome (List ℕ) → Type 0 where
  refused : {e : Error} → IsRefused (done (err e))

abbrev Success : Text → List LockLevel → Table → Outcome (List ℕ) × Table → Type 0
Success path levels b (done (ok fds), t) = Took fds b t × HeldAll path fds t levels
Success path levels b (done (err e), t) = Unit
Success path levels b (done (panic m), t) = Unit
Success path levels b (waits, t) = Unit

success :
    (path : Text) (levels : List LockLevel) (wait : LockWaitRequest) (b : Table)
    (o : Outcome (List ℕ) × Table)
    → Locked wait path levels b o
    → Success path levels b o
success path levels wait b o (locked fds t took hs) = (took, hs)
success path levels wait b o (not_locked s) = tt
success path levels wait b o (waiting w) = tt

locked-Success :
    (path : Text) (level : LockLevel) (wait : LockWaitRequest) (b : Table) (fds : List ℕ)
    (t : Table)
    → IsWellFormed b
    → lock path level wait b ≡ (done (ok fds), t)
    → Took fds b t × HeldAll path fds t (level ∷ lower_levels level)
locked-Success path level wait b fds t wf e =
    subst (Success path (level ∷ lower_levels level) b) e (
      success path (level ∷ lower_levels level) wait b (lock path level wait b)
        (lock-Locked path level wait b wf))

Took-IsWellFormed : (fds : List ℕ) (b t : Table) → IsWellFormed b → Took fds b t → IsWellFormed t
Took-IsWellFormed fds b t wf (le, (news, kept)) p n e = go (b.holder p) (t.holder p) refl (kept p) e
  where
    go : (o o' : Option Owner) → b.holder p ≡ o → Kept fds o o' → o' ≡ some (fd n) → n < t.next_fd
    go o o' q same e' = omega (arith, le, wf p n (q ∙ e'))
    go o o' q (taken m i) e' = subst (λ k. k < t.next_fd) (ap number e') (news m i).1

HeldAll-Takes :
    (path : Text) (fds : List ℕ) (t : Table) (level l : LockLevel)
    → Takes level l
    → HeldAll path fds t (level ∷ lower_levels level)
    → IsHeld fds (t.holder (lock_path path l))
HeldAll-Takes path fds t level l itself (h, hs) = h
HeldAll-Takes path fds t level l run_too (h, (run, hs)) = run
HeldAll-Takes path fds t level l exports_too (h, (run, (exports, hs))) = exports
HeldAll-Takes path fds t level l config_too (h, (run, (exports, (config, hs)))) = config

abbrev waits_too : LockWaitRequest → Bool
waits_too wait_for_lock = true
waits_too no_wait_for_lock = false

-- A holder that is there before is no new one.
held_before :
    (fds : List ℕ) (b t : Table) (p : Text) {o o' : Option Owner}
    → IsWellFormed b
    → NewFds fds b t
    → b.holder p ≡ o
    → o ≢ none
    → Kept fds o o'
    → IsHeld fds o'
    → ⊥
held_before fds b t p wf news e busy same (held n i) =
    absurd (omega (arith, wf p n e, (news n i).0))
held_before fds b t p wf news e busy (taken m j) h = busy refl

IsHeld-taken : (fds : List ℕ) {o : Option Owner} → IsHeld fds o → o ≢ none
IsHeld-taken fds (held n i) = none≢taken

lock_held-IsRefused :
    (path : Text) (level l : LockLevel) (t : Table)
    → IsWellFormed t
    → Takes level l
    → t.holder (lock_path path l) ≢ none
    → IsRefused (lock path level no_wait_for_lock t).0
lock_held-IsRefused path level l t wf takes busy =
    go (lock path level no_wait_for_lock t) (lock-Locked path level no_wait_for_lock t wf)
  where
    go :
        (o : Outcome (List ℕ) × Table)
        → Locked no_wait_for_lock path (level ∷ lower_levels level) t o
        → IsRefused o.0
    go o (locked fds t' (le, (news, kept)) hs) = absurd (
        held_before fds t t' (lock_path path l) wf news refl busy (kept (lock_path path l))
          (HeldAll-Takes path fds t' level l takes hs))
    go o (not_locked s) = refused
    go o (waiting w) = absurd (true≢false (sym (ap waits_too w)))

-- After a lock was taken, where no lock was held by a descriptor to come, one that does not wait for it
-- and shares a file with it is refused. The two may be of different levels: a full lock shares the
-- file of every level.
pub lock-excludes :
    (path : Text) (level level' l : LockLevel) (wait : LockWaitRequest) (b : Table) (fds : List ℕ)
    (t : Table)
    → IsWellFormed b
    → lock path level wait b ≡ (done (ok fds), t)
    → Takes level l
    → Takes level' l
    → IsRefused (lock path level' no_wait_for_lock t).0
lock-excludes path level level' l wait b fds t wf e takes takes' =
    (let (took, hs) = locked-Success path level wait b fds t wf e in
      lock_held-IsRefused path level' l t (Took-IsWellFormed fds b t wf took) takes'
        (IsHeld-taken fds (HeldAll-Takes path fds t level l takes hs)))

-- What LockAndDelete leaves: the holders from before, or a wait that was asked for.
pub data Restored (wait : LockWaitRequest) (b : Table) : Outcome (Unit {0}) × Table → Type 0 where
  restored :
      {r : Result (Unit {0})} {t : Table}
      → ((p : Text) → t.holder p ≡ b.holder p)
      → Restored wait b (done r, t)
  waiting_still : {t : Table} → wait ≡ wait_for_lock → Restored wait b (waits, t)

-- A deletion of a container leaves no lock behind: whether the lock or the deletion fails or not, who
-- holds what is as before, unless it waits for a lock, which it does only where that is asked for. No
-- lock is held by a descriptor to come beforehand.
pub lock_and_delete-Restored :
    (delete : Table → Result (Unit {0})) (path : Text) (wait : LockWaitRequest) (b : Table)
    → IsWellFormed b
    → Restored wait b (lock_and_delete delete path wait b)
unfolding lock_and_delete
lock_and_delete-Restored delete path wait b wf =
    go (lock path full_container_lock wait b) (lock-Locked path full_container_lock wait b wf)
  where
    go :
        (o : Outcome (List ℕ) × Table)
        → Locked wait path (full_container_lock ∷ lower_levels full_container_lock) b o
        → Restored wait b (lock_rest (λ fds t. (done (deleted (delete t)), release fds t)) o)
    go o (locked fds t took hs) = restored (release-Took fds b t wf took)
    go o (not_locked s) = restored s
    go o (waiting w) = waiting_still w
