-- ===== src/Container/Lock/Atomic.antt =====
-- A lock as a whole: all of its files, or none.
use nsbox.Base.{
  ℕ, Text, List, [], ◌∷◌, ◌++◌, str_eq_iff, All, ok, append-nil, append_assoc, refl, sym, subst,
  arith,
}
use mathlib.Core.Bool.{true≢false}
use nsbox.Container.Lock.{
  LockWaitRequest, LockLevel, Table, Outcome, done, lock_path, lock_one, lower_step, lock_lower,
  lower_levels, lock_rest, lock,
}
use nsbox.Container.Lock.Taken.{IsWellFormed, Tried, got, refused, stuck, lock_one-Tried}
use nsbox.Container.Lock.Whole.{
  Kept, same, IsHeld, Locked, locked, not_locked, waiting, Took, Took-got, All-got, release-Took,
}

abbrev pub HeldAll : Text → List ℕ → Table → List LockLevel → Type 0
HeldAll path fds t levels = All (λ l. IsHeld fds (t.holder (lock_path path l))) levels

abbrev Next :
    Text
    → LockWaitRequest
    → List LockLevel
    → Table
    → List ℕ
    → List LockLevel
    → (ℕ → Table → Outcome (List ℕ) × Table)
    → Type 0
Next path wait levels b fds had next =
    (n : ℕ) (t : Table)
    → Took (fds ++ n ∷ []) b t
    → HeldAll path (fds ++ n ∷ []) t had
    → Locked wait path levels b (next n t)

module _ (path : Text) (wait : LockWaitRequest) (b : Table) (wf : IsWellFormed b) where
  lower_step-Locked :
      (fds : List ℕ) (levels had : List LockLevel) (level : LockLevel) (t : Table)
      (o : Outcome ℕ × Table) (next : ℕ → Table → Outcome (List ℕ) × Table)
      → Took fds b t
      → HeldAll path fds t had
      → Next path wait levels b fds (had ++ level ∷ []) next
      → Tried wait (lock_path path level) t o
      → Locked wait path levels b (lower_step fds next o)
  lower_step-Locked fds levels had level t o next took hs then_next
        (got {t = t'} n low high free holder) =
      then_next n t' (Took-got fds (lock_path path level) n b t t' took low high free holder) (
        All-got path fds (lock_path path level) n t t' holder had level
          ((str_eq_iff (lock_path path level) (lock_path path level)).1 refl) hs)
  lower_step-Locked fds levels had level t o next (le, (news, kept)) hs then_next
        (refused {t = t'} (more, same_locks)) =
      not_locked (
        release-Took fds b t' wf (
          omega (arith, le, more),
          (
            λ n q. ((news n q).0, omega (arith, more, (news n q).1)),
            λ p. subst (Kept fds (b.holder p)) (sym (same_locks p)) (kept p),
          ),
        ))
  lower_step-Locked fds levels had level t o next took hs then_next (stuck w s) = waiting w

  lock_lower-Locked :
      (todo had : List LockLevel) (fds : List ℕ) (t : Table)
      → Took fds b t
      → HeldAll path fds t had
      → Locked wait path (had ++ todo) b (lock_lower path wait todo fds t)
  unfolding lock_lower
  lock_lower-Locked [] had fds t (le, (news, kept)) hs =
      subst (λ ls. Locked wait path ls b (done (ok fds), t)) (sym (append-nil had))
        (locked fds t (le, (news, kept)) hs)
  lock_lower-Locked (level ∷ todo) had fds t took hs =
      lower_step-Locked fds (had ++ level ∷ todo) had level t (lock_one path level wait t)
        (λ n t'. lock_lower path wait todo (fds ++ n ∷ []) t') took hs
        (λ n t' took' hs'.
          subst (λ ls. Locked wait path ls b (lock_lower path wait todo (fds ++ n ∷ []) t'))
            (append_assoc had (level ∷ []) todo)
            (lock_lower-Locked todo (had ++ level ∷ []) (fds ++ n ∷ []) t' took' hs'))
        (lock_one-Tried path level wait t)

  lock_rest-Locked :
      (level : LockLevel) (o : Outcome ℕ × Table)
      → Tried wait (lock_path path level) b o
      → Locked wait path
          (level ∷ lower_levels level)
          b
          (lock_rest (λ n t'. lock_lower path wait (lower_levels level) (n ∷ []) t') o)
  lock_rest-Locked level o (got {t = t'} n low high free holder) =
      lock_lower-Locked (lower_levels level) (level ∷ []) (n ∷ []) t'
        (Took-got [] (lock_path path level) n b b t'
          (omega arith, (λ m q. absurd (true≢false (sym q)), λ p. same)) low high free holder)
        (All-got path [] (lock_path path level) n b t' holder [] level
          ((str_eq_iff (lock_path path level) (lock_path path level)).1 refl) tt)
  lock_rest-Locked level o (refused (more, same_locks)) = not_locked same_locks
  lock_rest-Locked level o (stuck w s) = waiting w

-- A lock of a level, of a full one with the levels below, holds every file of these by a new
-- descriptor of its own where nobody held it, or fails with every holder as before. It waits only if
-- that is asked for. This holds whatever calls fail, where no lock is held by a descriptor to come.
pub lock-Locked :
    (path : Text) (level : LockLevel) (wait : LockWaitRequest) (b : Table)
    → IsWellFormed b
    → Locked wait path (level ∷ lower_levels level) b (lock path level wait b)
unfolding lock
lock-Locked path level wait b wf =
    lock_rest-Locked path wait b wf level (lock_one path level wait b)
      (lock_one-Tried path level wait b)
