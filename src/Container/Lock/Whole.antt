-- ===== src/Container/Lock/Whole.antt =====
-- What several locks have taken since a table, and what a release gives back.
use nsbox.Base.{
  ℕ, ◌≤◌, ◌<◌, Text, List, [], ◌∷◌, ◌++◌, Bool, true, false, ◌||◌, ◌==◌, Option, none, some, str_eq,
  str_eq_iff, if◌then◌else◌, All, Error, ok, err, ◌≡◌, ◌≢◌, ◌⊎◌, inl, inr, refl, sym, ◌∙◌, ap,
  subst, arith,
}
use mathlib.Core.Bool.{true≢false}
use nsbox.Container.Lock.{
  LockWaitRequest, wait_for_lock, LockLevel, Owner, fd, other_process, Table, Outcome, done, waits,
  lock_path, is_in, freed, release,
}
use nsbox.Container.Lock.Taken.{IsWellFormed}

-- The holder of a file before and after: the same, or a new descriptor where nobody held it.
pub data Kept (fds : List ℕ) : Option Owner → Option Owner → Type 0 where
  same : {o : Option Owner} → Kept fds o o
  taken : (n : ℕ) → is_in fds n ≡ true → Kept fds none (some (fd n))

pub data IsHeld (fds : List ℕ) : Option Owner → Type 0 where
  held : (n : ℕ) → is_in fds n ≡ true → IsHeld fds (some (fd n))

abbrev pub NewFds : List ℕ → Table → Table → Type 0
NewFds fds b t = (n : ℕ) → is_in fds n ≡ true → (b.next_fd ≤ n) × (n < t.next_fd)

-- What has been locked since the table `b`.
abbrev pub Took : List ℕ → Table → Table → Type 0
Took fds b t =
    (b.next_fd ≤ t.next_fd) × (NewFds fds b t × ((p : Text) → Kept fds (b.holder p) (t.holder p)))

is_in-append : (fds : List ℕ) (n m : ℕ) → is_in (fds ++ n ∷ []) m ≡ (is_in fds m || (n == m))
is_in-append [] n m = ground arith
is_in-append (k ∷ fds) n m = ground (arith, is_in-append fds n m)

Kept-append :
    (fds : List ℕ) (n : ℕ) {o o' : Option Owner} → Kept fds o o' → Kept (fds ++ n ∷ []) o o'
Kept-append fds n same = same
Kept-append fds n (taken m e) = taken m (ground (arith, is_in-append fds n m))

abbrev is_taken : Option Owner → Bool
is_taken none = false
is_taken (some o) = true

pub none≢taken : {o : Owner} → some o ≢ none
none≢taken q = true≢false (ap is_taken q)

Kept-new :
    (fds : List ℕ) (n : ℕ) {o o' : Option Owner}
    → Kept fds o o'
    → o' ≡ none
    → Kept (fds ++ n ∷ []) o (some (fd n))
Kept-new fds n (taken m e) q = absurd (none≢taken q)
Kept-new fds n (same {o = o}) q =
    subst (λ x. Kept (fds ++ n ∷ []) x (some (fd n))) (sym q)
      (taken n (ground (arith, is_in-append fds n n)))

pub true_or_false : (c : Bool) → (c ≡ true) ⊎ (c ≡ false)
true_or_false true = inl refl
true_or_false false = inr refl

or_true : (c : Bool) {d : Bool} → (c || d) ≡ true → (c ≡ true) ⊎ (d ≡ true)
or_true true e = inl refl
or_true false e = inr e

eq_of_test : (n m : ℕ) → (n == m) ≡ true → n ≡ m
eq_of_test n m e = ground (arith, e)

str_eq-true : (p q : Text) → str_eq p q ≡ true → p ≡ q
str_eq-true p q e = ground (arith, str_eq_iff p q)

-- One lock more.
pub Took-got :
    (fds : List ℕ) (path : Text) (n : ℕ) (b t t' : Table)
    → Took fds b t
    → t.next_fd ≤ n
    → n < t'.next_fd
    → t.holder path ≡ none
    → ((p : Text) → t'.holder p ≡ (if str_eq path p then some (fd n) else t.holder p))
    → Took (fds ++ n ∷ []) b t'
Took-got fds path n b t t' (le, (news, kept)) low high free holder =
    (omega (arith, le, low, high), (new, kept_at))
  where
    new : NewFds (fds ++ n ∷ []) b t'
    new m e = elim (or_true (is_in fds m) (sym (is_in-append fds n m) ∙ e)) [
      | inl q ↦ (let (lo, hi) = news m q in (lo, omega (arith, hi, low, high)))
      | inr q ↦ (omega (arith, le, low, eq_of_test n m q), omega (arith, high, eq_of_test n m q))
    ]

    kept_at : (p : Text) → Kept (fds ++ n ∷ []) (b.holder p) (t'.holder p)
    kept_at p = elim (true_or_false (str_eq path p)) [
      | inl q ↦
          subst (Kept (fds ++ n ∷ []) (b.holder p))
            (sym (holder p ∙ ap (λ c. if c then some (fd n) else t.holder p) q))
            (Kept-new fds n (kept p) (ap t.holder (sym (str_eq-true path p q)) ∙ free))
      | inr q ↦
          subst (Kept (fds ++ n ∷ []) (b.holder p))
            (sym (holder p ∙ ap (λ c. if c then some (fd n) else t.holder p) q))
            (Kept-append fds n (kept p))
    ]

-- What a lock leads to: the descriptors hold every file and took only free ones, or nothing changed.
pub data Locked (wait : LockWaitRequest) (path : Text) (levels : List LockLevel) (b : Table)
    : Outcome (List ℕ) × Table → Type 0 where
  locked :
      (fds : List ℕ) (t : Table)
      → Took fds b t
      → All (λ l. IsHeld fds (t.holder (lock_path path l))) levels
      → Locked wait path levels b (done (ok fds), t)
  not_locked :
      {e : Error} {t : Table}
      → ((p : Text) → t.holder p ≡ b.holder p)
      → Locked wait path levels b (done (err e), t)
  waiting : {t : Table} → wait ≡ wait_for_lock → Locked wait path levels b (waits, t)

IsHeld-append : (fds : List ℕ) (n : ℕ) {o : Option Owner} → IsHeld fds o → IsHeld (fds ++ n ∷ []) o
IsHeld-append fds n (held m e) = held m (ground (arith, is_in-append fds n m))

IsHeld-got :
    (fds : List ℕ) (path : Text) (n : ℕ) (t t' : Table)
    → ((p : Text) → t'.holder p ≡ (if str_eq path p then some (fd n) else t.holder p))
    → (p : Text) → (str_eq path p ≡ true) ⊎ IsHeld fds (t.holder p)
    → IsHeld (fds ++ n ∷ []) (t'.holder p)
IsHeld-got fds path n t t' holder p had =
    subst (IsHeld (fds ++ n ∷ [])) (sym (holder p)) (by_test (str_eq path p) had)
  where
    by_test :
        (c : Bool)
        → (c ≡ true) ⊎ IsHeld fds (t.holder p)
        → IsHeld (fds ++ n ∷ []) (if c then some (fd n) else t.holder p)
    by_test true had = held n (ground (arith, is_in-append fds n n))
    by_test false (inl q) = absurd (true≢false (sym q))
    by_test false (inr h) = IsHeld-append fds n h

module _ (path : Text) where
  pub All-got :
      (fds : List ℕ) (taken_path : Text) (n : ℕ) (t t' : Table)
      → ((p : Text) → t'.holder p ≡ (if str_eq taken_path p then some (fd n) else t.holder p))
      → (had : List LockLevel) (level : LockLevel) → str_eq taken_path (lock_path path level) ≡ true
      → All (λ l. IsHeld fds (t.holder (lock_path path l))) had
      → All (λ l. IsHeld (fds ++ n ∷ []) (t'.holder (lock_path path l))) (had ++ level ∷ [])
  All-got fds taken_path n t t' holder [] level q hs =
      (IsHeld-got fds taken_path n t t' holder (lock_path path level) (inl q), tt)
  All-got fds taken_path n t t' holder (l ∷ had) level q (h, hs) = (
    IsHeld-got fds taken_path n t t' holder (lock_path path l) (inr h),
    All-got fds taken_path n t t' holder had level q hs,
  )

-- Release gives back what was taken since the table `b`.
freed-Kept :
    (fds : List ℕ) (b t : Table)
    → IsWellFormed b
    → NewFds fds b t
    → (p : Text) {o o' : Option Owner} → b.holder p ≡ o
    → Kept fds o o'
    → freed fds o' ≡ o
freed-Kept fds b t wf news p e (taken n q) = ap (λ c. if c then none else some (fd n)) q
freed-Kept fds b t wf news p e (same {o = none}) = refl
freed-Kept fds b t wf news p e (same {o = some other_process}) = refl
freed-Kept fds b t wf news p e (same {o = some (fd n)}) = elim (true_or_false (is_in fds n)) [
  | inl q ↦ absurd (omega (arith, wf p n e, (news n q).0))
  | inr q ↦ ap (λ c. if c then none else some (fd n)) q
]

pub release-Took :
    (fds : List ℕ) (b t : Table)
    → IsWellFormed b
    → Took fds b t
    → (p : Text) → (release fds t).holder p ≡ b.holder p
unfolding release
release-Took fds b t wf (le, (news, kept)) p = freed-Kept fds b t wf news p refl (kept p)
