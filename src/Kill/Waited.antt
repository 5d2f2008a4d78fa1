-- ===== src/Kill/Waited.antt =====
-- A kill that succeeds has sent its signal and waited for the run of the container to end.
use nsbox.Base.{
  ℕ, ◌==◌, ◌<◌, Text, [], ◌∷◌, Bool, true, false, ◌&&◌, Option, none, some, Errno, str_eq,
  str_eq_iff, if◌then◌else◌, Result, ok, err, panic, wrap_err, reject, >>=-eq-ok, Bool-cases, ◌≡◌,
  ◌≢◌, ◌⊎◌, inl, inr, refl, sym, ◌∙◌, ap, subst, arith, codes,
}
use nsbox.Container.Data.{Container}
use nsbox.Container.Lock.{
  wait_for_lock, run_lock, Owner, fd, other_process, Table, Outcome, done, waits, lock_path,
  lock_rest, lock, lock_one, lock_lower, release, freed, flock, try_flock, try_open, try_create,
  opened, after_call, next_fault,
}
use nsbox.Container.Lock.Taken.{IsWellFormed}
use nsbox.Userdata.Username.{machine_name}
use nsbox.Kill.{Machined, Signal, send_signal, kill, released, go_on, wait_if, kill_container}

-- The signal was sent: by machined to all processes of the machine, or to its leader alone.
abbrev pub SentTo : Machined → Text → Signal → Bool → Type 0
SentTo machined machine signal true = machined.kill_machine machine signal ≡ ok tt
SentTo machined machine signal false =
    (leader : ℕ) × (machined.leader machine ≡ ok leader)
    × (machined.signal_process leader signal ≡ ok tt)

abbrev pub IsTaken : Option Owner → Type 0
IsTaken o = (x : Owner) × (o ≡ some x)

-- The locks that are let go are not of a descriptor to come.
abbrev pub EndsWell : Option (Text → Option Owner) → Table → Type 0
EndsWell none b = Unit
EndsWell (some holder) b = (p : Text) (n : ℕ) → holder p ≡ some (fd n) → n < b.next_fd

-- The lock was free, or was let go and then free; who holds what is as it was then.
abbrev pub IsOver : Machined → Text → Table → Table → Type 0
IsOver machined path b t =
    ((b.holder path ≡ none) × ((p : Text) → t.holder p ≡ b.holder p))
    ⊎ ((holder : Text → Option Owner) × (machined.run_ends ≡ some holder)
        × (holder path ≡ none)
        × ((p : Text) → t.holder p ≡ holder p))

-- The lock is held and stays held.
abbrev pub IsHeldOn : Option (Text → Option Owner) → Text → Type 0
IsHeldOn none path = Unit
IsHeldOn (some holder) path = IsTaken (holder path)

abbrev pub Waited :
    Machined → Text → Container → Signal → Bool → Table → Outcome (Unit {0}) × Table → Type 0
Waited machined username ct signal all b (done (ok a), t) =
    SentTo machined (machine_name username ct.name) signal all
    × IsOver machined (lock_path ct.path run_lock) b t
Waited machined username ct signal all b (done (err e), t) = (p : Text) → t.holder p ≡ b.holder p
Waited machined username ct signal all b (done (panic m), t) = (p : Text) → t.holder p ≡ b.holder p
Waited machined username ct signal all b (waits, t) =
    SentTo machined (machine_name username ct.name) signal all
    × IsTaken (b.holder (lock_path ct.path run_lock))
    × IsHeldOn machined.run_ends (lock_path ct.path run_lock)

wrapped-eq-ok : (message : Text) (r : Result (Unit {0})) → wrap_err message r ≡ ok tt → r ≡ ok tt
wrapped-eq-ok message (ok a) e = refl
wrapped-eq-ok message (err x) e = cc e
wrapped-eq-ok message (panic m) e = cc e

named-eq-ok : (message : Text) (r : Result ℕ) {n : ℕ} → wrap_err message r ≡ ok n → r ≡ ok n
named-eq-ok message (ok a) e = e
named-eq-ok message (err x) e = cc e
named-eq-ok message (panic m) e = cc e

send_signal-SentTo :
    (machined : Machined) (machine : Text) (signal : Signal) (all : Bool)
    → send_signal machined machine signal all ≡ ok tt
    → SentTo machined machine signal all
unfolding send_signal
send_signal-SentTo machined machine signal true e = wrapped-eq-ok _ _ e
send_signal-SentTo machined machine signal false e =
    let (n, l, e1) =
      >>=-eq-ok (wrap_err (codes "failed to describe machine") (machined.leader machine)) _ e in
    let (_, f, e2) =
      >>=-eq-ok (wrap_err (codes "failed to find leader process") (machined.find_process n)) _ e1 in
    (n, named-eq-ok _ _ l, wrapped-eq-ok _ _ e2)

kill-SentTo :
    (machined : Machined) (username : Text) (ct : Container) (signal : Signal) (all : Bool)
    → kill machined username ct signal all ≡ ok tt
    → SentTo machined (machine_name username ct.name) signal all
unfolding kill
kill-SentTo machined username ct signal all e =
    let (_, _, e1) = >>=-eq-ok (reject (ct.config.boot && all) _) _ e in
    let (_, _, e2) = >>=-eq-ok machined.connect _ e1 in
    send_signal-SentTo machined (machine_name username ct.name) signal all e2

-- Taking a free lock and giving it back changes nothing.
freed-fresh : (n : ℕ) (o : Option Owner) → o ≢ some (fd n) → freed (n ∷ []) o ≡ o
freed-fresh n none h = refl
freed-fresh n (some other_process) h = refl
freed-fresh n (some (fd m)) h = elim (Bool-cases (n == m)) [
  | inl e ↦ let same : n ≡ m = ground (arith, e) in absurd (h (ap (λ k. some (fd k)) (sym same)))
  | inr e ↦ ground (arith, e)
]

restored :
    (n : ℕ) (h : Text → Option Owner) (path p : Text)
    → h path ≡ none
    → ((q : Text) → h q ≢ some (fd n))
    → freed (n ∷ []) (if str_eq path p then some (fd n) else h p) ≡ h p
restored n h path p free fresh = elim (Bool-cases (str_eq path p)) [
  | inl e ↦
      let at : h p ≡ none = ap h (sym ((str_eq_iff path p).0 e)) ∙ free in rw (e, at) (ground arith)
  | inr e ↦ rw e (freed-fresh n (h p) (fresh p))
]

to_come :
    (n : ℕ) (h : Text → Option Owner)
    → ((p : Text) (m : ℕ) → h p ≡ some (fd m) → m < n)
    → (q : Text) → h q ≢ some (fd n)
to_come n h wf q e = absurd (omega (arith, wf q n e))

module _ (machined : Machined) (username : Text) (ct : Container) (signal : Signal) (all : Bool)
    (b : Table) (wf : IsWellFormed b) (ends : EndsWell machined.run_ends b)
    (sent : SentTo machined (machine_name username ct.name) signal all) where
  abbrev run_path : Text
  run_path = lock_path ct.path run_lock

  abbrev IsDone : Outcome (Unit {0}) × Table → Type 0
  IsDone r = Waited machined username ct signal all b r

  -- A flock that waited and goes on.
  woken :
      (t : Table) (run_ends : Option (Text → Option Owner))
      → machined.run_ends ≡ run_ends
      → EndsWell run_ends b
      → IsTaken (b.holder run_path)
      → IsDone (go_on run_ends run_path b.next_fd (waits, t))
  unfolding release str_eq
  woken t none e well held = (sent, held, subst (λ r. IsHeldOn r run_path) (sym e) tt)
  woken t (some holder) e well held = by_holder (holder run_path) refl
    where
      by_holder :
          (o : Option Owner)
          → holder run_path ≡ o
          → IsDone (
              lock_rest
                (λ m t'. (done (ok tt), release (m ∷ []) t'))
                (flock wait_for_lock run_path b.next_fd o (record t { holder = holder })))
      by_holder none free = (
        sent,
        inr (
          holder,
          e,
          free,
          λ p. restored b.next_fd holder run_path p free (to_come b.next_fd holder well),
        ),
      )
      by_holder (some x) taken = (sent, held, subst (λ r. IsHeldOn r run_path) (sym e) (x, taken))

  abbrev IsGood : Outcome ℕ × Table → Type 0
  IsGood r = IsDone (
      go_on machined.run_ends run_path b.next_fd
        (released (lock_rest (λ n t'. lock_lower ct.path wait_for_lock [] (n ∷ []) t') r)))

  flocked :
      (t : Table) (o : Option Owner)
      → b.holder run_path ≡ o
      → IsGood (flock wait_for_lock run_path b.next_fd o (record t { holder = b.holder }))
  unfolding release str_eq lock_lower
  flocked t none free = (
    sent,
    inl (free, λ p. restored b.next_fd b.holder run_path p free (to_come b.next_fd b.holder wf)),
  )
  flocked t (some x) taken =
      woken (record t { holder = b.holder }) machined.run_ends refl ends (x, taken)

  -- The faults of the three calls in turn.
  tried_flock :
      (f : Option Errno) (t : Table)
      → IsGood (try_flock f wait_for_lock run_path b.next_fd (record t { holder = b.holder }))
  tried_flock none t = flocked t (b.holder run_path) refl
  tried_flock (some e) t = λ p. refl

  tried_open :
      (f : Option Errno) (t : Table)
      → IsGood
          (try_open f wait_for_lock run_path (record t { holder = b.holder; next_fd = b.next_fd }))
  tried_open none t =
      tried_flock (next_fault t.faults) (opened (after_call (record t { next_fd = b.next_fd })))
  tried_open (some e) t = λ p. refl

  tried_create :
      (f : Option Errno) (t : Table)
      → IsGood (
          try_create f wait_for_lock run_path (record t { holder = b.holder; next_fd = b.next_fd }))
  tried_create none t = tried_open (next_fault t.faults) (after_call t)
  tried_create (some e) t = λ p. refl

  waited : IsDone (wait_if machined ct (ok tt) b)
  unfolding lock lock_one
  waited = tried_create (next_fault b.faults) (after_call b)

-- If KillContainer succeeds, the signal was sent, by machined to all processes or to the leader alone as
-- asked, and the lock of the container's run was free, or was let go while the call waited and was free
-- then; who holds what is as it was when the lock was got. If it fails, who holds what is as before. It
-- is still waiting only if the signal was sent and the lock is held and not let go. No lock is held by a
-- descriptor to come, beforehand or when the run ends.
pub kill_container-Waited :
    (machined : Machined) (username : Text) (ct : Container) (signal : Signal) (all : Bool)
    (b : Table)
    → IsWellFormed b
    → EndsWell machined.run_ends b
    → Waited machined username ct signal all b (kill_container machined username ct signal all b)
unfolding kill_container
kill_container-Waited machined username ct signal all b wf ends =
    killed (kill machined username ct signal all) refl
  where
    killed :
        (r : Result (Unit {0}))
        → kill machined username ct signal all ≡ r
        → Waited machined username ct signal all b (wait_if machined ct r b)
    killed (ok a) e =
        waited machined username ct signal all b wf ends
          (kill-SentTo machined username ct signal all e)
    killed (err x) e = λ p. refl
    killed (panic m) e = λ p. refl
