-- ===== src/Daemon/Mkdir/OnePart.antt =====
-- One directory of MkdirAllOwnedByUser: what stands at each path after it was made, or was there.
use nsbox.Base.{
  ℕ, Text, List, [], ◌∷◌, Bool, true, false, Option, none, some, str_eq, str_eq_iff, str_eq_refl,
  ◌||◌, Result, Errno, ok, ◌≡◌, refl, sym, subst, ◌∙◌, arith, Bool-cases, inl, inr,
}
use nsbox.Os.{Inode, dir, World, syscall, mkdir, chown}
use nsbox.Daemon.Mkdir.{make_part}

-- What stands at a path afterwards: what stood there, or else a directory of the user.
abbrev pub or_owned : Option Inode → Bool → ℕ → ℕ → ℕ → Option Inode
or_owned (some i) on_the_way uid gid perm = some i
or_owned none true uid gid perm = some (record { node = dir; uid = uid; gid = gid; mode = perm })
or_owned none false uid gid perm = none

module _ (path : Text) (uid gid perm : ℕ) (at : Text → Option Inode) where
  -- One directory, by what stands there and by the faults.
  abbrev pub part_at : List (Option Errno) → Result (Unit {0}) × World
  part_at faults = make_part path uid gid perm (record { at = at; faults = faults })

  part_at-there :
      (faults : List (Option Errno)) {j : Inode} (p : Text)
      → at path ≡ some j
      → ((part_at faults).1).at p ≡ at p
  unfolding make_part mkdir chown syscall
  part_at-there [] p h = rw h refl
  part_at-there (none ∷ faults) p h = rw h refl
  part_at-there (some e ∷ faults) p h = ground arith

  part_at-new :
      (faults : List (Option Errno)) (p : Text)
      → at path ≡ none
      → str_eq path p ≡ false
      → ((part_at faults).1).at p ≡ at p
  unfolding make_part mkdir chown syscall
  part_at-new [] p h n = rw (h, str_eq_refl path, n) refl
  part_at-new (none ∷ []) p h n = rw (h, str_eq_refl path, n) refl
  part_at-new (none ∷ none ∷ faults) p h n = rw (h, str_eq_refl path, n) refl
  part_at-new (none ∷ some e ∷ faults) p h n = rw h (rw n refl)
  part_at-new (some e ∷ faults) p h n = ground arith

  part_at-owned :
      at path ≡ none
      → ((part_at []).0 ≡ ok tt)
        × ((part_at []).1.faults ≡ [])
        × ((part_at []).1.at path ≡ some (record { node = dir; uid = uid; gid = gid; mode = perm }))
  unfolding make_part mkdir chown syscall
  part_at-owned h = rw (h, str_eq_refl path) (ground (arith, str_eq_refl path))

  part_at-known :
      {j : Inode} → at path ≡ some j → ((part_at []).0 ≡ ok tt) × ((part_at []).1.faults ≡ [])
  unfolding make_part mkdir chown syscall
  part_at-known h = rw h (refl, refl)

-- Nothing that is there changes, whatever fails.
pub part-keeps :
    (path : Text) (uid gid perm : ℕ) (w : World) (p : Text) (i : Inode)
    → w.at p ≡ some i
    → (make_part path uid gid perm w).1.at p ≡ some i
part-keeps path uid gid perm w p i h = go (w.at path) refl
  where
    go : (o : Option Inode) → w.at path ≡ o → (make_part path uid gid perm w).1.at p ≡ some i
    go (some j) k = part_at-there path uid gid perm w.at w.faults p k ∙ h
    go none k = elim (Bool-cases (str_eq path p)) [
      | inl q ↦ absurd (ground (arith, h, k, (str_eq_iff path p).0 q))
      | inr q ↦ part_at-new path uid gid perm w.at w.faults p k q ∙ h
    ]

pub or_owned_away : (o : Option Inode) (uid gid perm : ℕ) → or_owned o false uid gid perm ≡ o
or_owned_away (some i) uid gid perm = refl
or_owned_away none uid gid perm = refl

pub or_owned_twice :
    (o : Option Inode) (b c : Bool) (uid gid perm : ℕ)
    → or_owned (or_owned o b uid gid perm) c uid gid perm ≡ or_owned o (b || c) uid gid perm
or_owned_twice (some i) b c uid gid perm = refl
or_owned_twice none true c uid gid perm = refl
or_owned_twice none false c uid gid perm = refl

-- With no failure, one directory is there afterwards, and is the user's if it is new.
pub part-owned :
    (path : Text) (uid gid perm : ℕ) (at : Text → Option Inode) (p : Text)
    → (part_at path uid gid perm at []).1.at p ≡ or_owned (at p) (str_eq path p) uid gid perm
part-owned path uid gid perm at p = go (at path) refl
  where
    go :
        (o : Option Inode)
        → at path ≡ o
        → (part_at path uid gid perm at []).1.at p ≡ or_owned (at p) (str_eq path p) uid gid perm
    go (some j) k = elim (Bool-cases (str_eq path p)) [
      | inl q ↦
          let there : at p ≡ some j = subst (λ x. at x ≡ some j) ((str_eq_iff path p).0 q) k in
          rw (part_at-there path uid gid perm at [] p k, there) refl
      | inr q ↦
          rw (part_at-there path uid gid perm at [] p k, q)
            (sym (or_owned_away (at p) uid gid perm))
    ]
    go none k = elim (Bool-cases (str_eq path p)) [
      | inl q ↦
          let here = (str_eq_iff path p).0 q in
          rw (← here, k, str_eq_refl path)
            (let (_, _, here_now) = part_at-owned path uid gid perm at k in here_now)
      | inr q ↦
          rw (part_at-new path uid gid perm at [] p k q, q)
            (sym (or_owned_away (at p) uid gid perm))
    ]

pub part-ok :
    (path : Text) (uid gid perm : ℕ) (at : Text → Option Inode)
    → ((part_at path uid gid perm at []).0 ≡ ok tt)
      × ((part_at path uid gid perm at []).1.faults ≡ [])
part-ok path uid gid perm at = go (at path) refl
  where
    go :
        (o : Option Inode)
        → at path ≡ o
        → ((part_at path uid gid perm at []).0 ≡ ok tt)
          × ((part_at path uid gid perm at []).1.faults ≡ [])
    go (some j) k = part_at-known path uid gid perm at k
    go none k = let (r, f, _) = part_at-owned path uid gid perm at k in (r, f)
