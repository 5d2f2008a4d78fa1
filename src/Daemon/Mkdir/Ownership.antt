-- ===== src/Daemon/Mkdir/Ownership.antt =====
-- Whose directories MkdirAllOwnedByUser makes, and what it leaves alone.
use nsbox.Base.{
  ℕ, Text, List, [], ◌∷◌, codes, true, false, any, some, str_eq, if◌then◌else◌, split, drop, Result,
  ok, err, panic, ◌≡◌, refl, sym, subst, ◌∙◌, Bool-cases, inl, inr,
}
use nsbox.FilePath.{slash, is_abs, join_path}
use nsbox.Os.{Inode, continue, World, Sys}
use nsbox.Daemon.Mkdir.OnePart.{
  or_owned, part_at, part-keeps, or_owned_away, or_owned_twice, part-owned, part-ok,
}
use nsbox.Daemon.Mkdir.{make_part, make_parts, mkdir_all_owned_by_user}

-- The directories on the way, from the root down.
abbrev pub prefixes : Text → List Text → List Text
prefixes root [] = []
prefixes root (part ∷ parts) = let path = join_path (root ∷ part ∷ []) in path ∷ prefixes path parts

abbrev pub directories : Text → List Text
directories path =
    if is_abs path
    then prefixes (codes "/") (drop 1 (split slash path))
    else prefixes [] (split slash path)

parts-keep :
    (root : Text) (parts : List Text) (uid gid perm : ℕ) (w : World) (p : Text) (i : Inode)
    → w.at p ≡ some i
    → (make_parts root parts uid gid perm w).1.at p ≡ some i
unfolding make_parts
parts-keep root [] uid gid perm w p i h = h
parts-keep root (part ∷ parts) uid gid perm w p i h =
    let path = join_path (root ∷ part ∷ []) in
    let (r, w') = make_part path uid gid perm w in
    let kept : w'.at p ≡ some i = part-keeps path uid gid perm w p i h in
    continue-keeps r (make_parts path parts uid gid perm) w' kept
      (parts-keep path parts uid gid perm w' p i kept)
  where
    continue-keeps :
        (r : Result (Unit {0})) (k : Sys (Unit {0})) (w' : World)
        → w'.at p ≡ some i
        → (k w').1.at p ≡ some i
        → (continue r (λ _. k) w').1.at p ≡ some i
    continue-keeps (ok tt) k w' here there = there
    continue-keeps (err e) k w' here there = here
    continue-keeps (panic m) k w' here there = here

parts-owned :
    (root : Text) (parts : List Text) (uid gid perm : ℕ) (w : World) (p : Text)
    → w.faults ≡ []
    → ((make_parts root parts uid gid perm w).0 ≡ ok tt)
      × ((make_parts root parts uid gid perm w).1.faults ≡ [])
      × ((make_parts root parts uid gid perm w).1.at p
          ≡ or_owned (w.at p) (any (λ q. str_eq q p) (prefixes root parts)) uid gid perm)
unfolding make_parts
parts-owned root [] uid gid perm w p none_fails =
    (refl, none_fails, sym (or_owned_away (w.at p) uid gid perm))
parts-owned root (part ∷ parts) uid gid perm w p none_fails =
    let path = join_path (root ∷ part ∷ []) in
    let (r, w') = make_part path uid gid perm w in
    let (fine, no_more) : (r ≡ ok tt) × (w'.faults ≡ []) =
      subst
        (λ fs.
          ((part_at path uid gid perm w.at fs).0 ≡ ok tt)
          × ((part_at path uid gid perm w.at fs).1.faults ≡ []))
        (sym none_fails) (part-ok path uid gid perm w.at) in
    let owned : w'.at p ≡ or_owned (w.at p) (str_eq path p) uid gid perm =
      subst
        (λ fs.
          (part_at path uid gid perm w.at fs).1.at p
          ≡ or_owned (w.at p) (str_eq path p) uid gid perm)
        (sym none_fails) (part-owned path uid gid perm w.at p) in
    let (fine_then, no_more_then, there) = parts-owned path parts uid gid perm w' p no_more in
    rw fine (
      fine_then,
      no_more_then,
      there
          ∙ (rw owned (
              or_owned_twice (w.at p) (str_eq path p) (any (λ q. str_eq q p) (prefixes path parts))
                uid gid perm)),
    )

-- Whatever fails, what stood at a path before the call stands there afterwards as it was: its kind,
-- its owner and its mode.
pub mkdir_all-keeps :
    (path : Text) (uid gid perm : ℕ) (w : World) (p : Text) (i : Inode)
    → w.at p ≡ some i
    → (mkdir_all_owned_by_user path uid gid perm w).1.at p ≡ some i
unfolding mkdir_all_owned_by_user
mkdir_all-keeps path uid gid perm w p i h =
    elim (is_abs path)
      as (λ b.
        ((if b
              then make_parts (codes "/") (drop 1 (split slash path)) uid gid perm
              else make_parts [] (split slash path) uid gid perm)
            w).1.at
          p
        ≡ some i) [
          | true ↦ parts-keep (codes "/") (drop 1 (split slash path)) uid gid perm w p i h
          | false ↦ parts-keep [] (split slash path) uid gid perm w p i h
        ]

module _ (path : Text) (uid gid perm : ℕ) (w : World) (p : Text) (none_fails : w.faults ≡ []) where
  pub mkdir_all-runs :
      ((mkdir_all_owned_by_user path uid gid perm w).0 ≡ ok tt)
      × ((mkdir_all_owned_by_user path uid gid perm w).1.faults ≡ [])
      × ((mkdir_all_owned_by_user path uid gid perm w).1.at p
          ≡ or_owned (w.at p) (any (λ q. str_eq q p) (directories path)) uid gid perm)
  unfolding mkdir_all_owned_by_user
  mkdir_all-runs = elim (Bool-cases (is_abs path)) [
    | inl a ↦ rw a (parts-owned (codes "/") (drop 1 (split slash path)) uid gid perm w p none_fails)
    | inr a ↦ rw a (parts-owned [] (split slash path) uid gid perm w p none_fails)
  ]

-- If no call fails for a reason of its own, the result is no error, and at every path stands
-- afterwards what stood there before, or else, on the way to the path given, a directory with the
-- owner and mode asked for, and elsewhere nothing.
pub mkdir_all-owned :
    (path : Text) (uid gid perm : ℕ) (w : World) (p : Text)
    → w.faults ≡ []
    → ((mkdir_all_owned_by_user path uid gid perm w).0 ≡ ok tt)
      × ((mkdir_all_owned_by_user path uid gid perm w).1.at p
          ≡ or_owned (w.at p) (any (λ q. str_eq q p) (directories path)) uid gid perm)
mkdir_all-owned path uid gid perm w p none_fails =
    let (fine, _, there) = mkdir_all-runs path uid gid perm w p none_fails in (fine, there)
