-- ===== src/Os/Results.antt =====
-- What calls leave behind, by their results.
use nsbox.Base.{
  ℕ, Text, List, [], ◌∷◌, ◌++◌, true, false, drop, length, Option, none, some, str_eq_refl,
  if◌then◌else◌, Result, Errno, ok, err, panic, errno, wrap_err, ◌≡◌, ◌⊎◌, inl, inr, refl, sym, ap,
  ◌∙◌, append-nil,
}
use nsbox.Os.{file, dir, link, Node, Inode, World, continue, ◌>>◌, syscall}
use nsbox.Os.Calls.{
  below, is_dir, create, create_at, cut, write_part, write, write_at, rename, rename_at, moved,
}

-- A result that is not `ok` is no success.
abbrev pub Fails {ℓ} : {A : Type ℓ} → Result A → Type 0
Fails (ok a) = ⊥
Fails (err e) = Unit
Fails (panic m) = Unit

drop-length {ℓ} : {A : Type ℓ} (s : List A) → drop (length s) s ≡ []
drop-length [] = refl
drop-length (x ∷ s) = drop-length s

pub below_self : (p : Text) → below p p ≡ true
unfolding below
below_self p = rw str_eq_refl refl

moved_there : (old new : Text) (w : World) → (moved old new w).at new ≡ w.at old
moved_there old new w = rw (below_self new, drop-length new, append-nil) refl

-- A rename puts what stood at the old path at the new one, or fails and changes nothing.
abbrev pub Renamed : Text → Text → World → Result (Unit {0}) × World → Type 0
Renamed old new w r =
    ((r.0 ≡ ok tt) × (r.1.at new ≡ w.at old)) ⊎ (Fails r.0 × ((p : Text) → r.1.at p ≡ w.at p))

rename_at-Renamed :
    (o there : Option Inode) (old new : Text) (w : World)
    → Renamed old new w (rename_at o there old new w)
rename_at-Renamed none there old new w = inr (tt, λ p. refl)
rename_at-Renamed (some i) none old new w = inl (refl, moved_there old new w)
rename_at-Renamed (some i) (some j) old new w =
    elim (is_dir j)
      as (λ b. Renamed old new w (
        if b
        then (err (errno Errno.eexist), w)
        else if is_dir i
        then (err (errno (Errno.other 20)), w)
        else (ok tt, moved old new w))) [
          | true ↦ inr (tt, λ p. refl)
          | false ↦
              elim (is_dir i)
                as (λ b.
                  Renamed old new w
                    (if b then (err (errno (Errno.other 20)), w) else (ok tt, moved old new w))) [
                      | true ↦ inr (tt, λ p. refl)
                      | false ↦ inl (refl, moved_there old new w)
                    ]
        ]

pub rename-Renamed : (old new : Text) (w : World) → Renamed old new w (rename old new w)
unfolding rename syscall
rename-Renamed old new w = go w.faults
  where
    go :
        (faults : List (Option Errno))
        → Renamed old new w (rename old new (record { at = w.at; faults = faults }))
    go [] = rename_at-Renamed (w.at old) (w.at new) old new (record { at = w.at; faults = [] })
    go (none ∷ faults) =
        rename_at-Renamed (w.at old) (w.at new) old new (record { at = w.at; faults = faults })
    go (some e ∷ faults) = inr (tt, λ p. refl)

-- A regular file with this content.
abbrev pub Holds : Text → Option Inode → Type 0
Holds text o = (i : Inode) × (o ≡ some i) × (i.node ≡ file text)

-- A file with the text stands at the path, or the call failed.
abbrev pub Written : Text → Text → Result (Unit {0}) × World → Type 0
Written path text r = ((r.0 ≡ ok tt) × Holds text (r.1.at path)) ⊎ Fails r.0

create_at-Written :
    (o : Option Inode) (path : Text) (perm : ℕ) (w : World)
    → Written path [] (create_at o path perm w)
create_at-Written none path perm w =
    inl
      (refl, (record { node = file []; uid = 0; gid = 0; mode = perm }, rw str_eq_refl refl, refl))
create_at-Written (some i) path perm w = go i.node
  where
    go : (n : Node) → Written path [] (create_at (some (record i { node = n })) path perm w)
    go (file s) = inl (refl, (record i { node = file [] }, rw str_eq_refl refl, refl))
    go dir = inr tt
    go (link t) = inr tt

write_at-Written :
    (o : Option Inode) (path s text : Text) (w : World)
    → Holds s o
    → Written path (s ++ text) (write_at o path text w)
write_at-Written o path s text w (i, e, n) =
    rw (e, n) (inl (refl, (record i { node = file (s ++ text) }, rw str_eq_refl refl, refl)))

abbrev ending : Text × Option Errno × List (Option Errno) → Option Errno
ending (part, end, later) = end

abbrev written : Text × Option Errno × List (Option Errno) → Text
written (part, end, later) = part

-- A write that no fault ends writes everything.
cut-whole :
    (fs : List (Option Errno)) (text : Text)
    → ending (cut fs text) ≡ none
    → written (cut fs text) ≡ text
unfolding cut
cut-whole [] text e = refl
cut-whole (f ∷ fs) [] e = refl
cut-whole (none ∷ fs) (c ∷ text) e = ap (λ t. c ∷ t) (cut-whole fs text e)
cut-whole (some x ∷ fs) (c ∷ text) e = cc e

module _ (path : Text) where
  pub create-Written : (perm : ℕ) (w : World) → Written path [] (create path perm w)
  unfolding create syscall
  create-Written perm w = go w.faults
    where
      go :
          (faults : List (Option Errno))
          → Written path [] (create path perm (record { at = w.at; faults = faults }))
      go [] = create_at-Written (w.at path) path perm (record { at = w.at; faults = [] })
      go (none ∷ faults) =
          create_at-Written (w.at path) path perm (record { at = w.at; faults = faults })
      go (some e ∷ faults) = inr tt

  pub write-Written :
      (s text : Text) (w : World)
      → Holds s (w.at path)
      → Written path (s ++ text) (write path text w)
  unfolding write syscall
  write-Written s text w h = go (cut w.faults text) refl
    where
      whole_at :
          (part : Text) (later : List (Option Errno))
          → part ≡ text
          → Written path (s ++ text) (write_at (w.at path) path part (record w { faults = later }))
      whole_at part later e =
          rw e (write_at-Written (w.at path) path s text (record w { faults = later }) h)

      go :
          (c : Text × Option Errno × List (Option Errno))
          → cut w.faults text ≡ c
          → Written path (s ++ text) (write_part c path w)
      go (part, none, later) e =
          whole_at part later (sym (ap written e) ∙ cut-whole w.faults text (ap ending e))
      go (part, some x, later) e = inr tt

  -- Both in a row, as a new file is written.
  pub create-write-Written :
      (perm : ℕ) (text : Text) (w : World)
      → Written path text ((create path perm >> write path text) w)
  create-write-Written perm text w =
      go (create path perm w).0 (create path perm w).1 (create-Written perm w)
    where
      go :
          (r : Result (Unit {0})) (w' : World)
          → Written path [] (r, w')
          → Written path text (continue r (λ _. write path text) w')
      go (ok a) w' (inl (e, h)) = write-Written [] text w' h
      go (ok a) w' (inr f) = absurd f
      go (err e) w' h = inr tt
      go (panic m) w' h = inr tt

-- An error that is wrapped is still one.
pub Fails-wrap : (message : Text) (r : Result (Unit {0})) → Fails r → Fails (wrap_err message r)
Fails-wrap message (ok a) f = f
Fails-wrap message (err e) f = tt
Fails-wrap message (panic m) f = tt
