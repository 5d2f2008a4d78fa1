-- ===== src/Os/Frame.antt =====
-- What a program leaves alone: a path that no call of it touches.
use nsbox.Base.{
  ℕ, Text, List, [], ◌∷◌, Bool, true, false, Option, none, some, str_eq, if◌then◌else◌, Result,
  Errno, ok, err, panic, ◌≡◌, refl, ◌∙◌, ap, arith, ◌⊎◌, inl, inr, ◌≢◌,
}
use mathlib.Core.Bool.{true≢false}
use nsbox.Os.{Inode, World, Sys, continue, ◌>>=◌, trying, syscall}
use nsbox.Os.Calls.{
  below, stat, lstat, readlink, read_file, remove, remove_all, mkdir_all, create, write, chmod,
  symlink, resolve, found, read_link, content, remove_at, create_at, cut, ended_by, write_part,
  write_at, chmod_at, symlink_at, rename_at, mkdir_all_at,
}

-- What stands at the path is the same afterwards, whatever it was and whatever fails.
abbrev pub Leaves {ℓ} : {A : Type ℓ} → Text → Sys A → Type 0
Leaves p m = (w : World) → (m w).1.at p ≡ w.at p

module _ {ℓ} {A : Type ℓ} (p : Text) where
  pub Leaves-syscall :
      (call : World → Result A × World)
      → ((w : World) → (call w).1.at p ≡ w.at p)
      → Leaves p (syscall call)
  unfolding syscall
  Leaves-syscall call h w = go w.faults
    where
      go :
          (faults : List (Option Errno))
          → (syscall call (record { at = w.at; faults = faults })).1.at p ≡ w.at p
      go [] = h (record { at = w.at; faults = [] })
      go (none ∷ faults) = h (record { at = w.at; faults = faults })
      go (some e ∷ faults) = refl

  pub Leaves-trying {κ} :
      {B : Type κ} (m : Sys A) (f : Result A → Sys B)
      → Leaves p m
      → ((r : Result A) → Leaves p (f r))
      → Leaves p (trying m f)
  Leaves-trying m f hm hf w = hf (m w).0 (m w).1 ∙ hm w

  pub Leaves->>= {κ} :
      {B : Type κ} (m : Sys A) (f : A → Sys B)
      → Leaves p m
      → ((a : A) → Leaves p (f a))
      → Leaves p (m >>= f)
  Leaves->>= m f hm hf w = go (m w).0 (m w).1 (hm w)
    where
      go : (r : Result A) (w' : World) → w'.at p ≡ w.at p → (continue r f w').1.at p ≡ w.at p
      go (ok a) w' h = hf a w' ∙ h
      go (err e) w' h = h
      go (panic m) w' h = h

  pub Leaves-if : (b : Bool) (m n : Sys A) → Leaves p m → Leaves p n → Leaves p (if b then m else n)
  Leaves-if true m n hm hn = hm
  Leaves-if false m n hm hn = hn

module _ (p path : Text) where
  stat-keeps : (o : Option Inode) (w : World) → (found o w).1.at p ≡ w.at p
  stat-keeps none w = refl
  stat-keeps (some i) w = refl

  pub Leaves-stat : Leaves p (stat path)
  unfolding stat
  Leaves-stat = Leaves-syscall p _ (λ w. stat-keeps (w.at (resolve w path)) w)

  pub Leaves-lstat : Leaves p (lstat path)
  unfolding lstat
  Leaves-lstat = Leaves-syscall p _ (λ w. stat-keeps (w.at path) w)

  readlink-keeps : (o : Option Inode) (w : World) → (read_link o w).1.at p ≡ w.at p
  readlink-keeps none w = refl
  readlink-keeps (some i) w = ground arith

  pub Leaves-readlink : Leaves p (readlink path)
  unfolding readlink
  Leaves-readlink = Leaves-syscall p _ (λ w. readlink-keeps (w.at path) w)

  pub read_file-keeps : (o : Option Inode) (w : World) → (content o w).1.at p ≡ w.at p
  read_file-keeps none w = refl
  read_file-keeps (some i) w = ground arith

  pub Leaves-read_file : Leaves p (read_file path)
  unfolding read_file
  Leaves-read_file = Leaves-syscall p _ (λ w. read_file-keeps (w.at path) w)

-- The calls that change one path.
module _ (p path : Text) (away : str_eq path p ≡ false) where
  remove-keeps : (o : Option Inode) (w : World) → (remove_at o path w).1.at p ≡ w.at p
  remove-keeps none w = refl
  remove-keeps (some i) w = rw away refl

  pub Leaves-remove : Leaves p (remove path)
  unfolding remove
  Leaves-remove = Leaves-syscall p _ (λ w. remove-keeps (w.at path) w)

  create-keeps :
      (o : Option Inode) (perm : ℕ) (w : World) → (create_at o path perm w).1.at p ≡ w.at p
  create-keeps none perm w = rw away refl
  create-keeps (some i) perm w = ground (arith, away)

  pub Leaves-create : (perm : ℕ) → Leaves p (create path perm)
  unfolding create
  Leaves-create perm = Leaves-syscall p _ (λ w. create-keeps (w.at path) perm w)

  write-keeps :
      (o : Option Inode) (text : Text) (w : World) → (write_at o path text w).1.at p ≡ w.at p
  write-keeps none text w = refl
  write-keeps (some i) text w = ground (arith, away)

  pub Leaves-write : (text : Text) → Leaves p (write path text)
  unfolding write
  Leaves-write text w = part_keeps (cut w.faults text)
    where
      ended_keeps :
          (end : Option Errno) (r : Result (Unit {0}) × World) → (ended_by end r).1.at p ≡ r.1.at p
      ended_keeps none r = refl
      ended_keeps (some e) r = refl

      part_keeps :
          (c : Text × Option Errno × List (Option Errno)) → (write_part c path w).1.at p ≡ w.at p
      part_keeps (part, end, later) =
          ended_keeps end (write_at (w.at path) path part (record w { faults = later }))
          ∙ write-keeps (w.at path) part (record w { faults = later })

  chmod-keeps : (o : Option Inode) (mode : ℕ) (w : World) → (chmod_at o path mode w).1.at p ≡ w.at p
  chmod-keeps none mode w = refl
  chmod-keeps (some i) mode w = rw away refl

  pub Leaves-chmod : (mode : ℕ) → Leaves p (chmod path mode)
  unfolding chmod
  Leaves-chmod mode = Leaves-syscall p _ (λ w. chmod-keeps (w.at path) mode w)

  symlink-keeps :
      (o : Option Inode) (target : Text) (w : World) → (symlink_at o target path w).1.at p ≡ w.at p
  symlink-keeps none target w = rw away refl
  symlink-keeps (some i) target w = refl

  pub Leaves-symlink : (target : Text) → Leaves p (symlink target path)
  unfolding symlink
  Leaves-symlink target = Leaves-syscall p _ (λ w. symlink-keeps (w.at path) target w)

-- The calls that change what lies at a path and below it.
module _ (p path : Text) (away : below path p ≡ false) where
  pub Leaves-remove_all : Leaves p (remove_all path)
  unfolding remove_all
  Leaves-remove_all = Leaves-syscall p _ (λ w. rw away refl)

  rename-keeps :
      (old : Text) (apart : below old p ≡ false) (o there : Option Inode) (w : World)
      → (rename_at o there old path w).1.at p ≡ w.at p
  rename-keeps old apart none there w = refl
  rename-keeps old apart (some i) none w = rw (away, apart) refl
  rename-keeps old apart (some i) (some j) w = ground (arith, away, apart)

-- MkdirAll changes nothing that is there, and nothing that does not lie on the way.
mkdir_all-keeps :
    (p path : Text) (perm : ℕ) (o there : Option Inode) (w : World)
    → w.at p ≡ there
    → (below p path ≡ false) ⊎ (there ≢ none)
    → (mkdir_all_at o path perm w).1.at p ≡ there
mkdir_all-keeps p path perm (some i) there w e h = ground (arith, e)
mkdir_all-keeps p path perm none none w e (inl h) = rw (e, h) (ground arith)
mkdir_all-keeps p path perm none none w e (inr h) = absurd (h refl)
mkdir_all-keeps p path perm none (some j) w e h = rw e refl

pub Leaves-mkdir_all :
    (p path : Text) (perm : ℕ) → below p path ≡ false → Leaves p (mkdir_all path perm)
unfolding mkdir_all
Leaves-mkdir_all p path perm h =
    Leaves-syscall p _ (λ w. mkdir_all-keeps p path perm (w.at path) (w.at p) w refl (inl h))

abbrev is_some {ℓ} : {A : Type ℓ} → Option A → Bool
is_some none = false
is_some (some a) = true

some≢none {ℓ} : {A : Type ℓ} {a : A} → some a ≢ none
some≢none q = true≢false (ap is_some q)

-- What is there stays there as it is.
abbrev pub Spares {ℓ} : {A : Type ℓ} → Text → Inode → Sys A → Type 0
Spares p i m = (w : World) → w.at p ≡ some i → (m w).1.at p ≡ some i

module _ {ℓ} {A : Type ℓ} (p : Text) (i : Inode) where
  pub Spares-Leaves : (m : Sys A) → Leaves p m → Spares p i m
  Spares-Leaves m h w e = h w ∙ e

  pub Spares->>= {κ} :
      {B : Type κ} (m : Sys A) (f : A → Sys B)
      → Spares p i m
      → ((a : A) → Spares p i (f a))
      → Spares p i (m >>= f)
  Spares->>= m f hm hf w e = go (m w).0 (m w).1 (hm w e)
    where
      go : (r : Result A) (w' : World) → w'.at p ≡ some i → (continue r f w').1.at p ≡ some i
      go (ok a) w' h = hf a w' h
      go (err x) w' h = h
      go (panic x) w' h = h

  -- A first part that leaves the path alone.
  pub Spares-after {κ} :
      {B : Type κ} (m : Sys A) (f : A → Sys B)
      → Leaves p m
      → ((a : A) → Spares p i (f a))
      → Spares p i (m >>= f)
  Spares-after m f hm hf = Spares->>= m f (Spares-Leaves m hm) hf

  pub Spares-if :
      (b : Bool) (m n : Sys A) → Spares p i m → Spares p i n → Spares p i (if b then m else n)
  Spares-if true m n hm hn = hm
  Spares-if false m n hm hn = hn

pub Spares-mkdir_all :
    (p : Text) (i : Inode) (path : Text) (perm : ℕ) → Spares p i (mkdir_all path perm)
unfolding mkdir_all syscall
Spares-mkdir_all p i path perm w e = go w.faults
  where
    go :
        (faults : List (Option Errno))
        → (mkdir_all path perm (record { at = w.at; faults = faults })).1.at p ≡ some i
    go [] =
        mkdir_all-keeps p path perm (w.at path) (some i) (record { at = w.at; faults = [] }) e
          (inr some≢none)
    go (none ∷ faults) =
        mkdir_all-keeps p path perm (w.at path) (some i) (record { at = w.at; faults = faults }) e
          (inr some≢none)
    go (some x ∷ faults) = e
