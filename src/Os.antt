-- ===== src/Os.antt =====
-- The file system of the host under the calls of package os, with failures. Paths are looked up as
-- they stand, no link inside one is followed. A call fails by what stands at its own path, and for
-- every other reason (permissions, space, a missing parent) by the list of faults, which decides for
-- each call in turn.
pub mod Calls
pub mod Frame
pub mod Results
pub mod Yields
use nsbox.Base.{
  ℕ, Text, List, [], ◌∷◌, Bool, true, false, Option, none, some, str_eq, if◌then◌else◌, Result,
  Error, Errno, enoent, eexist, ok, err, panic, errno, wrap_err,
}

pub data Node : Type 0 where
  file : Text → Node
  dir : Node
  link : Text → Node

pub record Inode : Type 0 where
  pub node : Node
  pub uid : ℕ
  pub gid : ℕ
  pub mode : ℕ

pub record World : Type 0 where
  pub at : Text → Option Inode
  pub faults : List (Option Errno)

-- What was done before an error stays done.
abbrev pub Sys {ℓ} : Type ℓ → Type ℓ
Sys A = World → Result A × World

module _ {ℓ} {A : Type ℓ} where
  abbrev pub pure : A → Sys A
  pure a w = (ok a, w)

  abbrev pub raise : Error → Sys A
  raise e w = (err e, w)

  abbrev pub crash : Text → Sys A
  crash m w = (panic m, w)

module _ {ℓ κ} {A : Type ℓ} {B : Type κ} where
  abbrev pub continue : Result A → (A → Sys B) → Sys B
  continue (ok a) f w = f a w
  continue (err e) f w = (err e, w)
  continue (panic m) f w = (panic m, w)

  infixl 5 ◌>>=◌
  abbrev pub ◌>>=◌ : Sys A → (A → Sys B) → Sys B
  ◌>>=◌ m f w = let (r, w') = m w in continue r f w'

infixl 5 ◌>>◌
abbrev pub ◌>>◌ {ℓ} : {B : Type ℓ} → Sys (Unit {0}) → Sys B → Sys B
m >> k = m >>= λ _. k

-- errors.Wrap on the way out.
abbrev pub wrapping {ℓ} : {A : Type ℓ} → Text → Sys A → Sys A
wrapping message m w = let (r, w') = m w in (wrap_err message r, w')

abbrev run_with {ℓ} :
    {A : Type ℓ} → List (Option Errno) → (World → Result A × World) → World → Result A × World
run_with [] call w = call w
run_with (none ∷ faults) call w = call (record w { faults = faults })
run_with (some e ∷ faults) call w = (err (errno e), record w { faults = faults })

-- os.IsExist
abbrev pub is_exist : Error → Bool
is_exist (errno eexist) = true
is_exist e = false

-- os.IsNotExist
abbrev pub is_not_exist : Error → Bool
is_not_exist (errno enoent) = true
is_not_exist e = false

-- `if err := call; err != nil && !skip(err) { return err }`
abbrev unless {ℓ} : {A : Type ℓ} → (Error → Bool) → A → Result A → Result A
unless skip a (ok b) = ok b
unless skip a (err e) = if skip e then ok a else err e
unless skip a (panic m) = panic m

abbrev pub ignoring : (Error → Bool) → Sys (Unit {0}) → Sys (Unit {0})
ignoring skip m w = let (r, w') = m w in (unless skip tt r, w')

-- A call whose error decides what follows.
abbrev pub trying {ℓ κ} : {A : Type ℓ} {B : Type κ} → Sys A → (Result A → Sys B) → Sys B
trying m f w = let (r, w') = m w in f r w'

-- A call of the system: it fails if the next fault says so.
unfoldable pub syscall {ℓ} : {A : Type ℓ} → (World → Result A × World) → Sys A
syscall call w = run_with w.faults call w

abbrev pub update : (Text → Option Inode) → Text → Option Inode → Text → Option Inode
update at path inode p = if str_eq path p then inode else at p

abbrev pub put : World → Text → Option Inode → World
put w path inode = record w { at = update w.at path inode }

-- os.Mkdir by the superuser
abbrev pub mkdir_at : Option Inode → Text → ℕ → Sys (Unit {0})
mkdir_at (some i) path perm w = (err (errno eexist), w)
mkdir_at none path perm w =
    (ok tt, put w path (some (record { node = dir; uid = 0; gid = 0; mode = perm })))

unfoldable pub mkdir : Text → ℕ → Sys (Unit {0})
unfolding syscall
mkdir path perm = syscall (λ w. mkdir_at (w.at path) path perm w)

-- os.Chown
abbrev pub chown_at : Option Inode → Text → ℕ → ℕ → Sys (Unit {0})
chown_at none path uid gid w = (err (errno enoent), w)
chown_at (some i) path uid gid w = (ok tt, put w path (some (record i { uid = uid; gid = gid })))

unfoldable pub chown : Text → ℕ → ℕ → Sys (Unit {0})
unfolding syscall
chown path uid gid = syscall (λ w. chown_at (w.at path) path uid gid w)
