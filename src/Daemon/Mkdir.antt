-- ===== src/Daemon/Mkdir.antt =====
-- MkdirAllOwnedByUser of internal/daemon/direct.go: a directory and its parents, where the new ones
-- are the user's.
pub mod OnePart
pub mod Ownership
pub mod Reached
use nsbox.Base.{
  ℕ, Text, List, [], ◌∷◌, ◌++◌, codes, Bool, true, false, Option, none, some, if◌then◌else◌, split,
  drop, Result, Error, Errno, eexist, ok, err, panic, errno, wrap,
}
use nsbox.FilePath.{slash, is_abs, join_path}
use nsbox.Os.{is_exist, World, Sys, pure, raise, crash, ◌>>◌, wrapping, mkdir, chown}

-- What follows the call of os.Mkdir on one of the directories.
abbrev pub own_if_new : Text → ℕ → ℕ → Result (Unit {0}) → Sys (Unit {0})
own_if_new path uid gid (ok tt) = wrapping (codes "chown " ++ path) (chown path uid gid)
own_if_new path uid gid (err e) =
    if is_exist e then pure tt else raise (wrap e (codes "mkdir " ++ path))
own_if_new path uid gid (panic m) = crash m

unfoldable pub make_part : Text → ℕ → ℕ → ℕ → Sys (Unit {0})
make_part path uid gid perm w = let (r, w') = mkdir path perm w in own_if_new path uid gid r w'

unfoldable pub make_parts : Text → List Text → ℕ → ℕ → ℕ → Sys (Unit {0})
make_parts root [] uid gid perm = pure tt
make_parts root (part ∷ parts) uid gid perm =
    make_part (join_path (root ∷ part ∷ [])) uid gid perm
    >> make_parts (join_path (root ∷ part ∷ [])) parts uid gid perm

unfoldable pub mkdir_all_owned_by_user : Text → ℕ → ℕ → ℕ → Sys (Unit {0})
mkdir_all_owned_by_user path uid gid perm =
    if is_abs path
    then make_parts (codes "/") (drop 1 (split slash path)) uid gid perm
    else make_parts [] (split slash path) uid gid perm
