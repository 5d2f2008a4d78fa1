-- ===== src/Daemon/Private.antt =====
-- bindPrivate of internal/daemon/direct.go with the paths of internal/container/container.go that it
-- uses: the directories that a container keeps apart from the user's home.
pub mod Below
pub mod Mounts
use nsbox.Base.{
  ℕ, Text, List, [], ◌∷◌, ◌++◌, codes, Bool, true, false, Option, none, some, if◌then◌else◌, ◌||◌,
  has_prefix,
}
use nsbox.FilePath.{is_abs, join_path}
use nsbox.Os.{Inode, World, Sys, pure, crash, ◌>>=◌, ◌>>◌, wrapping}
use nsbox.Nspawn.{Builder, add_bind_to}
use nsbox.Daemon.Mkdir.{mkdir_all_owned_by_user}

-- strings.Contains
unfoldable pub has_substring : Text → Text → Bool
has_substring [] t = has_prefix [] t
has_substring (c ∷ s) t = has_prefix (c ∷ s) t || has_substring s t

-- The caller, whose directories these are.
pub record Owner : Type 0 where
  pub home_dir : Text
  pub uid : ℕ
  pub gid : ℕ

abbrev pub is_there : Option Inode → Bool
is_there none = false
is_there (some i) = true

-- os.Stat without an error
abbrev pub exists : World → Text → Bool
exists w path = is_there (w.at path)

unfoldable pub private_home_storage : Owner → Text → Text
private_home_storage owner name =
    join_path (owner.home_dir ∷ codes ".var" ∷ codes "nsbox" ∷ name ∷ [])

unfoldable pub private_home_storage_child : Owner → Text → List Text → Text
unfolding private_home_storage
private_home_storage_child owner name children =
    join_path (private_home_storage owner name ∷ children)

-- The call of the builder, which looks at the file system and leaves it as it is.
abbrev pub add_private : Text → Text → Builder → Sys Builder
add_private host dest builder w = pure (add_bind_to (exists w) host dest builder) w

unfoldable pub bind_one : Owner → Text → Text → Builder → Sys Builder
unfolding private_home_storage_child
bind_one owner name private builder =
    if is_abs private || has_substring private (codes "..")
    then crash (codes "unexpected absolute private path " ++ private)
    else (wrapping (codes "create private storage directory") (
          mkdir_all_owned_by_user
            (private_home_storage_child owner name (codes "home" ∷ private ∷ [])) owner.uid
            owner.gid 448)
        >> add_private (private_home_storage_child owner name (codes "home" ∷ private ∷ []))
            (join_path (owner.home_dir ∷ private ∷ [])) builder)

unfoldable pub bind_private : Owner → Text → List Text → Builder → Sys Builder
bind_private owner name [] builder = pure builder
bind_private owner name (private ∷ rest) builder =
    bind_one owner name private builder >>= bind_private owner name rest
