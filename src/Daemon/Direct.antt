-- ===== src/Daemon/Direct.antt =====
-- internal/daemon/direct.go: what goes into the command line of the container, and its variables. Whether
-- a path on the host can be bound is looked up in the file system; no other call depends on it.
pub mod Files
pub mod Begin
pub mod Binds
pub mod Run
pub mod Network
pub mod SudoFile
pub mod Untouched
pub mod Spared
pub mod Whole
pub mod Launched
pub mod Ran
pub mod Carried
pub mod Outcome
use nsbox.Base.{
  ℕ, Text, List, [], ◌∷◌, ◌++◌, codes, Bool, true, false, is_empty, str_eq, if◌then◌else◌, Option,
  none, some, contains, split_once, Dict, lookup, insert, Result, Error, ok, err, panic, errorf,
  wrap, wrap_err,
}
use nsbox.FilePath.{is_abs, clean, join_path, dir_name}
use nsbox.Os.{Node, file, dir, link, Inode, World, Sys, pure, ◌>>=◌, ◌>>◌, wrapping}
use nsbox.Os.Calls.{lstat}
use nsbox.Nspawn.{Builder, add_bind, add_bind_to, add_recursive_bind, add_recursive_bind_to}
use nsbox.Container.Files.{lifted}
use nsbox.Daemon.Private.{exists}

-- What is put together: the builder and the variables of the user's data.
pub record Draft : Type 0 where
  pub builder : Builder
  pub environ : Dict Text

unfoldable pub setenv : Text → Text → Draft → Draft
setenv name value draft = record draft { environ = insert name value draft.environ }

-- Calls of the builder, which look at the file system.
unfoldable pub binding : ((Text → Bool) → Builder → Builder) → Draft → Sys Draft
binding f draft w = pure (record draft { builder = f (exists w) draft.builder }) w

abbrev pub or_error : Option Text → Text → Result Text
or_error none message = err (errorf message)
or_error (some value) message = ok value

unfoldable pub get_xdg_runtime_dir : Dict Text → Result Text
get_xdg_runtime_dir environ =
    or_error (lookup (codes "XDG_RUNTIME_DIR") environ) (codes "XDG_RUNTIME_DIR must be set")

abbrev tail_of : Text → Text
tail_of [] = []
tail_of (c ∷ s) = s

-- filepath.Rel from the root
unfoldable pub rel_to_root : Text → Result Text
rel_to_root path =
    let rel = tail_of (clean path) in
    if is_abs (clean path)
    then ok (if is_empty rel then codes "." else rel)
    else err (errorf (codes "Rel: can't make " ++ (path ++ codes " relative to /")))

abbrev never_fails : Text → Result Text → Result Text
never_fails path (ok result) = ok result
never_fails path (err e) = panic (codes "unexpected error stripping leading slash from " ++ path)
never_fails path (panic m) = panic m

unfoldable pub strip_leading_slash : Text → Result Text
unfolding rel_to_root
strip_leading_slash path = never_fails path (rel_to_root path)

abbrev pub is_link : Inode → Bool
is_link i = elim i.node [ file s ↦ false | dir ↦ false | link t ↦ true ]

abbrev pub home_root : Text
home_root = codes "/home"

-- Where /home is a link: `resolved` is what filepath.EvalSymlinks makes of it.
unfoldable pub bind_home_root : Text → Text → Draft → Sys Draft
unfolding setenv
bind_home_root home_dir resolved draft =
    binding (λ exists. add_recursive_bind exists resolved) draft >>= λ bound.
    (lifted (
        wrap_err (codes "failed to make home parent " ++ (resolved ++ codes " relative"))
          (rel_to_root resolved))
      >>= λ rel.
          let linked = setenv (codes "NSBOX_HOME_LINK_TARGET") rel bound in
          let adjusted = setenv (codes "NSBOX_HOME_LINK_TARGET_ADJUST_CWD") (codes "1") linked in
          pure (if str_eq (dir_name home_dir) home_root then adjusted else linked))

unfoldable pub bind_home : Result Text → Text → Draft → Sys Draft
unfolding setenv bind_home_root
bind_home eval_home home_dir draft =
    let named = setenv (codes "NSBOX_HOME") home_dir draft in
    wrapping (codes "failed to stat home parent") (lstat home_root) >>= λ info.
    if is_link info
    then (lifted (wrap_err (codes "failed to resolve home parent") eval_home) >>= λ resolved.
        bind_home_root home_dir resolved named)
    else binding (λ exists. add_recursive_bind exists home_dir) named

unfoldable pub bind_share_devices : (Text → Bool) → List Text → Builder → Builder
bind_share_devices exists [] builder = builder
bind_share_devices exists (dev ∷ devs) builder =
    let path = if str_eq dev (codes "*") then codes "/dev" else dev in
    bind_share_devices exists devs (add_recursive_bind exists path builder)

-- `tmpdir` is os.TempDir's.
unfoldable pub bind_devices : (Text → Bool) → Text → List Text → Builder → Builder
unfolding bind_share_devices
bind_devices exists tmpdir share_devices builder =
    let x11 = add_bind exists (join_path (tmpdir ∷ codes ".X11-unix" ∷ [])) builder in
    let shared = bind_share_devices exists share_devices x11 in
    let own = add_bind exists (codes "/dev/input") (add_bind exists (codes "/dev/dri") shared) in
    if contains share_devices (codes "*") then shared else own

abbrev pub add_extra : (Text → Bool) → Text × Option Text → Builder → Builder
add_extra exists (path, none) = add_bind exists path
add_extra exists (host, some dest) = add_bind_to exists host dest

unfoldable pub bind_extra_mounts : (Text → Bool) → List Text → Builder → Builder
bind_extra_mounts exists [] builder = builder
bind_extra_mounts exists (bind ∷ binds) builder =
    bind_extra_mounts exists binds (add_extra exists (split_once b':' bind) builder)
