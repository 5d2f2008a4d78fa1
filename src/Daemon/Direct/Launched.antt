-- ===== src/Daemon/Direct/Launched.antt =====
-- What is run in the end is the container: everything on the way only adds bind mounts to the builder.
use nsbox.Base.{
  Text, List, [], ◌∷◌, ◌++◌, codes, Bool, true, false, Option, none, some, Result, if◌then◌else◌,
  wrap_err, split_once, str_eq,
}
use nsbox.FilePath.{dir_name}
use nsbox.Os.{wrapping}
use nsbox.Os.Calls.{lstat}
use nsbox.Os.Yields.{Yields, Yields->>=, Yields-after, Yields-if}
use nsbox.Nspawn.{
  Builder, BindMount, add_bind, add_bind_full, add_bind_to, add_recursive_bind,
  add_recursive_bind_to,
}
use nsbox.Container.Files.{lifted}
use nsbox.Daemon.Private.{exists}
use nsbox.Daemon.Direct.{
  Draft, binding, setenv, bind_home, bind_home_root, bind_share_devices, bind_extra_mounts,
  add_extra, rel_to_root, is_link, home_root,
}

-- The builder differs in its bind mounts only.
pub data Same (b : Builder) : Builder → Type 0 where
  same : (binds : List BindMount) → Same b (record b { binds = binds })

pub Same-trans : {b c d : Builder} → Same b c → Same c d → Same b d
Same-trans (same x) (same y) = same y

-- The calls of the builder.
module _ (there : Text → Bool) where
  Same-add_bind_full :
      (host dest : Text) (recursive : Bool) (b : Builder)
      → Same b (add_bind_full there host dest recursive b)
  unfolding add_bind_full
  Same-add_bind_full host dest recursive b =
      elim (there host)
        as (λ c. Same b (
          if c
          then record b {
            binds = b.binds ++ record { host = host; dest = dest; recursive = recursive } ∷ [];
          }
          else b)) [
            | true ↦
                same (b.binds ++ record { host = host; dest = dest; recursive = recursive } ∷ [])
            | false ↦ same b.binds
          ]

  pub Same-add_bind : (path : Text) (b : Builder) → Same b (add_bind there path b)
  unfolding add_bind add_bind_to
  Same-add_bind path b = Same-add_bind_full path path false b

  pub Same-add_bind_to : (host dest : Text) (b : Builder) → Same b (add_bind_to there host dest b)
  unfolding add_bind_to
  Same-add_bind_to host dest b = Same-add_bind_full host dest false b

  pub Same-add_recursive_bind_to :
      (host dest : Text) (b : Builder) → Same b (add_recursive_bind_to there host dest b)
  unfolding add_recursive_bind_to
  Same-add_recursive_bind_to host dest b = Same-add_bind_full host dest true b

  pub Same-add_recursive_bind :
      (path : Text) (b : Builder) → Same b (add_recursive_bind there path b)
  unfolding add_recursive_bind
  Same-add_recursive_bind path b = Same-add_recursive_bind_to path path b

  pub Same-bind_share_devices :
      (devs : List Text) (b : Builder) → Same b (bind_share_devices there devs b)
  unfolding bind_share_devices
  Same-bind_share_devices [] b = same b.binds
  Same-bind_share_devices (dev ∷ devs) b =
      Same-trans (Same-add_recursive_bind _ b) (Same-bind_share_devices devs _)

  pub Same-bind_extra_mounts :
      (binds : List Text) (b : Builder) → Same b (bind_extra_mounts there binds b)
  unfolding bind_extra_mounts
  Same-bind_extra_mounts [] b = same b.binds
  Same-bind_extra_mounts (bind ∷ binds) b =
      Same-trans (one (split_once b':' bind)) (Same-bind_extra_mounts binds _)
    where
      one : (parts : Text × Option Text) → Same b (add_extra there parts b)
      one (path, none) = Same-add_bind path b
      one (host, some dest) = Same-add_bind_to host dest b

-- The drafts.
abbrev pub From : Builder → Draft → Type 0
From b draft = Same b draft.builder

module _ (b : Builder) where
  pub Yields-binding :
      (f : (Text → Bool) → Builder → Builder) (draft : Draft)
      → ((there : Text → Bool) (c : Builder) → Same c (f there c))
      → From b draft
      → Yields (From b) (binding f draft)
  unfolding binding
  Yields-binding f draft h from w = Same-trans from (h (exists w) draft.builder)

  pub From-if : (c : Bool) (d d' : Draft) → From b d → From b d' → From b (if c then d else d')
  From-if true d d' h k = h
  From-if false d d' h k = k

  pub From-setenv : (name value : Text) (d : Draft) → From b d → From b (setenv name value d)
  unfolding setenv
  From-setenv name value d h = h

  Yields-bind_home_root :
      (home_dir resolved : Text) (draft : Draft)
      → From b draft
      → Yields (From b) (bind_home_root home_dir resolved draft)
  unfolding bind_home_root setenv
  Yields-bind_home_root home_dir resolved draft from =
      Yields->>= (From b) (From b) (binding (λ exists. add_recursive_bind exists resolved) draft) _
        (Yields-binding (λ exists. add_recursive_bind exists resolved) draft
          (λ there. Same-add_recursive_bind there resolved) from)
        (λ bound from'.
          Yields-after (From b)
            (lifted (
              wrap_err (codes "failed to make home parent " ++ (resolved ++ codes " relative"))
                (rel_to_root resolved)))
            _ (λ rel w. From-if (str_eq (dir_name home_dir) home_root) _ _ from' from'))

  pub Yields-bind_home :
      (links : Result Text) (home_dir : Text) (draft : Draft)
      → From b draft
      → Yields (From b) (bind_home links home_dir draft)
  unfolding bind_home
  Yields-bind_home links home_dir draft from =
      Yields-after (From b) (wrapping (codes "failed to stat home parent") (lstat home_root)) _
        (λ info.
          Yields-if (From b) (is_link info) _ _
            (Yields-after (From b) (lifted (wrap_err (codes "failed to resolve home parent") links))
              _
              (λ resolved.
                Yields-bind_home_root home_dir resolved (setenv (codes "NSBOX_HOME") home_dir draft)
                  (From-setenv (codes "NSBOX_HOME") home_dir draft from)))
            (Yields-binding (λ exists. add_recursive_bind exists home_dir)
              (setenv (codes "NSBOX_HOME") home_dir draft)
              (λ there. Same-add_recursive_bind there home_dir)
              (From-setenv (codes "NSBOX_HOME") home_dir draft from)))
