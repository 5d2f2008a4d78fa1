-- ===== src/Daemon/Direct/Ran/Shared.antt =====
-- What is run in the end is the container: the parts of the start that bind what the container shares
-- with the host, or keeps apart from it.
use nsbox.Base.{Text, List, [], ◌∷◌, codes, Bool, true, false, contains, if◌then◌else◌, ◌||◌}
use nsbox.FilePath.{is_abs, join_path}
use nsbox.Os.{wrapping}
use nsbox.Nspawn.{Builder, add_bind}
use nsbox.Container.Data.{Container}
use nsbox.Daemon.Private.{
  Owner, has_substring, bind_one, bind_private, private_home_storage_child, exists,
}
use nsbox.Daemon.Mkdir.{mkdir_all_owned_by_user}
use nsbox.Daemon.Direct.{Draft, binding, bind_devices, bind_share_devices, bind_extra_mounts}
use nsbox.Daemon.Direct.Binds.{bind_cgroups, bind_shared, bind_private_dirs}
use nsbox.Os.Yields.{Yields, Yields->>=, Yields-after, Yields-wrapping, Yields-if}
use nsbox.Daemon.Direct.Launched.{
  Same, same, Same-trans, Same-add_bind, Same-add_bind_to, Same-add_recursive_bind,
  Same-bind_share_devices, Same-bind_extra_mounts, From, Yields-binding,
}

module _ (b : Builder) where
  Same-bind_devices :
      (there : Text → Bool) (tmpdir : Text) (devs : List Text) (c : Builder)
      → Same c (bind_devices there tmpdir devs c)
  unfolding bind_devices
  Same-bind_devices there tmpdir devs c =
      let x11 = join_path (tmpdir ∷ codes ".X11-unix" ∷ []) in
      let shared : Same c (bind_share_devices there devs (add_bind there x11 c)) =
        Same-trans (Same-add_bind there x11 c)
          (Same-bind_share_devices there devs (add_bind there x11 c)) in
      by_test (contains devs (codes "*")) shared (
        Same-trans shared (
          Same-trans (Same-add_bind there (codes "/dev/dri") _)
            (Same-add_bind there (codes "/dev/input") _)))
    where
      by_test : (t : Bool) {x y : Builder} → Same c x → Same c y → Same c (if t then x else y)
      by_test true h k = h
      by_test false h k = k

  Same-bind_cgroups :
      (there : Text → Bool) (share : Bool) (c : Builder) → Same c (bind_cgroups there share c)
  unfolding bind_cgroups
  Same-bind_cgroups there true c = Same-add_recursive_bind there (codes "/sys/fs/cgroup") c
  Same-bind_cgroups there false c = same c.binds

  pub Yields-bind_shared :
      (ct : Container) (tmpdir : Text) (draft : Draft)
      → From b draft
      → Yields (From b) (bind_shared ct tmpdir draft)
  unfolding bind_shared
  Yields-bind_shared ct tmpdir draft from =
      Yields->>= (From b) (From b)
        (binding (λ exists. bind_devices exists tmpdir ct.config.share_devices) draft) _
        (Yields-binding b (λ exists. bind_devices exists tmpdir ct.config.share_devices) draft
          (λ there. Same-bind_devices there tmpdir ct.config.share_devices) from)
        (λ devices h₁.
          Yields->>= (From b) (From b)
            (binding (λ exists. bind_cgroups exists ct.config.share_cgroupfs) devices) _
            (Yields-binding b (λ exists. bind_cgroups exists ct.config.share_cgroupfs) devices
              (λ there. Same-bind_cgroups there ct.config.share_cgroupfs) h₁)
            (λ cgroups h₂.
              Yields-binding b (λ exists. bind_extra_mounts exists ct.config.extra_bind_mounts)
                cgroups (λ there. Same-bind_extra_mounts there ct.config.extra_bind_mounts) h₂))

  Yields-bind_one :
      (owner : Owner) (name private : Text) (c : Builder)
      → Same b c
      → Yields (Same b) (bind_one owner name private c)
  unfolding bind_one
  Yields-bind_one owner name private c from =
      let path = private_home_storage_child owner name (codes "home" ∷ private ∷ []) in
      Yields-if (Same b) (is_abs private || has_substring private (codes "..")) _ _ (λ w. tt)
        (Yields-after (Same b)
          (wrapping (codes "create private storage directory")
            (mkdir_all_owned_by_user path owner.uid owner.gid 448))
          _
          (λ _ w.
            Same-trans from
              (Same-add_bind_to (exists w) path (join_path (owner.home_dir ∷ private ∷ [])) c)))

  Yields-bind_private :
      (owner : Owner) (name : Text) (dirs : List Text) (c : Builder)
      → Same b c
      → Yields (Same b) (bind_private owner name dirs c)
  unfolding bind_private
  Yields-bind_private owner name [] c from = λ w. from
  Yields-bind_private owner name (private ∷ rest) c from =
      Yields->>= (Same b) (Same b) (bind_one owner name private c) _
        (Yields-bind_one owner name private c from)
        (λ c' h. Yields-bind_private owner name rest c' h)

  pub Yields-bind_private_dirs :
      (ct : Container) (owner : Owner) (draft : Draft)
      → From b draft
      → Yields (From b) (bind_private_dirs ct owner draft)
  unfolding bind_private_dirs
  Yields-bind_private_dirs ct owner draft from =
      Yields->>= (Same b) (From b)
        (wrapping (codes "bind private storage")
          (bind_private owner ct.name ct.config.private_dirs draft.builder))
        _
        (Yields-wrapping (Same b) (codes "bind private storage")
          (bind_private owner ct.name ct.config.private_dirs draft.builder)
          (Yields-bind_private owner ct.name ct.config.private_dirs draft.builder from))
        (λ c h w. h)
