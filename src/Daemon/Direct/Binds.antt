-- ===== src/Daemon/Direct/Binds.antt =====
-- internal/daemon/direct.go, the parts of RunContainerDirectNspawn that bind the host's files into the
-- container.
use nsbox.Base.{
  Text, List, [], ◌∷◌, ◌++◌, codes, Bool, false, contains, if◌then◌else◌, none, some, Dict, lookup,
  Result, wrap_err,
}
use nsbox.FilePath.{join_path}
use nsbox.Os.{Sys, pure, ◌>>=◌, ◌>>◌, wrapping, ignoring, is_not_exist}
use nsbox.Os.Calls.{remove, symlink}
use nsbox.Nspawn.{Builder, add_bind, add_bind_to, add_recursive_bind, add_recursive_bind_to}
use nsbox.Container.Data.{Container}
use nsbox.Container.Files.{lifted, storage_child}
use nsbox.Daemon.Private.{Owner, bind_private}
use nsbox.Daemon.Direct.{
  Draft, setenv, binding, strip_leading_slash, bind_home, bind_devices, bind_extra_mounts,
}
use nsbox.Daemon.Direct.Begin.{Layer, Host, in_container_priv_path, priv}

unfoldable pub bind_to : Text → Text → Draft → Sys Draft
bind_to host dest = binding (λ exists. add_bind_to exists host dest)

unfoldable pub host_priv_path : Container → Sys Text
host_priv_path ct = lifted (strip_leading_slash in_container_priv_path) >>= λ part.
    pure (storage_child ct (part ∷ []))

unfoldable pub bind_programs : Host → Text → Draft → Sys Draft
bind_programs host data_dir draft = do
  scripts ← bind_to (join_path (data_dir ∷ codes "scripts" ∷ [])) (priv (codes "scripts")) draft
  nsbox_host ← lifted (wrap_err (codes "failed to locate nsbox-host") host.nsbox_host)
  bind_to nsbox_host (priv (codes "bin/nsbox-host")) scripts

-- The variable lists the names of the chain, the container's own image first.
unfoldable pub chain_names : Dict Text → Bool → Text → Text
chain_names environ first name =
    let so_far : Text = elim (lookup (codes "NSBOX_IMAGE_CHAIN") environ) [
      | none ↦ []
      | some names ↦ names
    ] in
    if first then name else so_far ++ (codes " " ++ name)

unfoldable pub bind_images : Bool → List Layer → Draft → Sys Draft
bind_images first [] draft = pure draft
bind_images first (layer ∷ chain) draft = do
  bound ←
      bind_to layer.root_path
        (join_path (in_container_priv_path ∷ codes "images" ∷ layer.name ∷ [])) draft
  bind_images false chain
      (setenv (codes "NSBOX_IMAGE_CHAIN") (chain_names bound.environ first layer.name) bound)

unfoldable pub bind_journal : Text → Draft → Sys Draft
bind_journal machine_id draft = do
  let journal = join_path (codes "/var/log/journal" ∷ machine_id ∷ [])
  here ← binding (λ exists. add_bind exists journal) draft
  bind_to journal (codes "/run/host/journal") here

-- The file of the container that would clear the sockets of the host's X server.
unfoldable pub mask_tmpfiles : Text → Sys (Unit {0})
mask_tmpfiles tmpfiles_x11 =
    wrapping (codes "delete tmpfiles.d/x11.conf") (ignoring is_not_exist (remove tmpfiles_x11))
    >> wrapping (codes "mask tmpfiles.d/x11.conf") (symlink (codes "/dev/null") tmpfiles_x11)

unfoldable pub prepare_booted : Container → Text → Text → Draft → Sys Draft
prepare_booted ct xdg_runtime_dir data_dir draft = do
  run ←
      binding (λ exists. add_recursive_bind_to exists xdg_runtime_dir (priv (codes "usr-run")))
        draft
  init ←
      bind_to (join_path (data_dir ∷ codes "nsbox-init.service" ∷ []))
        (codes "/etc/systemd/system/nsbox-init.service") run
  target ←
      bind_to (join_path (data_dir ∷ codes "nsbox-container.target" ∷ []))
        (codes "/etc/systemd/system/nsbox-container.target") init
  getty ←
      bind_to (join_path (data_dir ∷ codes "getty-override.conf" ∷ []))
        (codes "/etc/systemd/system/console-getty.service.d/00-nsbox.conf") target
  _ ← mask_tmpfiles (storage_child ct (codes "etc/tmpfiles.d/x11.conf" ∷ []))
  (if ct.config.virtual_network
      then bind_to (join_path (data_dir ∷ codes "wants-networkd.conf" ∷ []))
          (codes "/etc/systemd/system/nsbox-container.target.d/00-nsbox-networkd.conf") getty
      else pure getty)

unfoldable pub system_bus : Dict Text → Text
system_bus environ = elim (lookup (codes "DBUS_SYSTEM_BUS_ADDRESS") environ) [
  | none ↦ codes "/run/dbus"
  | some value ↦ value
]

unfoldable pub prepare_unbooted : Text → Draft → Sys Draft
prepare_unbooted xdg_runtime_dir draft = do
  coredump ← binding (λ exists. add_bind exists (codes "/var/lib/systemd/coredump")) draft
  run ← binding (λ exists. add_recursive_bind exists xdg_runtime_dir) coredump
  binding (λ exists. add_bind exists (system_bus run.environ)) run

-- Only a home that is not private is bound.
unfoldable pub provide_home : Result Text → Container → Text → Draft → Sys Draft
provide_home home_links ct home_dir draft =
    if contains ct.config.private_dirs (codes ".")
    then pure (setenv (codes "NSBOX_HOME") home_dir draft)
    else wrapping (codes "failed to bind home") (bind_home home_links home_dir draft)

unfoldable pub bind_cgroups : (Text → Bool) → Bool → Builder → Builder
bind_cgroups exists share builder =
    if share then add_recursive_bind exists (codes "/sys/fs/cgroup") builder else builder

unfoldable pub bind_shared : Container → Text → Draft → Sys Draft
bind_shared ct tmpdir draft = do
  devices ← binding (λ exists. bind_devices exists tmpdir ct.config.share_devices) draft
  cgroups ← binding (λ exists. bind_cgroups exists ct.config.share_cgroupfs) devices
  binding (λ exists. bind_extra_mounts exists ct.config.extra_bind_mounts) cgroups

unfoldable pub bind_private_dirs : Container → Owner → Draft → Sys Draft
bind_private_dirs ct owner draft =
    wrapping (codes "bind private storage")
      (bind_private owner ct.name ct.config.private_dirs draft.builder)
    >>= λ builder. pure (record draft { builder = builder })
