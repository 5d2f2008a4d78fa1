-- ===== src/Daemon/Direct/Run.antt =====
-- internal/daemon/direct.go, RunContainerDirectNspawn: the start of a container, up to the command that
-- is run.
use nsbox.Base.{
  Text, List, [], ◌∷◌, ◌++◌, codes, Bool, true, false, if◌then◌else◌, Dict, Result, ok, err, panic,
  wrap_err,
}
use nsbox.FilePath.{join_path}
use nsbox.Os.{World, Sys, pure, ◌>>=◌, wrapping}
use nsbox.Os.Calls.{mkdir_all}
use nsbox.Nspawn.{add_bind, build}
use nsbox.Container.Data.{Container}
use nsbox.Container.Files.{lifted}
use nsbox.Daemon.Private.{Owner}
use nsbox.Daemon.Direct.{Draft, binding}
use nsbox.Daemon.Direct.Network.{FirewallCall}
use nsbox.Daemon.Direct.Files.{User, setup_sudo, set_user_env, write_container_files}
use nsbox.Userdata.Account.{shadow_line}
use nsbox.Daemon.Direct.Begin.{start_varlink_service, Host, Launch, Start, begin, priv}
use nsbox.Daemon.Direct.Binds.{
  bind_to, host_priv_path, bind_programs, bind_images, bind_journal, prepare_booted,
  prepare_unbooted, provide_home, bind_shared, bind_private_dirs,
}

-- From the directory for the container's own files to the release files.
unfoldable pub bind_own : Host → Container → Text → Text → Draft → Sys (Text × Text × Draft)
bind_own host ct host_priv data_dir draft = do
  own ← bind_to host_priv (codes "/run/host/nsbox") draft
  programs ← bind_programs host data_dir own
  sudo_group ←
      lifted (wrap_err (codes "failed to get container base image path") host.main_sudo_group)
  chain ← lifted (wrap_err (codes "failed to resolve image chain") host.image_chain)
  images ← bind_images true chain programs
  machine_id ← lifted (wrap_err (codes "failed to read machine id") host.machine_id)
  journal ← bind_journal machine_id images
  release_dir ← lifted (wrap_err (codes "failed to locate release files") host.release_dir)
  release ← bind_to release_dir (priv (codes "release")) journal
  pure (machine_id, sudo_group, release)

-- What both kinds of containers are given of the host.
unfoldable pub bind_common : Host → Container → User → Draft → Sys Draft
bind_common host ct user draft = do
  media ← binding (λ exists. add_bind exists (codes "/run/media")) draft
  etc ← bind_to (codes "/etc") (codes "/run/host/etc") media
  mail ← bind_to (join_path (codes "/var/mail" ∷ user.username ∷ [])) (priv (codes "mail")) etc
  home ← provide_home host.home_links ct user.home_dir mail
  shared ← bind_shared ct host.tmpdir home
  let owner : Owner = record {
    home_dir = user.home_dir;
    uid = host.numeric_ids.0;
    gid = host.numeric_ids.1;
  }
  bind_private_dirs ct owner shared

abbrev pub container_command : Bool → List Text
container_command true = codes "--" ∷ codes "--unit=nsbox-container.target" ∷ []
container_command false = codes "/run/host/nsbox/scripts/nsbox-init.sh" ∷ []

unfoldable pub launch_env : List Text → Bool → List Text
launch_env environ share_cgroupfs =
    environ
    ++ (codes "NOTIFY_SOCKET="
        ∷ codes "SYSTEMD_NSPAWN_SHARE_NS_IPC=1"
        ∷ (if share_cgroupfs then codes "SYSTEMD_NSPAWN_USE_CGNS=0" ∷ [] else []))

unfoldable pub launch : Host → Container → Draft → Result Launch
launch host ct draft =
    let commanded = record draft.builder { command = container_command ct.config.boot } in
    elim (build commanded) [
      | panic m ↦ panic m
      | err e ↦ err e
      | ok args ↦
          ok (record { args = args; env = launch_env host.environ ct.config.share_cgroupfs })
    ]

unfoldable pub prepare_kind : Container → Text → Text → Draft → Sys Draft
prepare_kind ct xdg_runtime_dir data_dir draft =
    if ct.config.boot
    then prepare_booted ct xdg_runtime_dir data_dir draft
    else prepare_unbooted xdg_runtime_dir draft

-- From the variables that tell of the user to the command.
unfoldable pub finish_start : Host → Container → User → Text → Text → Text → Draft → Sys Launch
finish_start host ct user host_priv machine_id sudo_group draft = do
  told ← set_user_env machine_id ct user draft
  final ←
      wrapping (codes "setup sudo") (setup_sudo host.leads_to host.sudo_access sudo_group ct told)
  _ ← wrapping (codes "failed to write private container files") (
      write_container_files host.leads_to ct.config.auth host_priv (shadow_line host.shadow_entry)
        final.environ)
  _ ← lifted (start_varlink_service host.varlink host_priv)
  lifted (launch host ct final)

-- The part that works on the file system, given the directory for the container's own files.
unfoldable pub assemble_in : Host → Container → User → Start → Text → Sys Launch
assemble_in host ct user start host_priv = do
  _ ← wrapping (codes "failed to create private directory") (mkdir_all host_priv 493)
  data_dir ← lifted (wrap_err (codes "failed to locate nsbox data directory") host.data_dir)
  (machine_id, sudo_group, own) ← bind_own host ct host_priv data_dir start.draft
  kind ← prepare_kind ct start.xdg_runtime_dir data_dir own
  common ← bind_common host ct user kind
  finish_start host ct user host_priv machine_id sudo_group common

unfoldable pub assemble : Host → Container → User → Start → Sys Launch
assemble host ct user start = host_priv_path ct >>= assemble_in host ct user start

-- The whole: the result of the command, and the calls of the firewall, the deferred ones at the end.
abbrev pub run_started :
    (Launch → Result (Unit {0}))
    → Host
    → Container
    → User
    → Result Start
    → World
    → (Result (Unit {0}) × World) × List FirewallCall
run_started run host ct user (ok start) w =
    ((assemble host ct user start >>= λ l. lifted (run l)) w, start.zone.now ++ start.zone.deferred)
run_started run host ct user (err e) w = ((err e, w), [])
run_started run host ct user (panic m) w = ((panic m, w), [])

unfoldable pub run_container_direct_nspawn :
    (Launch → Result (Unit {0}))
    → Host
    → Container
    → User
    → Dict Text
    → World
    → (Result (Unit {0}) × World) × List FirewallCall
run_container_direct_nspawn run host ct user environ =
    run_started run host ct user (begin host ct user environ)
