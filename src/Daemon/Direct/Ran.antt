-- ===== src/Daemon/Direct/Ran.antt =====
-- What is run in the end is the container: the parts of the start that bind what is the container's own.
pub mod Shared
use nsbox.Base.{
  Text, List, [], ◌∷◌, codes, Bool, true, false, contains, Result, if◌then◌else◌, wrap_err, ◌||◌,
}
use nsbox.FilePath.{is_abs, join_path}
use nsbox.Os.{wrapping}
use nsbox.Nspawn.{Builder, add_bind, add_bind_to, add_recursive_bind, add_recursive_bind_to}
use nsbox.Container.Data.{Container}
use nsbox.Container.Files.{lifted, storage_child}
use nsbox.Daemon.Private.{
  Owner, has_substring, bind_one, bind_private, private_home_storage_child, exists,
}
use nsbox.Daemon.Mkdir.{mkdir_all_owned_by_user}
use nsbox.Daemon.Direct.{
  Draft, binding, setenv, bind_home, bind_devices, bind_share_devices, bind_extra_mounts,
}
use nsbox.Daemon.Direct.Begin.{Layer, Host, in_container_priv_path, priv}
use nsbox.Daemon.Direct.Binds.{
  bind_to, bind_programs, bind_images, chain_names, bind_journal, mask_tmpfiles, prepare_booted,
  prepare_unbooted, system_bus, provide_home, bind_cgroups, bind_shared, bind_private_dirs,
}
use nsbox.Daemon.Direct.Run.{bind_own, prepare_kind}
use nsbox.Os.Yields.{Yields, Yields->>=, Yields-after, Yields-wrapping, Yields-if}
use nsbox.Daemon.Direct.Launched.{
  Same, same, Same-trans, Same-add_bind, Same-add_bind_to, Same-add_recursive_bind_to,
  Same-add_recursive_bind, Same-bind_share_devices, Same-bind_extra_mounts, From, From-setenv,
  Yields-binding, Yields-bind_home,
}

module _ (b : Builder) where
  pub Yields-bind_to :
      (host dest : Text) (draft : Draft) → From b draft → Yields (From b) (bind_to host dest draft)
  unfolding bind_to
  Yields-bind_to host dest draft =
      Yields-binding b (λ exists. add_bind_to exists host dest) draft
        (λ there. Same-add_bind_to there host dest)

  Yields-bind_programs :
      (host : Host) (data_dir : Text) (draft : Draft)
      → From b draft
      → Yields (From b) (bind_programs host data_dir draft)
  unfolding bind_programs
  Yields-bind_programs host data_dir draft from =
      let scripts_dir = join_path (data_dir ∷ codes "scripts" ∷ []) in
      Yields->>= (From b) (From b) (bind_to scripts_dir (priv (codes "scripts")) draft) _
        (Yields-bind_to scripts_dir (priv (codes "scripts")) draft from)
        (λ scripts from'.
          Yields-after (From b)
            (lifted (wrap_err (codes "failed to locate nsbox-host") host.nsbox_host)) _
            (λ nsbox_host. Yields-bind_to nsbox_host (priv (codes "bin/nsbox-host")) scripts from'))

  Yields-bind_images :
      (first : Bool) (chain : List Layer) (draft : Draft)
      → From b draft
      → Yields (From b) (bind_images first chain draft)
  unfolding bind_images
  Yields-bind_images first [] draft from = λ w. from
  Yields-bind_images first (layer ∷ chain) draft from =
      let dest = join_path (in_container_priv_path ∷ codes "images" ∷ layer.name ∷ []) in
      Yields->>= (From b) (From b) (bind_to layer.root_path dest draft) _
        (Yields-bind_to layer.root_path dest draft from)
        (λ bound from'.
          Yields-bind_images false chain
            (setenv (codes "NSBOX_IMAGE_CHAIN") (chain_names bound.environ first layer.name) bound)
            (From-setenv b (codes "NSBOX_IMAGE_CHAIN") (chain_names bound.environ first layer.name)
              bound from'))

  Yields-bind_journal :
      (id : Text) (draft : Draft) → From b draft → Yields (From b) (bind_journal id draft)
  unfolding bind_journal
  Yields-bind_journal id draft from =
      let journal = join_path (codes "/var/log/journal" ∷ id ∷ []) in
      Yields->>= (From b) (From b) (binding (λ exists. add_bind exists journal) draft) _
        (Yields-binding b (λ exists. add_bind exists journal) draft
          (λ there. Same-add_bind there journal) from)
        (λ here from'. Yields-bind_to journal (codes "/run/host/journal") here from')

  pub Yields-bind_own :
      (host : Host) (ct : Container) (dir data_dir : Text) (draft : Draft)
      → From b draft
      → Yields (λ r. From b r.2) (bind_own host ct dir data_dir draft)
  unfolding bind_own
  Yields-bind_own host ct dir data_dir draft from =
      Yields->>= (From b) (λ r. From b r.2) (bind_to dir (codes "/run/host/nsbox") draft) _
        (Yields-bind_to dir (codes "/run/host/nsbox") draft from)
        (λ own h₁.
          Yields->>= (From b) (λ r. From b r.2) (bind_programs host data_dir own) _
            (Yields-bind_programs host data_dir own h₁)
            (λ programs h₂.
              Yields-after (λ r. From b r.2)
                (lifted
                  (wrap_err (codes "failed to get container base image path") host.main_sudo_group))
                _
                (λ group.
                  Yields-after (λ r. From b r.2)
                    (lifted (wrap_err (codes "failed to resolve image chain") host.image_chain)) _
                    (λ chain.
                      Yields->>= (From b) (λ r. From b r.2) (bind_images true chain programs) _
                        (Yields-bind_images true chain programs h₂)
                        (λ images h₃.
                          Yields-after (λ r. From b r.2)
                            (lifted (wrap_err (codes "failed to read machine id") host.machine_id))
                            _
                            (λ id.
                              Yields->>= (From b) (λ r. From b r.2) (bind_journal id images) _
                                (Yields-bind_journal id images h₃)
                                (λ journal h₄.
                                  Yields-after (λ r. From b r.2)
                                    (lifted (
                                      wrap_err (codes "failed to locate release files")
                                        host.release_dir))
                                    _
                                    (λ dir'.
                                      Yields->>= (From b) (λ r. From b r.2)
                                        (bind_to dir' (priv (codes "release")) journal) _
                                        (Yields-bind_to dir' (priv (codes "release")) journal h₄)
                                        (λ release h₅ w. h₅)))))))))

  pub Yields-provide_home :
      (links : Result Text) (ct : Container) (home_dir : Text) (draft : Draft)
      → From b draft
      → Yields (From b) (provide_home links ct home_dir draft)
  unfolding provide_home
  Yields-provide_home links ct home_dir draft from =
      Yields-if (From b) (contains ct.config.private_dirs (codes ".")) _ _
        (λ w. From-setenv b (codes "NSBOX_HOME") home_dir draft from)
        (Yields-wrapping (From b) (codes "failed to bind home") (bind_home links home_dir draft)
          (Yields-bind_home b links home_dir draft from))

  Yields-prepare_booted :
      (ct : Container) (run_dir data_dir : Text) (draft : Draft)
      → From b draft
      → Yields (From b) (prepare_booted ct run_dir data_dir draft)
  unfolding prepare_booted
  Yields-prepare_booted ct run_dir data_dir draft from =
      let bind_file : (name dest : Text) (d : Draft)
          → From b d
          → Yields (From b) (bind_to (join_path (data_dir ∷ name ∷ [])) dest d) =
        λ name dest. Yields-bind_to (join_path (data_dir ∷ name ∷ [])) dest in
      Yields->>= (From b) (From b)
        (binding (λ exists. add_recursive_bind_to exists run_dir (priv (codes "usr-run"))) draft) _
        (Yields-binding b (λ exists. add_recursive_bind_to exists run_dir (priv (codes "usr-run")))
          draft (λ there. Same-add_recursive_bind_to there run_dir (priv (codes "usr-run"))) from)
        (λ run h₁.
          Yields->>= (From b) (From b)
            (bind_to (join_path (data_dir ∷ codes "nsbox-init.service" ∷ []))
              (codes "/etc/systemd/system/nsbox-init.service") run)
            _
            (bind_file (codes "nsbox-init.service") (codes "/etc/systemd/system/nsbox-init.service")
              run h₁)
            (λ init h₂.
              Yields->>= (From b) (From b)
                (bind_to (join_path (data_dir ∷ codes "nsbox-container.target" ∷ []))
                  (codes "/etc/systemd/system/nsbox-container.target") init)
                _
                (bind_file (codes "nsbox-container.target")
                  (codes "/etc/systemd/system/nsbox-container.target") init h₂)
                (λ target h₃.
                  Yields->>= (From b) (From b)
                    (bind_to (join_path (data_dir ∷ codes "getty-override.conf" ∷ []))
                      (codes "/etc/systemd/system/console-getty.service.d/00-nsbox.conf") target)
                    _
                    (bind_file (codes "getty-override.conf")
                      (codes "/etc/systemd/system/console-getty.service.d/00-nsbox.conf") target h₃)
                    (λ getty h₄.
                      Yields-after (From b)
                        (mask_tmpfiles (storage_child ct (codes "etc/tmpfiles.d/x11.conf" ∷ []))) _
                        (λ _.
                          Yields-if (From b) ct.config.virtual_network _ _
                            (bind_file (codes "wants-networkd.conf")
                              (codes
                                "/etc/systemd/system/nsbox-container.target.d/00-nsbox-networkd.conf")
                              getty h₄)
                            (λ w. h₄))))))

  Yields-prepare_unbooted :
      (run_dir : Text) (draft : Draft)
      → From b draft
      → Yields (From b) (prepare_unbooted run_dir draft)
  unfolding prepare_unbooted
  Yields-prepare_unbooted run_dir draft from =
      Yields->>= (From b) (From b)
        (binding (λ exists. add_bind exists (codes "/var/lib/systemd/coredump")) draft) _
        (Yields-binding b (λ exists. add_bind exists (codes "/var/lib/systemd/coredump")) draft
          (λ there. Same-add_bind there (codes "/var/lib/systemd/coredump")) from)
        (λ coredump h₁.
          Yields->>= (From b) (From b)
            (binding (λ exists. add_recursive_bind exists run_dir) coredump) _
            (Yields-binding b (λ exists. add_recursive_bind exists run_dir) coredump
              (λ there. Same-add_recursive_bind there run_dir) h₁)
            (λ run h₂.
              Yields-binding b (λ exists. add_bind exists (system_bus run.environ)) run
                (λ there. Same-add_bind there (system_bus run.environ)) h₂))

  pub Yields-prepare_kind :
      (ct : Container) (run_dir data_dir : Text) (draft : Draft)
      → From b draft
      → Yields (From b) (prepare_kind ct run_dir data_dir draft)
  unfolding prepare_kind
  Yields-prepare_kind ct run_dir data_dir draft from =
      Yields-if (From b) ct.config.boot _ _ (Yields-prepare_booted ct run_dir data_dir draft from)
        (Yields-prepare_unbooted run_dir draft from)
