-- ===== src/Daemon/Direct/Spared.antt =====
-- What the start of a container leaves alone: the whole of it.
use nsbox.Base.{
  Text, List, [], ◌∷◌, codes, Bool, true, false, contains, str_eq, Result, wrap_err, ◌≡◌, refl,
}
use nsbox.FilePath.{join_path}
use nsbox.Os.{wrapping, ignoring, is_not_exist}
use nsbox.Os.Calls.{remove}
use nsbox.Os.Frame.{Leaves, Leaves->>=, Leaves-if, Leaves-remove, Leaves-symlink}
use nsbox.Container.Data.{Container}
use nsbox.Container.Files.{lifted, storage_child}
use nsbox.Nspawn.{Builder, add_bind, add_bind_to}
use nsbox.Daemon.Direct.{Draft, binding, setenv}
use nsbox.Daemon.Direct.Begin.{Layer, Host, in_container_priv_path, priv}
use nsbox.Daemon.Direct.Binds.{
  bind_to, bind_programs, bind_images, chain_names, bind_journal, mask_tmpfiles, prepare_booted,
  prepare_unbooted, provide_home, bind_shared,
}
use nsbox.Daemon.Direct.Run.{bind_own, prepare_kind}
use nsbox.Daemon.Direct.Untouched.{Leaves-bind_home}

module _ (p : Text) where
  pub Leaves-binding :
      (f : (Text → Bool) → Builder → Builder) (draft : Draft) → Leaves p (binding f draft)
  unfolding binding
  Leaves-binding f draft = λ w. refl

  pub Leaves-bind_to : (host dest : Text) (draft : Draft) → Leaves p (bind_to host dest draft)
  unfolding bind_to
  Leaves-bind_to host dest draft = Leaves-binding (λ exists. add_bind_to exists host dest) draft

  Leaves-bind_programs :
      (host : Host) (data_dir : Text) (draft : Draft) → Leaves p (bind_programs host data_dir draft)
  unfolding bind_programs
  Leaves-bind_programs host data_dir draft =
      Leaves->>= p
        (bind_to (join_path (data_dir ∷ codes "scripts" ∷ [])) (priv (codes "scripts")) draft) _
        (Leaves-bind_to (join_path (data_dir ∷ codes "scripts" ∷ [])) (priv (codes "scripts"))
          draft)
        (λ scripts.
          Leaves->>= p (lifted (wrap_err (codes "failed to locate nsbox-host") host.nsbox_host)) _
            (λ w. refl)
            (λ nsbox_host. Leaves-bind_to nsbox_host (priv (codes "bin/nsbox-host")) scripts))

  Leaves-bind_images :
      (first : Bool) (chain : List Layer) (draft : Draft) → Leaves p (bind_images first chain draft)
  unfolding bind_images
  Leaves-bind_images first [] draft = λ w. refl
  Leaves-bind_images first (layer ∷ chain) draft =
      let dest = join_path (in_container_priv_path ∷ codes "images" ∷ layer.name ∷ []) in
      Leaves->>= p (bind_to layer.root_path dest draft) _
        (Leaves-bind_to layer.root_path dest draft)
        (λ bound.
          Leaves-bind_images false chain
            (setenv (codes "NSBOX_IMAGE_CHAIN") (chain_names bound.environ first layer.name) bound))

  Leaves-bind_journal : (id : Text) (draft : Draft) → Leaves p (bind_journal id draft)
  unfolding bind_journal
  Leaves-bind_journal id draft =
      let journal = join_path (codes "/var/log/journal" ∷ id ∷ []) in
      Leaves->>= p (binding (λ exists. add_bind exists journal) draft) _
        (Leaves-binding (λ exists. add_bind exists journal) draft)
        (λ here. Leaves-bind_to journal (codes "/run/host/journal") here)

  pub Leaves-bind_own :
      (host : Host) (ct : Container) (host_priv data_dir : Text) (draft : Draft)
      → Leaves p (bind_own host ct host_priv data_dir draft)
  unfolding bind_own
  Leaves-bind_own host ct host_priv data_dir draft =
      Leaves->>= p (bind_to host_priv (codes "/run/host/nsbox") draft) _
        (Leaves-bind_to host_priv (codes "/run/host/nsbox") draft)
        (λ own.
          Leaves->>= p (bind_programs host data_dir own) _ (Leaves-bind_programs host data_dir own)
            (λ programs.
              Leaves->>= p
                (lifted
                  (wrap_err (codes "failed to get container base image path") host.main_sudo_group))
                _ (λ w. refl)
                (λ group.
                  Leaves->>= p
                    (lifted (wrap_err (codes "failed to resolve image chain") host.image_chain)) _
                    (λ w. refl)
                    (λ chain.
                      Leaves->>= p (bind_images true chain programs) _
                        (Leaves-bind_images true chain programs)
                        (λ images.
                          Leaves->>= p
                            (lifted (wrap_err (codes "failed to read machine id") host.machine_id))
                            _ (λ w. refl)
                            (λ id.
                              Leaves->>= p (bind_journal id images) _
                                (Leaves-bind_journal id images)
                                (λ journal.
                                  Leaves->>= p
                                    (lifted (
                                      wrap_err (codes "failed to locate release files")
                                        host.release_dir))
                                    _ (λ w. refl)
                                    (λ dir.
                                      Leaves->>= p (bind_to dir (priv (codes "release")) journal) _
                                        (Leaves-bind_to dir (priv (codes "release")) journal)
                                        (λ release w. refl)))))))))

  Leaves-mask_tmpfiles : (path : Text) → str_eq path p ≡ false → Leaves p (mask_tmpfiles path)
  unfolding mask_tmpfiles
  Leaves-mask_tmpfiles path away =
      Leaves->>= p
        (wrapping (codes "delete tmpfiles.d/x11.conf") (ignoring is_not_exist (remove path))) _
        (Leaves-remove p path away) (λ _. Leaves-symlink p path away (codes "/dev/null"))

  pub Leaves-prepare_kind :
      (ct : Container) (run_dir data_dir : Text) (draft : Draft)
      → str_eq (storage_child ct (codes "etc/tmpfiles.d/x11.conf" ∷ [])) p ≡ false
      → Leaves p (prepare_kind ct run_dir data_dir draft)
  unfolding prepare_kind prepare_booted bind_to binding prepare_unbooted
  Leaves-prepare_kind ct run_dir data_dir draft away =
      Leaves-if p ct.config.boot _ _
        (λ w.
          Leaves->>= p (mask_tmpfiles (storage_child ct (codes "etc/tmpfiles.d/x11.conf" ∷ []))) _
            (Leaves-mask_tmpfiles (storage_child ct (codes "etc/tmpfiles.d/x11.conf" ∷ [])) away)
            (λ _. Leaves-if p ct.config.virtual_network _ _ (λ w'. refl) (λ w'. refl)) w)
        (λ w. refl)

  pub Leaves-provide_home :
      (links : Result Text) (ct : Container) (home_dir : Text) (draft : Draft)
      → Leaves p (provide_home links ct home_dir draft)
  unfolding provide_home
  Leaves-provide_home links ct home_dir draft =
      Leaves-if p (contains ct.config.private_dirs (codes ".")) _ _ (λ w. refl)
        (Leaves-bind_home p links home_dir draft)

  pub Leaves-bind_shared :
      (ct : Container) (tmpdir : Text) (draft : Draft) → Leaves p (bind_shared ct tmpdir draft)
  unfolding bind_shared binding
  Leaves-bind_shared ct tmpdir draft = λ w. refl
