-- ===== src/Daemon/Direct/Carried.antt =====
-- From its first builder to its command, the start of a container only adds bind mounts to the builder.
use nsbox.Base.{Text, List, [], ◌∷◌, codes, Result, ok, err, panic, wrap_err, ◌≡◌, refl}
use nsbox.FilePath.{join_path}
use nsbox.Os.{wrapping}
use nsbox.Os.Calls.{mkdir_all}
use nsbox.Nspawn.{Builder, BindMount, add_bind, build}
use nsbox.Container.Data.{Container}
use nsbox.Container.Files.{lifted, shell}
use nsbox.Daemon.Private.{Owner}
use nsbox.Daemon.Direct.{Draft, binding, setenv}
use nsbox.Userdata.Account.{shadow_line}
use nsbox.Daemon.Direct.Begin.{start_varlink_service, Host, Launch, Start, priv}
use nsbox.Daemon.Direct.Binds.{bind_to, host_priv_path, provide_home, bind_shared}
use nsbox.Daemon.Direct.Files.{
  User, no_passwd_file, set_no_passwd, set_user_env, setup_sudo, write_container_files,
  sudo_group_of,
}
use nsbox.Daemon.Direct.Run.{
  bind_own, prepare_kind, bind_common, finish_start, assemble_in, assemble, launch, launch_env,
  container_command,
}
use nsbox.Os.Yields.{Got, Yields, Yields->>=, Yields-after, Yields-wrapping}
use nsbox.Daemon.Direct.Launched.{Same, same, Same-add_bind, From, From-if, Yields-binding}
use nsbox.Daemon.Direct.Ran.{
  Yields-bind_to, Yields-bind_own, Yields-provide_home, Yields-prepare_kind,
}
use nsbox.Daemon.Direct.Ran.Shared.{Yields-bind_shared, Yields-bind_private_dirs}

-- The command line is that of the builder with some bind mounts and the command of the container.
abbrev pub IsLaunchOf : Host → Container → Builder → Launch → Type 0
IsLaunchOf host ct b l =
    ((binds : List BindMount) × (build
          (record b { binds = binds; command = container_command ct.config.boot })
        ≡ ok l.args))
    × (l.env ≡ launch_env host.environ ct.config.share_cgroupfs)

module _ (b : Builder) where
  Yields-bind_common :
      (host : Host) (ct : Container) (user : User) (draft : Draft)
      → From b draft
      → Yields (From b) (bind_common host ct user draft)
  unfolding bind_common
  Yields-bind_common host ct user draft from =
      let mail_dir = join_path (codes "/var/mail" ∷ user.username ∷ []) in
      let owner : Owner = record {
        home_dir = user.home_dir;
        uid = host.numeric_ids.0;
        gid = host.numeric_ids.1;
      } in
      Yields->>= (From b) (From b) (binding (λ exists. add_bind exists (codes "/run/media")) draft)
        _
        (Yields-binding b (λ exists. add_bind exists (codes "/run/media")) draft
          (λ there. Same-add_bind there (codes "/run/media")) from)
        (λ media h₁.
          Yields->>= (From b) (From b) (bind_to (codes "/etc") (codes "/run/host/etc") media) _
            (Yields-bind_to b (codes "/etc") (codes "/run/host/etc") media h₁)
            (λ etc h₂.
              Yields->>= (From b) (From b) (bind_to mail_dir (priv (codes "mail")) etc) _
                (Yields-bind_to b mail_dir (priv (codes "mail")) etc h₂)
                (λ mail h₃.
                  Yields->>= (From b) (From b) (provide_home host.home_links ct user.home_dir mail)
                    _ (Yields-provide_home b host.home_links ct user.home_dir mail h₃)
                    (λ home h₄.
                      Yields->>= (From b) (From b) (bind_shared ct host.tmpdir home) _
                        (Yields-bind_shared b ct host.tmpdir home h₄)
                        (λ shared h₅. Yields-bind_private_dirs b ct owner shared h₅)))))

  Yields-set_user_env :
      (id : Text) (ct : Container) (user : User) (draft : Draft)
      → From b draft
      → Yields (From b) (set_user_env id ct user draft)
  unfolding set_user_env setenv
  Yields-set_user_env id ct user draft from =
      Yields-after (From b) (shell ct user.shell) _ (λ s w. From-if b ct.config.boot _ _ from from)

  Yields-setup_sudo :
      (host : Host) (group : Text) (ct : Container) (draft : Draft)
      → From b draft
      → Yields (From b) (setup_sudo host.leads_to host.sudo_access group ct draft)
  unfolding setup_sudo setenv
  Yields-setup_sudo host group ct draft from =
      Yields-after (From b)
        (set_no_passwd host.leads_to host.sudo_access (no_passwd_file ct) (sudo_group_of group)) _
        (λ _ w. from)

  launch-IsLaunchOf :
      (host : Host) (ct : Container) (draft : Draft)
      → From b draft
      → Got (IsLaunchOf host ct b) (launch host ct draft)
  unfolding launch
  launch-IsLaunchOf host ct draft from = go draft.builder from
    where
      go :
          (c : Builder)
          → Same b c
          → Got (IsLaunchOf host ct b) (launch host ct (record draft { builder = c }))
      go c (same binds) =
          by_result (build (record b { binds = binds; command = container_command ct.config.boot }))
            refl
        where
          by_result :
              (r : Result (List Text))
              → build (record b { binds = binds; command = container_command ct.config.boot }) ≡ r
              → Got (IsLaunchOf host ct b) (elim r [
                | panic m ↦ panic m
                | err e ↦ err e
                | ok args ↦
                    ok (record {
                      args = args;
                      env = launch_env host.environ ct.config.share_cgroupfs;
                    })
              ])
          by_result (ok args) e = ((binds, e), refl)
          by_result (err x) e = tt
          by_result (panic m) e = tt

  Yields-finish_start :
      (host : Host) (ct : Container) (user : User) (dir id group : Text) (draft : Draft)
      → From b draft
      → Yields (IsLaunchOf host ct b) (finish_start host ct user dir id group draft)
  unfolding finish_start
  Yields-finish_start host ct user dir id group draft from =
      Yields->>= (From b) (IsLaunchOf host ct b) (set_user_env id ct user draft) _
        (Yields-set_user_env id ct user draft from)
        (λ told h₁.
          Yields->>= (From b) (IsLaunchOf host ct b)
            (wrapping (codes "setup sudo")
              (setup_sudo host.leads_to host.sudo_access group ct told))
            _
            (Yields-wrapping (From b) (codes "setup sudo")
              (setup_sudo host.leads_to host.sudo_access group ct told)
              (Yields-setup_sudo host group ct told h₁))
            (λ final h₂.
              Yields-after (IsLaunchOf host ct b)
                (wrapping (codes "failed to write private container files") (
                  write_container_files host.leads_to ct.config.auth dir
                    (shadow_line host.shadow_entry) final.environ))
                _
                (λ _.
                  Yields-after (IsLaunchOf host ct b)
                    (lifted (start_varlink_service host.varlink dir)) _
                    (λ _ w. launch-IsLaunchOf host ct final h₂))))

  Yields-assemble_in :
      (host : Host) (ct : Container) (user : User) (start : Start) (dir : Text)
      → From b start.draft
      → Yields (IsLaunchOf host ct b) (assemble_in host ct user start dir)
  unfolding assemble_in
  Yields-assemble_in host ct user start dir from =
      Yields-after (IsLaunchOf host ct b)
        (wrapping (codes "failed to create private directory") (mkdir_all dir 493)) _
        (λ _.
          Yields-after (IsLaunchOf host ct b)
            (lifted (wrap_err (codes "failed to locate nsbox data directory") host.data_dir)) _
            (λ data_dir.
              Yields->>= (λ r. From b r.2) (IsLaunchOf host ct b)
                (bind_own host ct dir data_dir start.draft) _
                (Yields-bind_own b host ct dir data_dir start.draft from)
                (λ (id, group, own) h₁.
                  Yields->>= (From b) (IsLaunchOf host ct b)
                    (prepare_kind ct start.xdg_runtime_dir data_dir own) _
                    (Yields-prepare_kind b ct start.xdg_runtime_dir data_dir own h₁)
                    (λ kind h₂.
                      Yields->>= (From b) (IsLaunchOf host ct b) (bind_common host ct user kind) _
                        (Yields-bind_common host ct user kind h₂)
                        (λ common h₃. Yields-finish_start host ct user dir id group common h₃)))))

  pub Yields-assemble :
      (host : Host) (ct : Container) (user : User) (start : Start)
      → From b start.draft
      → Yields (IsLaunchOf host ct b) (assemble host ct user start)
  unfolding assemble
  Yields-assemble host ct user start from =
      Yields-after (IsLaunchOf host ct b) (host_priv_path ct) _
        (λ dir. Yields-assemble_in host ct user start dir from)
