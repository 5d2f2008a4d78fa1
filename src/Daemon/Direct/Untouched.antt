-- ===== src/Daemon/Direct/Untouched.antt =====
-- What the start of a container leaves alone on the host.
use nsbox.Base.{
  Text, [], ◌∷◌, ◌++◌, codes, false, str_eq, Dict, Result, ok, err, panic, wrap_err, ◌≡◌, refl, ◌∙◌,
}
use nsbox.FilePath.{join_path}
use nsbox.Os.{Inode, pure, ◌>>◌, wrapping, ignoring, is_not_exist}
use nsbox.Os.Calls.{create, write, chmod, remove, stat, lstat}
use nsbox.Os.Frame.{
  Leaves, Leaves->>=, Leaves-if, Leaves-create, Leaves-write, Leaves-chmod, Leaves-remove,
  Leaves-stat, Leaves-lstat, Leaves-trying,
}
use nsbox.Container.Auth.{Auth, auto, manual}
use nsbox.Container.Data.{Container}
use nsbox.Container.Files.{lifted, shell, shell_if, storage_child}
use nsbox.Userdata.Sudo.{SudoAccess, no_sudo, can_sudo, can_sudo_no_passwd}
use nsbox.Daemon.Direct.{
  Draft, binding, bind_home, bind_home_root, is_link, home_root, setenv, rel_to_root,
}
use nsbox.Daemon.Direct.Files.{
  User, no_passwd_file, set_no_passwd, write_file, no_passwd_line, setup_sudo, set_user_env,
  write_environ, write_shadow_entry, write_container_files, environ_line, sudo_group_of,
}

-- The files of the container.
module _ (p : Text) where
  Leaves-write_environ :
      (path : Text) (environ : Dict Text)
      → str_eq path p ≡ false
      → Leaves p (write_environ path environ)
  unfolding write_environ
  Leaves-write_environ path [] away = λ w. refl
  Leaves-write_environ path ((name, value) ∷ environ) away = λ w.
      Leaves-write_environ path environ away (write path (environ_line name value) w).1
      ∙ Leaves-write p path away (environ_line name value) w

  Leaves-write_shadow_entry :
      (path : Text) (line : Result Text)
      → str_eq path p ≡ false
      → Leaves p (write_shadow_entry path line)
  unfolding write_shadow_entry
  Leaves-write_shadow_entry path line away =
      Leaves->>= p (lifted (wrap_err (codes "failed to get shadow line") line)) _ (λ w. refl)
        (λ l.
          Leaves->>= p
            (wrapping (codes "failed to delete old shadow-entry")
              (ignoring is_not_exist (remove path)))
            _ (Leaves-remove p path away)
            (λ _. Leaves->>= p (create path 438) _ (Leaves-create p path away 438) (λ _ w.
              Leaves-write p path away (l ++ codes "\n") (chmod path 0 w).1
              ∙ Leaves-chmod p path away 0 w)))

  pub Leaves-write_container_files :
      (leads_to : Text → Text) (auth : Auth) (dir : Text) (line : Result Text) (environ : Dict Text)
      → str_eq (leads_to (join_path (dir ∷ codes "shared-env" ∷ []))) p ≡ false
      → str_eq (join_path (dir ∷ codes "shadow-entry" ∷ [])) p ≡ false
      → Leaves p (write_container_files leads_to auth dir line environ)
  unfolding write_container_files
  Leaves-write_container_files leads_to auth dir line environ env shadow =
      Leaves->>= p (create (leads_to (join_path (dir ∷ codes "shared-env" ∷ []))) 438) _
        (Leaves-create p (leads_to (join_path (dir ∷ codes "shared-env" ∷ []))) env 438)
        (λ _.
          Leaves->>= p
            (write_environ (leads_to (join_path (dir ∷ codes "shared-env" ∷ []))) environ) _
            (Leaves-write_environ (leads_to (join_path (dir ∷ codes "shared-env" ∷ []))) environ
              env)
            (λ _. last auth))
    where
      last :
          (a : Auth)
          → Leaves p (elim a [
            | auto ↦ write_shadow_entry (join_path (dir ∷ codes "shadow-entry" ∷ [])) line
            | manual ↦ pure tt
          ])
      last auto =
          Leaves-write_shadow_entry (join_path (dir ∷ codes "shadow-entry" ∷ [])) line shadow
      last manual = λ w. refl

  Leaves-set_no_passwd :
      (leads_to : Text → Text) (access : SudoAccess) (path group : Text)
      → str_eq path p ≡ false
      → str_eq (leads_to path) p ≡ false
      → Leaves p (set_no_passwd leads_to access path group)
  unfolding set_no_passwd write_file
  Leaves-set_no_passwd leads_to no_sudo path group away led = Leaves-remove p path away
  Leaves-set_no_passwd leads_to can_sudo path group away led = Leaves-remove p path away
  Leaves-set_no_passwd leads_to can_sudo_no_passwd path group away led =
      Leaves->>= p
        (wrapping (codes "write nopasswd file")
          (create (leads_to path) 416 >> write (leads_to path) (no_passwd_line group)))
        _
        (Leaves->>= p (create (leads_to path) 416) _ (Leaves-create p (leads_to path) led 416)
          (λ _. Leaves-write p (leads_to path) led (no_passwd_line group)))
        (λ _. Leaves-chmod p (leads_to path) led 288)

  pub Leaves-setup_sudo :
      (leads_to : Text → Text) (access : SudoAccess) (group : Text) (ct : Container) (draft : Draft)
      → str_eq (no_passwd_file ct) p ≡ false
      → str_eq (leads_to (no_passwd_file ct)) p ≡ false
      → Leaves p (setup_sudo leads_to access group ct draft)
  unfolding setup_sudo
  Leaves-setup_sudo leads_to access group ct draft away led =
      Leaves->>= p (set_no_passwd leads_to access (no_passwd_file ct) (sudo_group_of group)) _
        (Leaves-set_no_passwd leads_to access (no_passwd_file ct) (sudo_group_of group) away led)
        (λ _ w. refl)

  Leaves-shell : (ct : Container) (user_shell : Text) → Leaves p (shell ct user_shell)
  unfolding shell
  Leaves-shell ct user_shell =
      Leaves-trying p (stat (storage_child ct (user_shell ∷ []))) (shell_if user_shell)
        (Leaves-stat p (storage_child ct (user_shell ∷ []))) by_result
    where
      by_result : (r : Result Inode) → Leaves p (shell_if user_shell r)
      by_result (ok i) = λ w. refl
      by_result (err e) = λ w. refl
      by_result (panic m) = λ w. refl

  pub Leaves-set_user_env :
      (id : Text) (ct : Container) (user : User) (draft : Draft)
      → Leaves p (set_user_env id ct user draft)
  unfolding set_user_env
  Leaves-set_user_env id ct user draft =
      Leaves->>= p (shell ct user.shell) _ (Leaves-shell ct user.shell) (λ s w. refl)

  -- Home.
  Leaves-bind_home_root :
      (home_dir resolved : Text) (draft : Draft) → Leaves p (bind_home_root home_dir resolved draft)
  unfolding bind_home_root binding
  Leaves-bind_home_root home_dir resolved draft = λ w.
      Leaves->>= p
        (lifted (
          wrap_err (codes "failed to make home parent " ++ (resolved ++ codes " relative"))
            (rel_to_root resolved)))
        _ (λ w'. refl) (λ rel w'. refl) w

  pub Leaves-bind_home :
      (eval_home : Result Text) (home_dir : Text) (draft : Draft)
      → Leaves p (bind_home eval_home home_dir draft)
  unfolding bind_home binding
  Leaves-bind_home eval_home home_dir draft =
      Leaves->>= p (wrapping (codes "failed to stat home parent") (lstat home_root)) _
        (Leaves-lstat p home_root)
        (λ info.
          Leaves-if p (is_link info) _ _
            (Leaves->>= p (lifted (wrap_err (codes "failed to resolve home parent") eval_home)) _
              (λ w. refl)
              (λ resolved.
                Leaves-bind_home_root home_dir resolved
                  (setenv (codes "NSBOX_HOME") home_dir draft)))
            (λ w. refl))
