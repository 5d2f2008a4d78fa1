-- ===== src/Daemon/Direct/Files.antt =====
-- internal/daemon/direct.go: the files that the container reads when it starts, and the variables that
-- tell it about the user. Results of writes through fmt are dropped, as the code does.
use nsbox.Base.{ℕ, Text, [], ◌∷◌, ◌++◌, codes, is_empty, if◌then◌else◌, Dict, Result, wrap_err}
use nsbox.FilePath.{join_path}
use nsbox.Os.{Sys, pure, ◌>>=◌, ◌>>◌, wrapping, ignoring, trying, is_not_exist}
use nsbox.Os.Calls.{create, write, chmod, remove}
use nsbox.Container.Auth.{Auth, auto, manual}
use nsbox.Container.Data.{Container}
use nsbox.Container.Files.{lifted, storage_child, shell}
use nsbox.Userdata.Sudo.{SudoAccess, no_sudo, can_sudo, can_sudo_no_passwd}
use nsbox.Daemon.Direct.{Draft, setenv}

-- What Userdata says of the user besides the variables.
pub record User : Type 0 where
  pub username : Text
  pub uid : Text
  pub gid : Text
  pub home_dir : Text
  pub shell : Text

unfoldable pub sudo_group_of : Text → Text
sudo_group_of sudo_group = if is_empty sudo_group then codes "wheel" else sudo_group

unfoldable pub no_passwd_file : Container → Text
unfolding storage_child
no_passwd_file ct =
    storage_child ct (codes "etc" ∷ codes "sudoers.d" ∷ codes "10-nsbox-passwd" ∷ [])

unfoldable pub no_passwd_line : Text → Text
no_passwd_line group = codes "%" ++ (group ++ codes " ALL=(ALL:ALL) NOPASSWD: ALL")

-- ioutil.WriteFile
unfoldable pub write_file : Text → Text → ℕ → Sys (Unit {0})
write_file path text perm = create path perm >> write path text

abbrev pub can_sudo_value : SudoAccess → Text
can_sudo_value no_sudo = []
can_sudo_value can_sudo = codes "1"
can_sudo_value can_sudo_no_passwd = codes "1"

-- The file by which sudo asks for no password, there if it should not ask. An open or a chmod follows
-- the links at a path and on its way: `leads_to` is where it ends. A removal follows none at its end.
unfoldable pub set_no_passwd : (Text → Text) → SudoAccess → Text → Text → Sys (Unit {0})
unfolding write_file
set_no_passwd leads_to can_sudo_no_passwd path group =
    wrapping (codes "write nopasswd file") (write_file (leads_to path) (no_passwd_line group) 416)
    >> wrapping (codes "chmod nopasswd file") (chmod (leads_to path) 288)
set_no_passwd leads_to no_sudo path group =
    wrapping (codes "remove nopasswd file") (ignoring is_not_exist (remove path))
set_no_passwd leads_to can_sudo path group =
    wrapping (codes "remove nopasswd file") (ignoring is_not_exist (remove path))

-- setupSudo, given what GetSudoAccess answers.
unfoldable pub setup_sudo : (Text → Text) → SudoAccess → Text → Container → Draft → Sys Draft
unfolding setenv sudo_group_of no_passwd_file set_no_passwd
setup_sudo leads_to access image_sudo_group ct draft =
    let group = sudo_group_of image_sudo_group in
    let grouped = setenv (codes "NSBOX_SUDO_GROUP") group draft in
    let told = setenv (codes "NSBOX_CAN_SUDO") (can_sudo_value access) grouped in
    set_no_passwd leads_to access (no_passwd_file ct) group >> pure told

unfoldable pub set_user_env : Text → Container → User → Draft → Sys Draft
unfolding setenv shell
set_user_env host_machine_id ct user draft =
    let who =
      setenv (codes "NSBOX_UID") user.uid (setenv (codes "NSBOX_USER") user.username draft) in
    shell ct user.shell >>= λ user_shell.
    let shelled = setenv (codes "NSBOX_SHELL") user_shell who in
    let named = setenv (codes "NSBOX_CONTAINER") ct.name shelled in
    let hosted = setenv (codes "NSBOX_HOST_MACHINE") host_machine_id named in
    pure (if ct.config.boot then setenv (codes "NSBOX_BOOTED") (codes "1") hosted else hosted)

-- What fmt.Fprintf and Chmod return is not looked at.
abbrev pub dropping : Sys (Unit {0}) → Sys (Unit {0})
dropping m = trying m (λ r. pure tt)

unfoldable pub environ_line : Text → Text → Text
environ_line name value = name ++ (codes "=" ++ (value ++ codes "\n"))

unfoldable pub write_environ : Text → Dict Text → Sys (Unit {0})
unfolding environ_line
write_environ path [] = pure tt
write_environ path ((name, value) ∷ environ) =
    dropping (write path (environ_line name value)) >> write_environ path environ

unfoldable pub write_shadow_entry : Text → Result Text → Sys (Unit {0})
write_shadow_entry path shadow_line =
    lifted (wrap_err (codes "failed to get shadow line") shadow_line) >>= λ line.
    (wrapping (codes "failed to delete old shadow-entry") (ignoring is_not_exist (remove path))
      >> (create path 438
          >> (dropping (chmod path 0) >> dropping (write path (line ++ codes "\n")))))

unfoldable pub write_container_files :
    (Text → Text) → Auth → Text → Result Text → Dict Text → Sys (Unit {0})
unfolding write_environ write_shadow_entry
write_container_files leads_to auth host_priv_path shadow_line environ =
    let shared_env = leads_to (join_path (host_priv_path ∷ codes "shared-env" ∷ [])) in
    let shadow_entry = join_path (host_priv_path ∷ codes "shadow-entry" ∷ []) in
    create shared_env 438
    >> (write_environ shared_env environ
        >> elim auth [ auto ↦ write_shadow_entry shadow_entry shadow_line | manual ↦ pure tt ])
