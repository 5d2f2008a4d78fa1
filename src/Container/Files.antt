-- ===== src/Container/Files.antt =====
-- internal/container/container.go: a container on the disk. How a configuration is written as JSON
-- and read is encoding/json's, given by `encode` and `decode`.
pub mod Update
pub mod Reopened
pub mod Stage
use nsbox.Base.{
  ℕ, Text, List, [], ◌∷◌, ◌++◌, codes, decimal, Bool, true, false, not, is_empty, Option, none,
  some, if◌then◌else◌, has_suffix, Dict, remove, Result, Error, ok, err, panic, errorf,
}
use nsbox.FilePath.{join_path, dir_name}
use nsbox.Os.{
  Inode, World, Sys, pure, raise, crash, ◌>>=◌, ◌>>◌, wrapping, ignoring, trying, is_not_exist,
}
use nsbox.Os.Calls.{stat, read_file, remove_all, mkdir_all, create, write, rename, chmod}
use nsbox.Container.Auth.{auto, manual}
use nsbox.Container.Data.{Config, Container}
use nsbox.Container.Name.{validate_name}
use nsbox.Container.Validate.{check_config}

abbrev pub config_json : Text
config_json = codes "config.json"

abbrev pub stage_suffix : Text
stage_suffix = codes ".stage"

-- A check before the first call of the system.
abbrev pub lifted {ℓ} : {A : Type ℓ} → Result A → Sys A
lifted r w = (r, w)

unfoldable pub storage : Container → Text
storage ct = join_path (ct.path ∷ codes "storage" ∷ [])

unfoldable pub storage_child : Container → List Text → Text
unfolding storage
storage_child ct children = join_path (storage ct ∷ children)

unfoldable pub exports_link : Container → Bool → Text
exports_link ct temp =
    join_path (ct.path ∷ (if temp then codes "exports.tmp" else codes "exports") ∷ [])

unfoldable pub exports_instance : Container → ℕ → Text
exports_instance ct n = join_path (ct.path ∷ (codes "exports." ++ decimal n) ∷ [])

unfoldable pub apply_environ_filter : Container → Dict Text → Dict Text
apply_environ_filter ct environ =
    if ct.config.boot then remove (codes "XDG_VTNR") environ else environ

-- The shell of the user, if the container has it.
abbrev pub shell_if : Text → Result Inode → Sys Text
shell_if shell (ok i) = pure shell
shell_if shell (err e) = pure (codes "/bin/bash")
shell_if shell (panic m) = crash m

unfoldable pub shell : Container → Text → Sys Text
unfolding storage_child
shell ct user_shell = trying (stat (storage_child ct (user_shell ∷ []))) (shell_if user_shell)

unfoldable pub staged : Container → Bool
staged ct = has_suffix ct.path stage_suffix

unfoldable pub rename_container : Container → Text → Sys (Unit {0})
rename_container ct newname = rename ct.path (join_path (dir_name ct.path ∷ newname ∷ []))

unfoldable pub unstage : Container → Sys (Unit {0})
unfolding rename_container staged
unstage ct =
    if not (staged ct)
    then crash (codes "cannot unstage unstaged container (?)")
    else rename_container ct ct.name

-- The file with the password: `hashed` is crypt's answer. What the write returns is not looked at.
write_password : Text → Text → Sys (Unit {0})
write_password path hashed =
    wrapping (codes "failed to create shadow password file") (create path 438)
    >> (wrapping (codes "failed to modify shadow password file permissions") (chmod path 0)
        >> trying (write path hashed) (λ r. pure tt))

abbrev hashed_to : Text → Result Text → Sys (Unit {0})
hashed_to path (ok hashed) = write_password path hashed
hashed_to path (err e) = crash (codes "crypt")
hashed_to path (panic m) = crash m

-- An open follows the links at the path and on its way: `leads_to` is where it ends.
unfoldable pub update_manual_password : (Text → Text) → Result Text → Container → Sys (Unit {0})
unfolding storage_child write_password
update_manual_password leads_to hashed ct = elim ct.config.auth [
  | auto ↦ crash (codes "container auth must be AuthManual to set a password")
  | manual ↦
      hashed_to
        (leads_to
          (storage_child ct (codes "/var/lib/.nsbox-priv" ∷ codes "shadow-custom-pass" ∷ [])))
        hashed
]

-- A configuration without an image is an old one.
abbrev pub with_image : Config → Config
with_image config =
    if is_empty config.image then record config { image = codes "fedora:30" } else config

module _ (encode : Config → Text) where
  unfoldable pub write_config_to_new_file : Config → Text → Sys (Unit {0})
  write_config_to_new_file config path = create path 438 >> write path (encode config)

  -- The checks, then a new file that is renamed onto the old one.
  unfoldable pub update_config : Container → Sys (Unit {0})
  unfolding write_config_to_new_file
  update_config ct =
      let config_path = join_path (ct.path ∷ config_json ∷ []) in
      let temp_config_path = config_path ++ codes ".tmp" in
      lifted (check_config ct.config)
      >> (wrapping (codes "failed to write temporary config")
            (write_config_to_new_file ct.config temp_config_path)
          >> wrapping (codes "failed to overwrite config") (rename temp_config_path config_path))

  -- What CreateStaged does where no container of the name is there.
  unfoldable pub stage_at : Text → Text → Config → Sys Container
  unfolding write_config_to_new_file
  stage_at path name initial_config =
      let staged_path = path ++ stage_suffix in
      wrapping (codes "failed to remove old staged container")
        (ignoring is_not_exist (remove_all staged_path))
      >> (wrapping (codes "failed to create container directory") (mkdir_all staged_path 493)
          >> (wrapping (codes "failed to create container storage directory")
                (mkdir_all (join_path (staged_path ∷ codes "storage" ∷ [])) 493)
              >> (wrapping (codes "failed to write container config") (
                    write_config_to_new_file initial_config
                      (join_path (staged_path ∷ config_json ∷ [])))
                  >> pure (record { name = name; path = staged_path; config = initial_config }))))

  abbrev pub if_absent : Text → Text → Config → Result Inode → Sys Container
  if_absent path name initial_config (ok i) =
      raise (errorf (codes "container " ++ (name ++ codes " already exists")))
  if_absent path name initial_config (err e) = stage_at path name initial_config
  if_absent path name initial_config (panic m) = crash m

  unfoldable pub create_staged : (Text → Text) → Text → Config → Sys Container
  create_staged data_path name initial_config =
      lifted (validate_name name)
      >> trying (stat (join_path (data_path name ∷ config_json ∷ [])))
          (if_absent (data_path name) name initial_config)

module _ (decode : Text → Option Config) where
  abbrev pub decoded : Text → Text → Option Config → Sys Container
  decoded path name none = raise (errorf (codes "failed to parse container config"))
  decoded path name (some config) =
      pure (record { name = name; path = path; config = with_image config })

  unfoldable pub open_path : Text → Text → Sys Container
  open_path path name =
      wrapping (codes "failed to read container config")
        (read_file (join_path (path ∷ config_json ∷ [])))
      >>= λ text. decoded path name (decode text)

  -- `data` is what paths.ContainerData makes of the name.
  unfoldable pub open_container : (Text → Text) → Text → Sys Container
  unfolding open_path
  open_container data_path name = lifted (validate_name name) >> open_path (data_path name) name
