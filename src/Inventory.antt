-- ===== src/Inventory.antt =====
-- internal/inventory/inventory.go: the containers of a user, and which is the default one. `data_path` is
-- paths.ContainerData of the user, `decode` reads a configuration, `read_dir` is ioutil.ReadDir.
pub mod Default
use nsbox.Base.{
  Text, List, [], ◌∷◌, ◌++◌, codes, Bool, true, false, ◌||◌, is_empty, str_eq, has_suffix, Option,
  Result, Error, ok, err, panic, wrap, if◌then◌else◌,
}
use nsbox.FilePath.{join_path}
use nsbox.Os.{Inode, Sys, pure, raise, crash, ◌>>=◌, ◌>>◌, wrapping, ignoring, trying, is_not_exist}
use nsbox.Os.Calls.{is_dir, stat, remove, symlink, rename}
use nsbox.Container.Data.{Config, Container}
use nsbox.Container.Files.{stage_suffix, open_container}

-- A container that cannot be opened is left out.
abbrev pub keep : Sys (List Container) → Result Container → Sys (List Container)
keep rest (ok ct) = rest >>= λ cts. pure (ct ∷ cts)
keep rest (err e) = rest
keep rest (panic m) = crash m

-- The link beside, which is then renamed.
unfoldable pub replace_default : Text → Container → Sys (Unit {0})
replace_default default_path ct =
    let default_tmp = default_path ++ codes ".tmp" in
    wrapping (codes "failed to unlink old temporary default link")
      (ignoring is_not_exist (remove default_tmp))
    >> (wrapping (codes "failed to symlink new temporary default container")
          (symlink ct.path default_tmp)
        >> wrapping (codes "failed to rename temporary link") (rename default_tmp default_path))

module _ (decode : Text → Option Config) (data_path : Text → Text) where
  unfoldable pub list_items : Text → List Text → Sys (List Container)
  list_items inventory [] = pure []
  list_items inventory (item ∷ items) =
      let rest = list_items inventory items in
      if has_suffix item stage_suffix
      then rest
      else (wrapping (codes "failed to stat " ++ item) (stat (join_path (inventory ∷ item ∷ [])))
          >>= λ i.
              if is_dir i then trying (open_container decode data_path item) (keep rest) else rest)

  abbrev pub list_read : Text → Result (List Text) → Sys (List Container)
  list_read inventory (ok items) = list_items inventory items
  list_read inventory (err e) =
      if is_not_exist e
      then pure []
      else raise (wrap e (codes "failed to read container inventory"))
  list_read inventory (panic m) = crash m

  -- List
  unfoldable pub list_containers : (Text → Sys (List Text)) → Text → Sys (List Container)
  list_containers read_dir inventory = trying (read_dir inventory) (list_read inventory)

  -- SetDefaultContainer; `default_path` is paths.ContainerDefault of the user.
  unfoldable pub set_default_container : Text → Text → Sys (Unit {0})
  set_default_container default_path name =
      if is_empty name || str_eq name (codes "-")
      then wrapping (codes "failed to unlink old default container")
          (ignoring is_not_exist (remove default_path))
      else (open_container decode data_path name >>= replace_default default_path)
