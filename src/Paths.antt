-- ===== src/Paths.antt =====
-- internal/paths/paths.go: where things are. The constants that the build fills in are parameters.
use nsbox.Base.{
  Text, List, [], ◌∷◌, ◌++◌, codes, Bool, ◌||◌, if◌then◌else◌, has_suffix, Result, ok, err, errno,
  enoent, ◌>>=◌,
}
use nsbox.FilePath.{join_path, clean, dir_name}

pub record BuildConfig : Type 0 where
  pub state_dir : Text
  pub config_dir : Text
  pub share_dir : Text
  pub bin_dir : Text
  pub libexec_dir : Text
  pub product_name : Text

module _ (config : BuildConfig) where
  unfoldable pub storage_root : Text
  storage_root = config.state_dir ++ codes "/nsbox"

  unfoldable pub container_default : Text → Text
  unfolding storage_root
  container_default username = join_path (storage_root ∷ username ∷ codes "default" ∷ [])

  unfoldable pub container_inventory : Text → Text
  unfolding storage_root
  container_inventory username = join_path (storage_root ∷ username ∷ codes "inventory" ∷ [])

  unfoldable pub container_data : Text → Text → Text
  unfolding container_inventory
  container_data username name = join_path (container_inventory username ∷ name ∷ [])

  unfoldable pub get_custom_images_dir : Text
  get_custom_images_dir = join_path (config.config_dir ∷ codes "nsbox" ∷ codes "images" ∷ [])

  -- `self` is what GetExecutablePath answers, `exists` os.Stat without an error.
  module _ (exists : Text → Bool) (self : Result Text) where
    unfoldable pub get_path_relative_to_install_root : List Text → Result Text
    get_path_relative_to_install_root subpaths = do
      path ← self
      let up =
          if has_suffix path (codes "nsboxd") || has_suffix path (codes "nsbox-invoker")
          then codes ".." ∷ []
          else []
      let found = clean (join_path (dir_name path ∷ codes ".." ∷ (up ++ subpaths)))
      (if exists found then ok found else err (errno enoent))

    unfoldable pub get_system_images_dir : Result Text
    unfolding get_path_relative_to_install_root
    get_system_images_dir =
        get_path_relative_to_install_root
          (config.share_dir ∷ config.product_name ∷ codes "images" ∷ [])

    unfoldable pub get_release_data_dir : Result Text
    unfolding get_path_relative_to_install_root
    get_release_data_dir =
        get_path_relative_to_install_root
          (config.share_dir ∷ config.product_name ∷ codes "release" ∷ [])

    unfoldable pub get_data_dir : Result Text
    unfolding get_path_relative_to_install_root
    get_data_dir =
        get_path_relative_to_install_root
          (config.share_dir ∷ config.product_name ∷ codes "data" ∷ [])

    unfoldable pub get_main_executable : Result Text
    unfolding get_path_relative_to_install_root
    get_main_executable =
        get_path_relative_to_install_root (config.bin_dir ∷ config.product_name ∷ [])

    unfoldable pub get_private_executable : Text → Result Text
    unfolding get_path_relative_to_install_root
    get_private_executable name =
        get_path_relative_to_install_root (config.libexec_dir ∷ config.product_name ∷ name ∷ [])
