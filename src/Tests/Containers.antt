-- ===== src/Tests/Containers.antt =====
-- Runs of the theorems about containers, images, mounts and users, each at a value of its own.
use nsbox.Base.{
  ℕ, [], ◌∷◌, ◌++◌, codes, true, false, contains, str_eq, ok, has_prefix, length, ◌≡◌, ◌↔◌, ◌<◌,
  ◌+◌, refl, arith,
}
use nsbox.FilePath.Joined.{IsPlain}
use nsbox.Container.Data.{Config}
use nsbox.Container.Auth.{auto}
use nsbox.Container.Name.{validate_name, is_name_char, validate_name_iff, validate_name-IsPlain}
use nsbox.Container.Validate.{check_config}
use nsbox.Container.Validate.Accepted.{IsAcceptable, check_config_iff}
use nsbox.Network.{
  generate_unique_link_name, first_name, ifnamsiz, nsbox_prefix, generate_unique_link_name-lem,
  generate_unique_link_name-zone,
}

abbrev config : Config
config = record {
  image = codes "fedora";
  boot = true;
  auth = auto;
  xdg_desktop_exports = [];
  xdg_desktop_extra = [];
  extra_capabilities = [];
  syscall_filters = codes "@clock" ∷ [];
  extra_bind_mounts = codes "/srv:/mnt" ∷ [];
  private_dirs = codes ".cache" ∷ [];
  share_cgroupfs = false;
  share_devices = [];
  virtual_network = true;
}

check_config_iff_example : (check_config config ≡ ok tt) ↔ IsAcceptable config
check_config_iff_example = check_config_iff config

toolbox_name : validate_name (codes "toolbox") ≡ ok tt
unfolding is_name_char
toolbox_name = (validate_name_iff (codes "toolbox")).1 (ground arith, refl)

validate_name-IsPlain_example : IsPlain (codes "toolbox")
validate_name-IsPlain_example = validate_name-IsPlain (codes "toolbox") toolbox_name

abbrev letter_b : ℕ → ℕ
letter_b n = b'b'

link_name :
    generate_unique_link_name (codes "nx-box" ∷ []) letter_b (codes "box") (codes "vz-")
    ≡ ok (codes "nx-bob")
unfolding generate_unique_link_name contains str_eq
link_name = refl

generate_unique_link_name-lem_example :
    (contains (codes "nx-box" ∷ []) (codes "nx-bob") ≡ false)
    × (has_prefix (codes "nx-bob") nsbox_prefix ≡ true)
    × (length (codes "vz-") + length (codes "nx-bob") < ifnamsiz)
generate_unique_link_name-lem_example =
    generate_unique_link_name-lem (codes "nx-box" ∷ []) letter_b (codes "box") (codes "vz-")
      (codes "nx-bob") link_name

generate_unique_link_name-zone_example :
    generate_unique_link_name
      ((codes "vz-" ++ first_name (codes "box") 9) ∷ [])
      letter_b
      (codes "box")
      (codes "vz-")
    ≡ ok (first_name (codes "box") 9)
generate_unique_link_name-zone_example =
    generate_unique_link_name-zone letter_b (codes "box") (ground arith)
