-- ===== src/Tests/Files.antt =====
-- Runs of the theorems about the files of a container, each at a value of its own.
use nsbox.Base.{
  Text, [], ◌∷◌, ◌++◌, codes, true, none, some, eperm, str_eq, has_prefix, join, split,
  if◌then◌else◌, ok, ◌≡◌, ◌⊎◌, refl, arith, Option, inl, inr, subst, Bool-cases, str_eq_iff, false,
}
use nsbox.FilePath.{join_path, clean, clean_parts, clean_step, is_abs}
use nsbox.FilePath.Joined.{IsPlain, word-IsPlain}
use nsbox.FilePath.Children.{join_path-child}
use nsbox.Os.{Inode, file, World, syscall}
use nsbox.Os.Calls.{below, create, write, rename}
use nsbox.Os.Results.{Fails, Holds}
use nsbox.Container.Auth.{auto}
use nsbox.Container.Data.{Config, Container}
use nsbox.Container.Validate.{check_config, check_array_items_against_regex, check_devices}
use nsbox.Container.Files.{stage_suffix, write_config_to_new_file, update_config, open_path}
use nsbox.Container.Files.Update.{config_path, update_config-Replaced}
use nsbox.Container.Files.Reopened.{open_path-update_config}
use nsbox.Container.Files.Stage.{IsClean}
use nsbox.Create.{new_container}
use nsbox.Create.Source.{Libraries}
use nsbox.Image.{Image}
use nsbox.FilePath.Beside.{has_prefix-append}
use nsbox.Os.Frame.{Leaves-create}
use nsbox.Create.Atomic.{KeptIfFailed, StaysInside, new_container-KeptIfFailed}

abbrev pub config : Config
config = record {
  image = codes "fedora";
  boot = true;
  auth = auto;
  xdg_desktop_exports = [];
  xdg_desktop_extra = [];
  extra_capabilities = [];
  syscall_filters = [];
  extra_bind_mounts = [];
  private_dirs = [];
  share_cgroupfs = true;
  share_devices = codes "/dev/kvm" ∷ [];
  virtual_network = true;
}

abbrev pub box : Container
box = record { name = codes "box"; path = codes "/inv/box"; config = config }

-- Stands for the encoding as JSON.
abbrev encode : Config → Text
encode c = codes "{" ++ (c.image ++ codes "}")

abbrev pub old_file : Inode
old_file = record { node = file (codes "{}"); uid = 0; gid = 0; mode = 420 }

-- The container's old file is there, and the third call fails.
abbrev pub disk : World
disk = record {
  at = λ p. if str_eq p (codes "/inv/box/config.json") then some old_file else none;
  faults = none ∷ none ∷ some eperm ∷ [];
}

update_config-Replaced_example :
    (((update_config encode box disk).0 ≡ ok tt)
      × (check_config config ≡ ok tt)
      × Holds (encode config) ((update_config encode box disk).1.at (config_path encode box)))
    ⊎ (Fails (update_config encode box disk).0
        × ((update_config encode box disk).1.at (config_path encode box)
            ≡ disk.at (config_path encode box)))
update_config-Replaced_example = update_config-Replaced encode box disk

abbrev pub data_path : Text → Text
data_path name = codes "/inv/" ++ name

pub inv-IsPlain : IsPlain (codes "inv")
unfolding str_eq
inv-IsPlain = word-IsPlain (codes "inv") (ground arith) refl refl refl

staged-IsPlain : IsPlain (codes "box.stage")
unfolding str_eq
staged-IsPlain = word-IsPlain (codes "box.stage") (ground arith) refl refl refl

staged-IsClean : IsClean (data_path (codes "box") ++ stage_suffix)
unfolding join
staged-IsClean part plain =
    join_path-child (codes "inv" ∷ codes "box.stage" ∷ []) part (inv-IsPlain, (staged-IsPlain, tt))
      plain

-- Unpacking writes one file.
abbrev libraries : Libraries
libraries = record {
  temp_dir = ok (codes "/tmp/nsbox-1");
  parse_reference = λ text. ok text;
  remote_image = λ ref. ok ref;
  new_tag = λ text. ok text;
  image_from_path = λ path tag. ok path;
  untar = λ archive dir. create (dir ++ codes "/os-release") 420;
}

inside_dir : (dir q : Text) → below dir q ≡ false → str_eq (dir ++ codes "/os-release") q ≡ false
unfolding below has_prefix
inside_dir dir q away = elim (Bool-cases (str_eq (dir ++ codes "/os-release") q)) [
  | inl e ↦
      let same = (str_eq_iff (dir ++ codes "/os-release") q).0 e in
      let there : has_prefix q (dir ++ codes "/") ≡ true =
        subst (λ t. has_prefix t (dir ++ codes "/") ≡ true) same
          (has_prefix-append dir (codes "/os-release") (codes "/")) in
      absurd (ground (arith, away, there))
  | inr e ↦ e
]

libraries-StaysInside : StaysInside libraries
libraries-StaysInside archive dir q away =
    Leaves-create q (dir ++ codes "/os-release") (inside_dir dir q away) 420

abbrev fedora : Image
fedora = record {
  root_path = codes "/images/fedora";
  base = [];
  remote = codes "fedora:33";
  target = [];
  parent = [];
  sudo_group = [];
  valid_tags = [];
}

new_container-KeptIfFailed_example :
    KeptIfFailed
      (codes "/inv/box/config.json")
      disk
      (new_container encode data_path libraries (ok fedora) [] (codes "box") config disk)
unfolding below str_eq has_prefix
new_container-KeptIfFailed_example =
    new_container-KeptIfFailed encode data_path libraries (ok fedora) [] (codes "box") config
      (codes "/inv/box/config.json") disk staged-IsClean refl libraries-StaysInside refl

-- A container without any list, on a disk that works.
abbrev plain : Container
plain = record box { config = record config { share_devices = [] } }

abbrev decode : Text → Option Config
decode text = some plain.config

abbrev good_disk : World
good_disk = record { at = disk.at; faults = [] }

plain-updated : (update_config encode plain good_disk).0 ≡ ok tt
unfolding update_config check_config check_array_items_against_regex check_devices
    write_config_to_new_file create write rename syscall below str_eq has_prefix join_path clean
    clean_parts clean_step is_abs split join
plain-updated = refl

open_path-update_config_example :
    (open_path decode plain.path plain.name
      (record (update_config encode plain good_disk).1 { faults = [] })).0
    ≡ ok plain
open_path-update_config_example =
    open_path-update_config encode decode plain good_disk refl refl plain-updated
