-- ===== src/Tests/Users.antt =====
-- Runs of the theorems about images, users and processes, each at a value of its own.
use nsbox.Base.{
  ℕ, zero, suc, Text, List, [], ◌∷◌, ◌++◌, codes, Bool, true, false, any, is_empty, Option, none,
  some, str_eq, Result, Error, ok, err, panic, errorf, length, ltb, ◌≡◌, ◌≢◌, ◌↔◌, ◌<◌, ◌+◌, ◌*◌,
  refl, subst, arith, decimal, has_prefix,
}
use nsbox.Image.{
  Image, Files, open_image, open_tagged_image_at_path, check_tag, fill, replace_pairs,
  resolve_chain,
}
use nsbox.Image.Chain.{IsChain, resolve_chain_iff, resolve_chain-returns}
use nsbox.Userdata.Username.{escaped_username, machine_name-injective}
use nsbox.Userdata.Sudo.{
  CvtsudoersUser, CvtsudoersUserSpec, Caller, can_sudo, check_sudo_access_via_cvtsudoers,
}
use nsbox.Userdata.Sudo.Grants.{granted, allows, check_sudo_access_iff}
use nsbox.Session.Pty.{Stream, stdin, stdout, stderr}
use nsbox.Session.Exit.{
  exit_code, wait_nsenter, wait_systemd, dumps_core, wait_status, main_code, exit_code_same,
}

abbrev image : Text → Text → Image
image path parent = record {
  root_path = path;
  base = [];
  remote = [];
  target = [];
  parent = parent;
  sudo_group = [];
  valid_tags = [];
}

abbrev fedora : Image
fedora = image (codes "/images/fedora") []

abbrev booted : Image
booted = image (codes "/images/booted") (codes "fedora")

-- One directory of images, in which every name stands for the same image.
abbrev all_are : Image → Files
all_are img = record {
  exists = λ path. true;
  open_image_at_path = λ path. ok img;
  custom_images_dir = codes "/images";
  system_images_dir = ok (codes "/system");
  read_release = ok (record { branch = codes "edge"; version = codes "1" });
  product_name = codes "nsbox";
}

resolve_chain_iff_example :
    ((fuel : ℕ) × (resolve_chain (all_are fedora) false fuel fedora ≡ some (ok (fedora ∷ []))))
    ↔ IsChain (all_are fedora) false (fedora ∷ []) fedora
resolve_chain_iff_example = resolve_chain_iff (all_are fedora) false fedora (fedora ∷ [])

abbrev rank : Image → ℕ
rank img = length img.parent

opened_any : (name : Text) → open_image (all_are fedora) name false ≡ ok fedora
unfolding open_image open_tagged_image_at_path check_tag fill replace_pairs
opened_any name = refl

positive : (s : Text) → is_empty s ≡ false → 0 < length s
positive [] h = ground (arith, h)
positive (c ∷ s) h = omega arith

opened_fedora :
    (img parent : Image)
    → is_empty img.parent ≡ false
    → open_image (all_are fedora) img.parent false ≡ ok parent
    → rank parent < rank img
opened_fedora img parent p o =
    let same : fedora ≡ parent = ground (arith, o, opened_any img.parent) in
    subst (λ i. rank i < rank img) same (positive img.parent p)

resolve_chain-returns_example : resolve_chain (all_are fedora) false 7 booted ≢ none
resolve_chain-returns_example =
    resolve_chain-returns (all_are fedora) false rank opened_fedora 7 booted (ground arith)

machine_name-injective_example :
    (codes "box" ≡ codes "box") × (escaped_username (codes "me") ≡ escaped_username (codes "me"))
machine_name-injective_example =
    machine_name-injective (codes "me") (codes "me") (codes "box") (codes "box") refl

abbrev caller : Caller
caller = record {
  username = codes "me";
  uid = codes "1000";
  groups = (codes "root", codes "0") ∷ [];
}

-- `other ALL=(ALL) ALL`, as it is decoded.
abbrev other : CvtsudoersUser
other = record { username = codes "other"; userid = 0; usergroup = []; usergid = 0 }

abbrev spec : CvtsudoersUserSpec
spec = record {
  user_list = other ∷ [];
  command_specs = record { commands = codes "ALL" ∷ []; options = [] } ∷ [];
}

caller_granted : check_sudo_access_via_cvtsudoers caller true (ok (spec ∷ [])) ≡ ok can_sudo
unfolding check_sudo_access_via_cvtsudoers str_eq decimal nsbox.Base.digits nsbox.Base.digit
caller_granted = refl

check_sudo_access_iff_example : granted can_sudo ≡ any (allows caller) (spec ∷ [])
check_sudo_access_iff_example = check_sudo_access_iff caller (spec ∷ []) can_sudo caller_granted

abbrev piped : Stream → Bool
piped stdin = false
piped stdout = true
piped stderr = true

exit_code_same_example :
    (exit_code (wait_nsenter (ok (wait_status (dumps_core 6)))) ≡ ok (128 + 6))
    × (exit_code (wait_systemd (ok tt) (ok (main_code (dumps_core 6))) (ok 6)) ≡ ok (128 + 6))
exit_code_same_example = exit_code_same (dumps_core 6) (ground arith, ground arith)
