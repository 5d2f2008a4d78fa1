-- ===== src/Image.antt =====
-- internal/image/image.go: the images that containers are made from, and their parents. What the
-- code asks the file system for is a record of functions.
pub mod Chain
pub mod Tags
use nsbox.Base.{
  ℕ, zero, suc, ◌-◌, Text, List, [], ◌∷◌, ◌++◌, codes, Bool, true, false, Option, none, some,
  if◌then◌else◌, ◌||◌, not, is_empty, length, str_eq, any, contains, has_prefix, split_once, Result,
  Error, ok, err, panic, errorf, wrap, wrap_err, ◌>>=◌, ◌>>◌, reject,
}
use nsbox.FilePath.{join_path}

pub record Image : Type 0 where
  pub root_path : Text
  pub base : Text
  pub remote : Text
  pub target : Text
  pub parent : Text
  pub sudo_group : Text
  pub valid_tags : List Text

pub record ReleaseInfo : Type 0 where
  pub branch : Text
  pub version : Text

-- What the file system and the release files answer: os.Stat without an error, the metadata read by
-- openImageAtPath, paths.GetCustomImagesDir, paths.GetSystemImagesDir and release.Read.
pub record Files : Type 0 where
  pub exists : Text → Bool
  pub open_image_at_path : Text → Result Image
  pub custom_images_dir : Text
  pub system_images_dir : Result Text
  pub read_release : Result ReleaseInfo
  pub product_name : Text

-- The checks of the tag in openTaggedImageAtPath.
unfoldable pub check_tag : Bool → Text → List Text → Result (Unit {0})
check_tag false tag valid_tags = ok tt
check_tag true tag [] = reject (not (is_empty tag)) (codes "image does not accept a tag")
check_tag true tag (valid_tag ∷ valid_tags) =
    reject (is_empty tag) (codes "image requires a tag")
    >> reject (not (any (λ t. str_eq t tag) (valid_tag ∷ valid_tags)))
        (codes "image does not accept this tag")

-- strings.NewReplacer: at each position the first pair whose key stands there.
first_match : List (Text × Text) → Text → Option (Text × Text)
first_match [] s = none
first_match ((key, value) ∷ pairs) s =
    if has_prefix s key then some (key, value) else first_match pairs s

-- One position, with the replacement of what comes after it as a function of the characters to skip.
abbrev replace_one : ℕ → Option (Text × Text) → (ℕ → Text) → Text
replace_one c (some (key, value)) rest = value ++ rest (length key - 1)
replace_one c none rest = c ∷ rest 0

-- The count is of the characters of a key that are still to be passed over.
unfoldable pub replace_pairs : List (Text × Text) → ℕ → Text → Text
unfolding first_match
replace_pairs pairs n [] = []
replace_pairs pairs (suc n) (c ∷ s) = replace_pairs pairs n s
replace_pairs pairs zero (c ∷ s) =
    replace_one c (first_match pairs (c ∷ s)) (λ n. replace_pairs pairs n s)

unfoldable pub placeholders : Files → Text → ReleaseInfo → List (Text × Text)
placeholders files tag rel =
    (codes "{image_tag}", tag)
    ∷ (codes "{nsbox_branch}", rel.branch)
    ∷ (codes "{nsbox_version}", rel.version)
    ∷ (codes "{nsbox_product_name}", files.product_name)
    ∷ []

unfoldable pub fill : List (Text × Text) → Image → Image
fill pairs image = record image {
  base = replace_pairs pairs 0 image.base;
  remote = replace_pairs pairs 0 image.remote;
  target = replace_pairs pairs 0 image.target;
  parent = replace_pairs pairs 0 image.parent;
}

module _ (files : Files) where
  unfoldable pub open_tagged_image_at_path : Text → Text → Bool → Result Image
  open_tagged_image_at_path path tag validate_tag = do
    rel ← wrap_err (codes "failed to read release info") files.read_release
    image ← files.open_image_at_path path
    _ ← check_tag validate_tag tag image.valid_tags
    ok (fill (placeholders files tag rel) image)

  -- Where there is no system directory or nothing in it.
  open_system : Text → Text → Bool → Result Text → Result Image
  open_system name tag validate_tag (ok dir) =
      if files.exists (join_path (dir ∷ name ∷ []))
      then open_tagged_image_at_path (join_path (dir ∷ name ∷ [])) tag validate_tag
      else err (errorf (codes "does not exist"))
  open_system name tag validate_tag (err e) = err (errorf (codes "does not exist"))
  open_system name tag validate_tag (panic m) = panic m

  open_named : Text → Text → Bool → Result Image
  unfolding open_system
  open_named name tag validate_tag =
      if files.exists (join_path (files.custom_images_dir ∷ name ∷ []))
      then open_tagged_image_at_path (join_path (files.custom_images_dir ∷ name ∷ [])) tag
          validate_tag
      else open_system name tag validate_tag files.system_images_dir

  -- The tag is what follows the first colon.
  tag_of : Option Text → Text
  tag_of none = []
  tag_of (some tag) = tag

  unfoldable pub open_image : Text → Bool → Result Image
  unfolding open_named tag_of
  open_image name validate_tag =
      let (before, after) = split_once b':' name in open_named before (tag_of after) validate_tag

-- The images before one image, oldest first, and the image itself.
abbrev pub append_image : Image → Option (Result (List Image)) → Option (Result (List Image))
append_image img none = none
append_image img (some (ok chain)) = some (ok (chain ++ img ∷ []))
append_image img (some (err e)) = some (err e)
append_image img (some (panic m)) = some (panic m)

abbrev pub with_parent :
    Image → Result Image → (Image → Option (Result (List Image))) → Option (Result (List Image))
with_parent img (ok parent) resolve = append_image img (resolve parent)
with_parent img (err e) resolve =
    some (err (wrap e (codes "could not resolve parent " ++ img.parent)))
with_parent img (panic m) resolve = some (panic m)

-- On fuel, which counts the calls: none where it ends before the chain does.
unfoldable pub resolve_chain : Files → Bool → ℕ → Image → Option (Result (List Image))
resolve_chain files validate_tag zero img = none
resolve_chain files validate_tag (suc fuel) img =
    if not (is_empty img.parent)
    then with_parent img (open_image files img.parent validate_tag)
        (resolve_chain files validate_tag fuel)
    else some (ok (img ∷ []))
