-- ===== src/Create/Atomic.antt =====
-- A creation that fails leaves the place of the container alone.
use nsbox.Base.{
  Text, ◌∷◌, [], ◌++◌, codes, true, false, not, if◌then◌else◌, Result, ok, err, panic, wrap_err,
  ◌≡◌, ◌⊎◌, inl, inr, refl, ◌∙◌, arith,
}
use nsbox.FilePath.{slash, join_path, dir_name}
use nsbox.Os.{World, Sys, continue, pure, crash, ◌>>=◌, wrapping}
use nsbox.Os.Calls.{below, rename, remove_all}
use nsbox.Os.Frame.{Leaves, Leaves->>=, Leaves-trying, Leaves-remove_all}
use nsbox.Os.Results.{Fails, rename-Renamed}
use nsbox.Container.Data.{Config, Container}
use nsbox.Container.Files.{
  lifted, storage, stage_suffix, create_staged, staged, rename_container, unstage,
}
use nsbox.Container.Files.Stage.{
  IsClean, storage-IsPlain, child_path, create_staged-keeps, create_staged-path,
}
use nsbox.FilePath.Beside.{beside_from}
use nsbox.Os.Yields.{Got, Yields}
use nsbox.Image.{Image}
use nsbox.Create.{save_image_to_container, removing, fill_staged, new_container}
use nsbox.Create.Source.{Libraries, docker_image}

-- A failed program has changed nothing at the path.
abbrev pub KeptIfFailed : Text → World → Result (Unit {0}) × World → Type 0
KeptIfFailed p w r = (r.0 ≡ ok tt) ⊎ (Fails r.0 × (r.1.at p ≡ w.at p))

unstage-KeptIfFailed : (p : Text) (ct : Container) (w : World) → KeptIfFailed p w (unstage ct w)
unfolding unstage rename_container
unstage-KeptIfFailed p ct w =
    elim (staged ct)
      as (λ b. KeptIfFailed p w (
        (if not b
            then crash (codes "cannot unstage unstaged container (?)")
            else rename ct.path (join_path (dir_name ct.path ∷ ct.name ∷ [])))
          w)) [
            | false ↦ inr (tt, refl)
            | true ↦ elim (rename-Renamed ct.path (join_path (dir_name ct.path ∷ ct.name ∷ [])) w) [
              | inl (o, there) ↦ inl o
              | inr (f, same) ↦ inr (f, same p)
            ]
          ]

-- A first part that leaves the path alone, and a second one that does for what the first part yields.
Leaves-first {ℓ κ ν} :
    {A : Type ℓ} {B : Type κ} (p : Text) (P : A → Type ν) (m : Sys A) (f : A → Sys B)
    → Leaves p m
    → Yields P m
    → ((a : A) → P a → Leaves p (f a))
    → Leaves p (m >>= f)
Leaves-first p P m f left yields h w = go (m w).0 (m w).1 (yields w) ∙ left w
  where
    go : (r : Result _) (w' : World) → Got P r → (continue r f w').1.at p ≡ w'.at p
    go (ok a) w' x = h a x w'
    go (err e) w' x = refl
    go (panic m) w' x = refl

-- Untar changes nothing outside of the directory that it is given.
abbrev pub StaysInside : Libraries → Type 0
StaysInside libraries =
    (image dir q : Text) → below dir q ≡ false → Leaves q (libraries.untar image dir)

module _ (encode : Config → Text) (data_path : Text → Text) (libraries : Libraries) (tar : Text)
    (name : Text) (config : Config) (p : Text) (clean : IsClean (data_path name ++ stage_suffix))
    (inside : below (data_path name) p ≡ true) (untars : StaysInside libraries)
    (elsewhere : Got (λ tmp. below tmp p ≡ false) libraries.temp_dir) where
  -- The staged storage is not on the way to the container's place.
  away_storage :
      (ct : Container) → ct.path ≡ data_path name ++ stage_suffix → below (storage ct) p ≡ false
  unfolding storage
  away_storage ct at =
      rw (at, child_path encode (data_path name) p inside clean (codes "storage") storage-IsPlain)
        (beside_from (data_path name) p b'.' (codes "stage" ++ (slash ∷ codes "storage")) inside
          (ground arith))

  Leaves-save :
      (img : Image) (ct : Container)
      → ct.path ≡ data_path name ++ stage_suffix
      → Leaves p (save_image_to_container libraries img tar ct)
  unfolding save_image_to_container
  Leaves-save img ct at =
      Leaves-first p (λ tmp. below tmp p ≡ false) (lifted libraries.temp_dir) _ (λ w. refl)
        (λ w. elsewhere)
        (λ tmp away.
          Leaves-trying p
            (lifted (docker_image libraries img tar) >>= λ image.
              wrapping (codes "failed to untar image") (libraries.untar image (storage ct)))
            (removing tmp)
            (Leaves->>= p (lifted (docker_image libraries img tar)) _ (λ w. refl)
              (λ image. untars image (storage ct) p (away_storage ct at)))
            (λ r.
              Leaves-trying p (remove_all tmp) (λ removed. lifted r) (Leaves-remove_all p tmp away)
                (λ removed w. refl)))

  Leaves-fill_staged :
      (img : Image) → Leaves p (fill_staged encode data_path libraries tar name config img)
  Leaves-fill_staged img =
      Leaves-first p (λ ct. ct.path ≡ data_path name ++ stage_suffix)
        (create_staged encode data_path name config) _
        (create_staged-keeps encode data_path name config p clean inside)
        (create_staged-path encode data_path name config)
        (λ ct at.
          Leaves->>= p (save_image_to_container libraries img tar ct) (λ _. pure ct)
            (Leaves-save img ct at) (λ _ w. refl))

  filled-KeptIfFailed :
      (img : Image) (w : World)
      → KeptIfFailed p w
          ((fill_staged encode data_path libraries tar name config img >>= unstage) w)
  filled-KeptIfFailed img w =
      go (fill_staged encode data_path libraries tar name config img w).0
        (fill_staged encode data_path libraries tar name config img w).1 (Leaves-fill_staged img w)
    where
      go :
          (r : Result Container) (w' : World)
          → w'.at p ≡ w.at p
          → KeptIfFailed p w (continue r unstage w')
      go (ok ct) w' kept = elim (unstage-KeptIfFailed p ct w') [
        | inl o ↦ inl o
        | inr (f, same) ↦ inr (f, same ∙ kept)
      ]
      go (err e) w' kept = inr (tt, kept)
      go (panic m) w' kept = inr (tt, kept)

-- If the creation of a container up to its move fails, whatever fails in it, nothing has changed at
-- the container's place nor below it. Untar is taken to change nothing outside of the directory that it
-- is given, the temporary directory not to lie on the way to that place, and joining one more element to
-- the staged path to write it behind a slash.
pub new_container-KeptIfFailed :
    (encode : Config → Text) (data_path : Text → Text) (libraries : Libraries)
    (image : Result Image) (tar name : Text) (config : Config) (p : Text) (w : World)
    → IsClean (data_path name ++ stage_suffix)
    → below (data_path name) p ≡ true
    → StaysInside libraries
    → Got (λ tmp. below tmp p ≡ false) libraries.temp_dir
    → KeptIfFailed p w (new_container encode data_path libraries image tar name config w)
unfolding new_container
new_container-KeptIfFailed encode data_path libraries image tar name config p w clean inside untars
      elsewhere =
    opened image
  where
    opened :
        (r : Result Image)
        → KeptIfFailed p w (
            (lifted (wrap_err (codes "failed to open image") r) >>= λ img.
            (fill_staged encode data_path libraries tar name config img >>= unstage))
              w)
    opened (ok img) =
        filled-KeptIfFailed encode data_path libraries tar name config p clean inside untars
          elsewhere img w
    opened (err e) = inr (tt, refl)
    opened (panic m) = inr (tt, refl)
