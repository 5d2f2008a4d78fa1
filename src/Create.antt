-- ===== src/Create.antt =====
-- internal/create/create.go: a new container is put together beside its place and then moved there.
-- `image` is image.Open's answer, `default_container` is DefaultContainer of internal/inventory.
pub mod Source
pub mod Atomic
use nsbox.Base.{Text, codes, Option, none, some, Result, ok, err, panic, wrap_err}
use nsbox.Os.{Sys, pure, crash, ◌>>=◌, ◌>>◌, wrapping, trying}
use nsbox.Os.Calls.{remove_all}
use nsbox.Image.{Image}
use Source.{Libraries, docker_image}
use nsbox.Container.Data.{Config, Container}
use nsbox.Container.Files.{lifted, storage, create_staged, unstage}
use nsbox.Inventory.{set_default_container}

-- The deferred end: an error of the removal is only logged.
abbrev pub removing : Text → Result (Unit {0}) → Sys (Unit {0})
removing tmp r = trying (remove_all tmp) (λ removed. lifted r)

unfoldable pub save_image_to_container : Libraries → Image → Text → Container → Sys (Unit {0})
save_image_to_container libraries img tar_override ct = lifted libraries.temp_dir >>= λ tmp.
    trying
      (lifted (docker_image libraries img tar_override) >>= λ image.
        wrapping (codes "failed to untar image") (libraries.untar image (storage ct)))
      (removing tmp)

module _ (encode : Config → Text) (data_path : Text → Text) (libraries : Libraries) where
  abbrev pub fill_staged : Text → Text → Config → Image → Sys Container
  fill_staged tar name config img = create_staged encode data_path name config >>= λ ct.
      (save_image_to_container libraries img tar ct >> pure ct)

  -- Up to the move.
  unfoldable pub new_container : Result Image → Text → Text → Config → Sys (Unit {0})
  new_container image tar name config =
      lifted (wrap_err (codes "failed to open image") image) >>= λ img.
      (fill_staged tar name config img >>= unstage)

  module _ (decode : Text → Option Config) where
    -- The first container becomes the default one.
    abbrev pub make_default : Text → Text → Result (Option Container) → Sys (Unit {0})
    make_default default_path name (ok none) =
        wrapping (codes "failed to set new default container")
          (set_default_container decode data_path default_path name)
    make_default default_path name (ok (some ct)) = pure tt
    make_default default_path name (err e) = pure tt
    make_default default_path name (panic m) = crash m

    -- CreateContainer; the shadow database is only looked at for a warning.
    unfoldable pub create_container :
        Result Image → Text → Sys (Option Container) → Text → Text → Config → Sys (Unit {0})
    create_container image tar default_container default_path name config =
        new_container image tar name config
        >> trying default_container (make_default default_path name)
