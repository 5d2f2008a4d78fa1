-- ===== src/Create/Source.antt =====
-- internal/create/create.go: where saveImageToContainer gets an image from.
use nsbox.Base.{Text, codes, is_empty, if◌then◌else◌, Result, wrap_err, reject, ◌>>=◌, ◌>>◌}
use nsbox.Os.{Sys}
use nsbox.Image.{Image}

-- The libraries: lxtempdir.Create, ParseReference, remote.Image, NewTag, tarball.ImageFromPath, and
-- untar.Untar of an image into a directory. Images and references are opaque.
pub record Libraries : Type 0 where
  pub temp_dir : Result Text
  pub parse_reference : Text → Result Text
  pub remote_image : Text → Result Text
  pub new_tag : Text → Result Text
  pub image_from_path : Text → Text → Result Text
  pub untar : Text → Text → Sys (Unit {0})

-- From the registry, or from a tar file.
unfoldable pub docker_image : Libraries → Image → Text → Result Text
docker_image libraries img tar_override =
    if is_empty tar_override
    then (reject (is_empty img.remote)
          (codes "image has no remote reference (use -tar to use a local image)")
        >> (wrap_err (codes "failed to parse Remote reference")
              (libraries.parse_reference img.remote)
            >>= λ ref.
                wrap_err (codes "failed to load image from remote") (libraries.remote_image ref)))
    else (wrap_err (codes "failed to parse Remote as tag") (libraries.new_tag img.target) >>= λ tag.
        wrap_err (codes "failed to load image from tar")
          (libraries.image_from_path tar_override tag))
