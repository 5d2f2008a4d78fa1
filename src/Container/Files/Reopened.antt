-- ===== src/Container/Files/Reopened.antt =====
-- A configuration that was written is read back.
use nsbox.Base.{Text, [], ◌∷◌, false, is_empty, Option, some, ok, ◌≡◌, inl, inr, refl, subst}
use nsbox.FilePath.{join_path}
use nsbox.Os.{World, syscall}
use nsbox.Os.Calls.{read_file}
use nsbox.Os.Results.{Fails, Holds}
use nsbox.Container.Data.{Config, Container}
use nsbox.Container.Files.{config_json, update_config, open_path}
use nsbox.Container.Files.Update.{update_config-Replaced}

read_back :
    (path text : Text) (w : World)
    → w.faults ≡ []
    → Holds text (w.at path)
    → (read_file path w).0 ≡ ok text
unfolding read_file syscall
read_back path text w none_fails (i, e, n) = rw (none_fails, e, n) refl

open_back :
    (encode : Config → Text) (decode : Text → Option Config) (ct : Container) (w : World)
    → decode (encode ct.config) ≡ some ct.config
    → is_empty ct.config.image ≡ false
    → w.faults ≡ []
    → Holds (encode ct.config) (w.at (join_path (ct.path ∷ config_json ∷ [])))
    → (open_path decode ct.path ct.name w).0 ≡ ok ct
unfolding open_path
open_back encode decode ct w codec named none_fails h =
    rw
      (
        read_back (join_path (ct.path ∷ config_json ∷ [])) (encode ct.config) w none_fails h,
        codec,
        named,
      )
      refl

-- A container opened after a successful UpdateConfig, while no call fails, is the one that was updated,
-- with the whole of its configuration, if the decoder reads what the encoder wrote and an image is set.
pub open_path-update_config :
    (encode : Config → Text) (decode : Text → Option Config) (ct : Container) (w : World)
    → decode (encode ct.config) ≡ some ct.config
    → is_empty ct.config.image ≡ false
    → (update_config encode ct w).0 ≡ ok tt
    → (open_path decode ct.path ct.name (record (update_config encode ct w).1 { faults = [] })).0
      ≡ ok ct
open_path-update_config encode decode ct w codec named success =
    elim (update_config-Replaced encode ct w) [
      | inl (_, _, h) ↦
          open_back encode decode ct (record (update_config encode ct w).1 { faults = [] }) codec
            named refl h
      | inr (f, _) ↦ absurd (subst Fails success f)
    ]
