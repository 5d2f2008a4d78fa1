-- ===== src/Container/Data.antt =====
-- internal/container/container.go: the configuration and the containers that carry one.
use nsbox.Base.{Text, List, Bool}
use nsbox.Container.Auth.{Auth}

pub record Config : Type 0 where
  pub image : Text
  pub boot : Bool
  pub auth : Auth
  pub xdg_desktop_exports : List Text
  pub xdg_desktop_extra : List Text
  pub extra_capabilities : List Text
  pub syscall_filters : List Text
  pub extra_bind_mounts : List Text
  pub private_dirs : List Text
  pub share_cgroupfs : Bool
  pub share_devices : List Text
  pub virtual_network : Bool

pub record Container : Type 0 where
  pub name : Text
  pub path : Text
  pub config : Config
