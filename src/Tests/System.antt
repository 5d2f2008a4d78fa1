-- ===== src/Tests/System.antt =====
-- Runs of the theorems about directories and mounts, each at a value of its own.
use nsbox.Base.{
  ℕ, zero, suc, Text, List, [], ◌∷◌, ◌++◌, codes, map, Bool, true, false, not, any, contains,
  is_empty, Option, none, some, str_eq, Result, Error, ok, err, panic, errorf, if◌then◌else◌,
  length, all, All, split, ◌≡◌, ◌≢◌, ◌↔◌, ◌<◌, ◌+◌, ◌*◌, refl, arith, inl, inr, ◌||◌, ltb,
}
use nsbox.FilePath.{absolute_text, slash}
use nsbox.FilePath.Joined.{IsPlain}
use nsbox.Container.Data.{Config}
use nsbox.Container.Auth.{auto}
use nsbox.Container.Name.{validate_name, is_name_char, validate_name_iff, validate_name-IsPlain}
use nsbox.Container.Validate.{check_config}
use nsbox.Container.Validate.Accepted.{check_config_iff}
use nsbox.Nspawn.{Builder, BindMount, build, bind_spec}
use nsbox.Nspawn.Line.{build-eq, concat, arguments, fields, read_fields-bind_spec}
use nsbox.Nspawn.Escape.{read_fields}
use nsbox.Os.{World, Inode, dir}
use nsbox.Daemon.Mkdir.{mkdir_all_owned_by_user}
use nsbox.Daemon.Mkdir.OnePart.{or_owned}
use nsbox.Daemon.Mkdir.Ownership.{mkdir_all-keeps, mkdir_all-owned, directories}
use nsbox.Daemon.Private.{bind_private}
use nsbox.Daemon.Private.Below.{private_mount}
use nsbox.Daemon.Private.Mounts.{bind_private-below}

-- The host's root and a home directory, and no failure.
abbrev root_dir : Inode
root_dir = record { node = dir; uid = 0; gid = 0; mode = 493 }

abbrev host : World
host = record {
  at = λ p. if str_eq p (codes "/home") || str_eq p (codes "/home/me") then some root_dir else none;
  faults = [];
}

mkdir_all-keeps_example :
    (mkdir_all_owned_by_user (codes "/home/me/a") 1000 1000 448 host).1.at (codes "/home")
    ≡ some root_dir
unfolding str_eq
mkdir_all-keeps_example =
    mkdir_all-keeps (codes "/home/me/a") 1000 1000 448 host (codes "/home") root_dir refl

mkdir_all-owned_example :
    ((mkdir_all_owned_by_user (codes "/home/me/a") 1000 1000 448 host).0 ≡ ok tt)
    × ((mkdir_all_owned_by_user (codes "/home/me/a") 1000 1000 448 host).1.at (codes "/home/me/a")
        ≡ or_owned
            (host.at (codes "/home/me/a"))
            (any (λ q. str_eq q (codes "/home/me/a")) (directories (codes "/home/me/a")))
            1000
            1000
            448)
mkdir_all-owned_example =
    mkdir_all-owned (codes "/home/me/a") 1000 1000 448 host (codes "/home/me/a") refl

abbrev config : Config
config = record {
  image = codes "fedora";
  boot = true;
  auth = auto;
  xdg_desktop_exports = [];
  xdg_desktop_extra = [];
  extra_capabilities = [];
  syscall_filters = [];
  extra_bind_mounts = [];
  private_dirs = codes ".cache" ∷ [];
  share_cgroupfs = false;
  share_devices = [];
  virtual_network = true;
}

config_accepted : check_config config ≡ ok tt
unfolding nsbox.Container.Validate.Patterns.has_dots nsbox.FilePath.is_abs nsbox.Base.has_prefix
config_accepted = (check_config_iff config).1 (record {
  binds = tt;
  filters = tt;
  relative = ((ground arith, refl), tt);
  no_parent = ((ground arith, refl), tt);
  network = refl;
  devices = tt;
})

named : validate_name (codes "toolbox") ≡ ok tt
unfolding is_name_char
named = (validate_name_iff (codes "toolbox")).1 (ground arith, refl)

my_home-IsPlain : All IsPlain (codes "home" ∷ codes "me" ∷ [])
unfolding is_name_char
my_home-IsPlain = (
  validate_name-IsPlain (codes "home") ((validate_name_iff (codes "home")).1 (ground arith, refl)),
  (
    validate_name-IsPlain (codes "me") ((validate_name_iff (codes "me")).1 (ground arith, refl)),
    tt,
  ),
)

abbrev builder : Builder
builder = record {
  nspawn = codes "systemd-nspawn";
  quiet = true;
  as_pid2 = false;
  boot = true;
  keep_unit = true;
  pipe_console = false;
  network_veth = false;
  network_zone = [];
  machine_directory = codes "/var/lib/nsbox";
  link_journal = [];
  machine_name = codes "box";
  hostname = [];
  capabilities = codes "CAP_NET_ADMIN" ∷ [];
  system_call_filter = [];
  binds = [];
  command = [];
}

bind_private-below_example :
    (bind_private
      (record { home_dir = absolute_text (codes "home" ∷ codes "me" ∷ []); uid = 1000; gid = 1000 })
      (codes "toolbox")
      config.private_dirs
      builder
      host).0
    ≡ ok (record builder {
      binds =
          builder.binds
          ++ map
              (private_mount (codes "home" ∷ codes "me" ∷ []) (codes "toolbox"))
              config.private_dirs;
    })
bind_private-below_example =
    bind_private-below (codes "home") (codes "me" ∷ []) (codes "toolbox") 1000 1000 config builder
      host my_home-IsPlain named config_accepted refl

abbrev mount : BindMount
mount = record { host = codes "/srv/a:b"; dest = codes "/mnt"; recursive = true }

read_fields-bind_spec_example : read_fields (bind_spec mount) ≡ fields mount
read_fields-bind_spec_example = read_fields-bind_spec mount

build-eq_example :
    build builder ≡ ok (builder.nspawn ∷ (concat (arguments builder) ++ builder.command))
build-eq_example = build-eq builder
