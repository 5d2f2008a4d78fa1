-- ===== src/Tests/Starts.antt =====
-- Runs of the theorems about the start of a container, each at a value of its own.
use nsbox.Base.{
  Text, [], ◌∷◌, codes, false, none, some, eperm, str_eq, contains, has_prefix, lookup, Dict,
  if◌then◌else◌, ok, ◌≡◌, refl,
}
use nsbox.Os.{World}
use nsbox.Nspawn.{Builder, new_builder}
use nsbox.Userdata.Sudo.{can_sudo}
use nsbox.Daemon.Direct.{Draft, get_xdg_runtime_dir, setenv}
use nsbox.Daemon.Direct.Network.{choose_zone, trust, untrust, close}
use nsbox.Daemon.Direct.Files.{User}
use nsbox.Network.{generate_unique_link_name, search_name, first_name}
use nsbox.Daemon.Direct.Begin.{link_name, Host, Start, begin, configured}
use nsbox.Daemon.Direct.Run.{assemble}
use nsbox.Os.Yields.{Yields}
use nsbox.Daemon.Direct.Outcome.{IsLaunch, assemble-IsLaunchOf}
use nsbox.Tests.Files.{box, old_file}

abbrev pub user : User
user = record {
  username = codes "me";
  uid = codes "1000";
  gid = codes "1000";
  home_dir = codes "/home/me";
  shell = codes "/bin/zsh";
}

abbrev pub environ : Dict Text
environ = (codes "XDG_RUNTIME_DIR", codes "/run/user/1000") ∷ []

abbrev host : Host
host = record {
  run_locked = ok tt;
  nspawn = some (codes "/usr/bin/systemd-nspawn");
  links = ok [];
  letter = λ n. 97;
  firewall = some (ok tt);
  data_dir = ok (codes "/usr/share/nsbox/data");
  nsbox_host = ok (codes "/usr/libexec/nsbox/nsbox-host");
  main_sudo_group = ok [];
  image_chain = ok (record { root_path = codes "/images/fedora"; name = codes "fedora" } ∷ []);
  machine_id = ok (codes "0123");
  release_dir = ok (codes "/usr/share/nsbox/release");
  home_links = ok (codes "/var/home");
  tmpdir = codes "/tmp";
  sudo_access = can_sudo;
  shadow_entry = ok (codes "me:x\n");
  numeric_ids = (1000, 1000);
  varlink = record {
    new_service = ok tt;
    register_interface = ok tt;
    bind = λ uri. ok tt;
    get_listener = ok tt;
  };
  environ = [];
  leads_to = λ path. path;
}

abbrev disk : World
disk = record {
  at = λ p. if str_eq p (codes "/etc/passwd") then some old_file else none;
  faults = none ∷ none ∷ some eperm ∷ [];
}

abbrev fresh : Builder
fresh = record {
  nspawn = codes "/usr/bin/systemd-nspawn";
  quiet = false;
  as_pid2 = false;
  boot = false;
  keep_unit = false;
  pipe_console = false;
  network_veth = false;
  network_zone = [];
  machine_directory = [];
  link_journal = [];
  machine_name = [];
  hostname = [];
  capabilities = [];
  system_call_filter = [];
  binds = [];
  command = [];
}

abbrev started : Start
started = record {
  draft = setenv (codes "HOSTNAME") box.name (
      setenv (codes "NSBOX_INTERNAL") (codes "1") (record {
        builder = configured box user.username (codes "nx-box") fresh;
        environ = environ;
      }));
  zone = record {
    name = codes "nx-box";
    now = trust (codes "vz-nx-box") ∷ [];
    deferred = untrust (codes "vz-nx-box") ∷ close ∷ [];
  };
  xdg_runtime_dir = codes "/run/user/1000";
}

begin-started : begin host box user environ ≡ ok started
unfolding begin link_name generate_unique_link_name search_name first_name contains has_prefix
    get_xdg_runtime_dir lookup str_eq new_builder choose_zone
begin-started = refl

assemble-IsLaunchOf_example :
    (tool : Text) × (host.nspawn ≡ some tool)
    × Yields (IsLaunch host box user tool started.zone.name) (assemble host box user started)
assemble-IsLaunchOf_example = assemble-IsLaunchOf host box user environ started begin-started

abbrev draft : Draft
draft = record { builder = fresh; environ = environ }
