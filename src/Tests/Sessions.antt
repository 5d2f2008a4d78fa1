-- ===== src/Tests/Sessions.antt =====
-- Runs of the theorems about the command that enters a container, each at a value of its own.
use nsbox.Base.{
  ℕ, Text, [], ◌∷◌, codes, decimal, digits, Bool, true, false, Option, none, some, drop, ok, ◌≡◌,
  refl, str_eq, if◌then◌else◌,
}
use nsbox.Session.Command.{ContainerEntrySpec, inner_command, build_nsbox_host_command, read_enter}
use nsbox.Session.Command.Received.{received, read_enter-build_nsbox_host_command}
use nsbox.Session.Doors.{Host, Session, unit, service_name, systemd_run}

abbrev spec : ContainerEntrySpec
spec = record {
  pty_path = codes "/dev/pts/3";
  pty_io = 5;
  env = (codes "LANG", codes "C=x") ∷ [];
  verbose = true;
  uid = 7;
  cwd = codes "/home/me=a";
  no_replay = false;
  command = codes "sh" ∷ codes "-l" ∷ [];
}

-- Stands for strconv.Atoi, on one number.
abbrev parse_int : Text → Option ℕ
parse_int text = if str_eq text (codes "7") then some 7 else none

abbrev parse_bool : Text → Option Bool
parse_bool text = none

read_enter-build_nsbox_host_command_example :
    read_enter parse_int parse_bool (drop 2 (build_nsbox_host_command spec))
    ≡ ok (received spec, inner_command spec)
unfolding decimal digits str_eq
read_enter-build_nsbox_host_command_example =
    read_enter-build_nsbox_host_command parse_int parse_bool spec refl refl

abbrev host : Host
host = record {
  leader = ok 4242;
  container_bus = ok tt;
  uuid = codes "00ff";
  selinux_enabled = false;
  current_label = ok [];
  nsenter_path = ok (codes "/usr/bin/nsenter");
  exec_result = ok tt;
  start = ok tt;
  environ = [];
}

abbrev run : Session
run =
    unit (codes "me-box") (service_name (codes "00ff"))
      (systemd_run (codes "me-box") (service_name (codes "00ff")) [] spec)

-- Each descriptor leads to the null device at first.
abbrev leads : ℕ → Text
leads n = codes "/dev/null"
