-- ===== src/Nspawn.antt =====
-- internal/nspawn/builder.go: the command line of systemd-nspawn. `exists` stands for os.Stat, which
-- answers whether a path on the host can be looked at.
pub mod Escape
pub mod Line
use nsbox.Base.{
  Text, List, [], ◌∷◌, ◌++◌, codes, Bool, true, false, map, join, is_empty, if◌then◌else◌, Result,
  ok, err, panic, errorf, Option, none, some,
}
use Escape.{escape_mount_path}

abbrev pub network_zone_prefix : Text
network_zone_prefix = codes "vz-"

pub record BindMount : Type 0 where
  pub host : Text
  pub dest : Text
  pub recursive : Bool

pub record Builder : Type 0 where
  pub nspawn : Text
  pub quiet : Bool
  pub as_pid2 : Bool
  pub boot : Bool
  pub keep_unit : Bool
  pub pipe_console : Bool
  pub network_veth : Bool
  pub network_zone : Text
  pub machine_directory : Text
  pub link_journal : Text
  pub machine_name : Text
  pub hostname : Text
  pub capabilities : List Text
  pub system_call_filter : Text
  pub binds : List BindMount
  pub command : List Text

-- NewBuilder, from what exec.LookPath answers.
unfoldable pub new_builder : Option Text → Result Builder
new_builder none = err (errorf (codes "systemd-nspawn is unavailable"))
new_builder (some nspawn) = ok (record {
  nspawn = nspawn;
  quiet = false;
  as_pid2 = false;
  boot = false;
  keep_unit = false;
  pipe_console = false;
  network_veth = false;
  network_zone = [];
  machine_directory = [];
  link_journal = [];
  machine_name = [];
  hostname = [];
  capabilities = [];
  system_call_filter = [];
  binds = [];
  command = [];
})

module _ (exists : Text → Bool) where
  unfoldable pub add_bind_full : Text → Text → Bool → Builder → Builder
  add_bind_full host dest recursive builder =
      if exists host
      then record builder {
        binds = builder.binds ++ record { host = host; dest = dest; recursive = recursive } ∷ [];
      }
      else builder

  unfoldable pub add_bind_to : Text → Text → Builder → Builder
  unfolding add_bind_full
  add_bind_to host dest = add_bind_full host dest false

  unfoldable pub add_recursive_bind_to : Text → Text → Builder → Builder
  unfolding add_bind_full
  add_recursive_bind_to host dest = add_bind_full host dest true

  unfoldable pub add_bind : Text → Builder → Builder
  unfolding add_bind_to
  add_bind path = add_bind_to path path

  unfoldable pub add_recursive_bind : Text → Builder → Builder
  unfolding add_recursive_bind_to
  add_recursive_bind path = add_recursive_bind_to path path

unfoldable pub add_arg : List Text → Text → List Text
add_arg target arg = target ++ (codes "--" ++ arg) ∷ []

unfoldable pub add_arg_value : List Text → Text → Text → List Text
unfolding add_arg
add_arg_value target arg value = add_arg target (arg ++ (codes "=" ++ value))

unfoldable pub maybe_add_arg_value : List Text → Text → Text → List Text
unfolding add_arg_value
maybe_add_arg_value target arg value =
    if is_empty value then target else add_arg_value target arg value

-- `if flag { addArg(&args, arg) }`
unfoldable pub add_flag : Bool → List Text → Text → List Text
unfolding add_arg
add_flag flag target arg = if flag then add_arg target arg else target

unfoldable pub bind_spec : BindMount → Text
unfolding escape_mount_path
bind_spec bind =
    let opts = if bind.recursive then codes "rbind" else codes "norbind" in
    join (codes ":") (escape_mount_path bind.host ∷ escape_mount_path bind.dest ∷ opts ∷ [])

unfoldable pub add_capabilities : List Text → List Text → List Text
add_capabilities args [] = args
add_capabilities args (capability ∷ rest) =
    add_capabilities (add_arg_value args (codes "capability") capability) rest

unfoldable pub add_binds : List Text → List BindMount → List Text
add_binds args [] = args
add_binds args (bind ∷ rest) = add_binds (add_arg_value args (codes "bind") (bind_spec bind)) rest

-- The switches without a value, in the order of the code.
switches : Builder → List Text
switches builder =
    let args = builder.nspawn ∷ [] in
    let args = add_flag builder.quiet args (codes "quiet") in
    let args = add_flag builder.as_pid2 args (codes "as-pid2") in
    let args = add_flag builder.boot args (codes "boot") in
    let args = add_flag builder.keep_unit args (codes "keep-unit") in
    let args = add_flag builder.pipe_console args (codes "pipe") in
    add_flag builder.network_veth args (codes "network-veth")

options : Builder → List Text → List Text
options builder args =
    let args = add_arg_value args (codes "directory") builder.machine_directory in
    let args = maybe_add_arg_value args (codes "link-journal") builder.link_journal in
    let args = maybe_add_arg_value args (codes "machine") builder.machine_name in
    let args = maybe_add_arg_value args (codes "hostname") builder.hostname in
    let args = maybe_add_arg_value args (codes "network-zone") builder.network_zone in
    maybe_add_arg_value args (codes "system-call-filter") builder.system_call_filter

unfoldable pub build : Builder → Result (List Text)
unfolding switches options
build builder =
    if is_empty builder.machine_directory
    then panic (codes "MachineDirectory must be set")
    else ok (
        add_binds (add_capabilities (options builder (switches builder)) builder.capabilities)
          builder.binds
        ++ builder.command)
