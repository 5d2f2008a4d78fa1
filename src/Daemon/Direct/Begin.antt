-- ===== src/Daemon/Direct/Begin.antt =====
-- internal/daemon/direct.go, the first part of RunContainerDirectNspawn: what is done before the
-- directories and files of the container are.
use nsbox.Base.{
  ℕ, Text, List, [], ◌∷◌, codes, true, join, if◌then◌else◌, Option, Dict, Result, ok, ◌>>=◌, ◌++◌,
  wrap_err,
}
use nsbox.FilePath.{join_path}
use nsbox.Nspawn.{Builder, network_zone_prefix, new_builder}
use nsbox.Network.{generate_unique_link_name}
use nsbox.Container.Data.{Container}
use nsbox.Container.Files.{storage}
use nsbox.Userdata.Sudo.{SudoAccess}
use nsbox.Userdata.Username.{machine_name}
use nsbox.Daemon.Direct.{Draft, setenv, get_xdg_runtime_dir}
use nsbox.Daemon.Direct.Network.{Zone, choose_zone}
use nsbox.Daemon.Direct.Files.{User}

-- An image of the chain: where it is, and its name.
pub record Layer : Type 0 where
  pub root_path : Text
  pub name : Text

-- What the varlink library answers.
pub record Varlink : Type 0 where
  pub new_service : Result (Unit {0})
  pub register_interface : Result (Unit {0})
  pub bind : Text → Result (Unit {0})
  pub get_listener : Result (Unit {0})

-- startVarlinkService, up to the goroutine that listens.
unfoldable pub start_varlink_service : Varlink → Text → Result (Unit {0})
start_varlink_service varlink host_priv_path = do
  _ ← wrap_err (codes "failed to create new varlink service") varlink.new_service
  _ ← wrap_err (codes "failed to register varlink interface") varlink.register_interface
  _ ← wrap_err (codes "failed to bind to varlink service") (
      varlink.bind (codes "unix://" ++ join_path (host_priv_path ∷ codes "host-service.sock" ∷ [])))
  wrap_err (codes "failed to prepare to listen on varlink service") varlink.get_listener

-- The answers of the other parts: the lock, exec.LookPath, the links, the random letters,
-- internal/paths, internal/image, the machine's id, /home, GetSudoAccess, getent's shadow entry,
-- NumericIds, varlink, the variables of this process, and where the kernel ends when it opens a path
-- and follows the links on the way.
pub record Host : Type 0 where
  pub run_locked : Result (Unit {0})
  pub nspawn : Option Text
  pub links : Result (List Text)
  pub letter : ℕ → ℕ
  pub firewall : Option (Result (Unit {0}))
  pub data_dir : Result Text
  pub nsbox_host : Result Text
  pub main_sudo_group : Result Text
  pub image_chain : Result (List Layer)
  pub machine_id : Result Text
  pub release_dir : Result Text
  pub home_links : Result Text
  pub tmpdir : Text
  pub sudo_access : SudoAccess
  pub shadow_entry : Result Text
  pub numeric_ids : ℕ × ℕ
  pub varlink : Varlink
  pub environ : List Text
  pub leads_to : Text → Text

abbrev pub in_container_priv_path : Text
in_container_priv_path = codes "/var/lib/.nsbox-priv"

abbrev pub priv : Text → Text
priv name = join_path (in_container_priv_path ∷ name ∷ [])

-- What is run in the end. The command ends when this process does.
pub record Launch : Type 0 where
  pub args : List Text
  pub env : List Text

-- The fields of the builder that depend on nothing but the container.
unfoldable pub configured : Container → Text → Text → Builder → Builder
unfolding storage machine_name
configured ct username zone builder = record builder {
  quiet = true;
  keep_unit = true;
  network_veth = ct.config.virtual_network;
  network_zone = zone;
  machine_directory = storage ct;
  link_journal = codes "host";
  machine_name = machine_name username ct.name;
  hostname = ct.name;
  capabilities = ct.config.extra_capabilities;
  system_call_filter = join (codes " ") ct.config.syscall_filters;
  boot = if ct.config.boot then true else builder.boot;
  as_pid2 = if ct.config.boot then builder.as_pid2 else true;
  pipe_console = if ct.config.boot then builder.pipe_console else true;
}

-- What has been found out before the container's files are worked on.
pub record Start : Type 0 where
  pub draft : Draft
  pub zone : Zone
  pub xdg_runtime_dir : Text

-- GenerateUniqueLinkName, with the error of the list of links that is made in it.
unfoldable pub link_name : Host → Container → Result Text
link_name host ct = do
  links ← wrap_err (codes "getting netlink list") host.links
  generate_unique_link_name links host.letter ct.name network_zone_prefix

unfoldable pub begin : Host → Container → User → Dict Text → Result Start
unfolding configured get_xdg_runtime_dir setenv
begin host ct user environ = do
  _ ← host.run_locked
  xdg_runtime_dir ← get_xdg_runtime_dir environ
  builder ← new_builder host.nspawn
  zone ← choose_zone ct.config.virtual_network ct.name (link_name host ct) host.firewall
  let draft : Draft = record {
    builder = configured ct user.username zone.name builder;
    environ = environ;
  }
  let named = setenv (codes "HOSTNAME") ct.name (setenv (codes "NSBOX_INTERNAL") (codes "1") draft)
  ok (record { draft = named; zone = zone; xdg_runtime_dir = xdg_runtime_dir })
