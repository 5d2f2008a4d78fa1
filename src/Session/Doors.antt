-- ===== src/Session/Doors.antt =====
-- internal/session/enter_nsenter.go and enter_systemd.go: the two ways into a container. What the
-- host answers, with calls of D-Bus and of SELinux, is a record; log output is left out.
use nsbox.Base.{
  ℕ, Text, List, [], ◌∷◌, ◌++◌, codes, decimal, map, Bool, is_empty, if◌then◌else◌, Dict, insert,
  Result, ok, wrap_err, ◌>>=◌,
}
use nsbox.Selinux.{get_exec_label}
use nsbox.Session.Command.{ContainerEntrySpec, build_nsbox_host_command}

-- The answers about the container and the host: its leader, the bus inside of it, a fresh UUID, whether
-- SELinux is enabled, the current label, exec.LookPath, what exec and the start of a child return.
pub record Host : Type 0 where
  pub leader : Result ℕ
  pub container_bus : Result (Unit {0})
  pub uuid : Text
  pub selinux_enabled : Bool
  pub current_label : Result Text
  pub nsenter_path : Result Text
  pub exec_result : Result (Unit {0})
  pub start : Result (Unit {0})
  pub environ : Dict Text

-- What runs after Enter: nsenter in place of nsbox, nsenter as a child, or systemd-run as a child, with
-- the machine and the service.
pub data Session : Type 0 where
  replaced : Text → List Text → Dict Text → Session
  child : List Text → Dict Text → Session
  unit : Text → Text → List Text → Session

-- Enter of the nsenter door. An error of the SELinux context is only logged.
unfoldable pub enter_nsenter : Host → ContainerEntrySpec → Result Session
enter_nsenter host spec = do
  leader ← wrap_err (codes "getting leader process") host.leader
  let environ = insert (codes "NSBOX_INTERNAL") (codes "1") host.environ
  let nsenter_cmd = codes "nsenter" ∷ codes "-at" ∷ decimal leader ∷ build_nsbox_host_command spec
  (if is_empty spec.pty_path
      then (wrap_err (codes "failed to find nsenter") host.nsenter_path >>= λ nsenter.
          wrap_err (codes "failed to exec into namespace") host.exec_result >>= λ done.
          ok (replaced nsenter nsenter_cmd environ))
      else (host.start >>= λ started. ok (child nsenter_cmd environ)))

abbrev pub property_arg : Text × Text → Text
property_arg (name, value) = codes "--property=" ++ (name ++ (codes "=" ++ value))

-- The properties of the unit: the context of SELinux, where that is enabled.
unfoldable pub selinux_properties : Host → Result (List (Text × Text))
selinux_properties host =
    if host.selinux_enabled
    then (wrap_err (codes "find current selinux label") host.current_label >>= λ current.
        wrap_err (codes "find new selinux label") (get_exec_label current) >>= λ label.
        ok ((codes "SELinuxContext", label) ∷ []))
    else ok []

abbrev pub service_name : Text → Text
service_name uuid = codes "nsbox-entry-" ++ (uuid ++ codes ".service")

unfoldable pub systemd_run : Text → Text → List (Text × Text) → ContainerEntrySpec → List Text
systemd_run machine service properties spec =
    codes "systemd-run"
    ∷ codes "--quiet"
    ∷ codes "--pipe"
    ∷ (codes "--machine=" ++ machine)
    ∷ (codes "--unit=" ++ service)
    ∷ (map property_arg properties
        ++ (codes "--setenv=NSBOX_INTERNAL=1" ∷ codes "--" ∷ build_nsbox_host_command spec))

-- Enter of the systemd door, for the machine of the container.
unfoldable pub enter_systemd : Host → Text → ContainerEntrySpec → Result Session
enter_systemd host machine spec = do
  _ ← wrap_err (codes "get container leader") host.leader
  _ ← wrap_err (codes "connect to container bus") host.container_bus
  properties ← selinux_properties host
  _ ← wrap_err (codes "starting systemd-run") host.start
  let service = service_name host.uuid
  ok (unit machine service (systemd_run machine service properties spec))

-- Signal of the systemd door: whatever the signal is, systemctl sends the one that it sends by default.
unfoldable pub systemd_kill : Text → Text → List Text
systemd_kill machine service =
    codes "systemctl" ∷ (codes "--machine=" ++ machine) ∷ codes "kill" ∷ service ∷ []

-- The choice of EnterContainer.
unfoldable pub enter : Bool → Host → Text → ContainerEntrySpec → Result Session
enter boot host machine spec =
    if boot then enter_systemd host machine spec else enter_nsenter host spec
