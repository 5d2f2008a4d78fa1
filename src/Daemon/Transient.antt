-- ===== src/Daemon/Transient.antt =====
-- internal/daemon/transient.go: a container is run by a transient unit of systemd, in which nsboxd
-- runs. What systemd, machined and the journal answer is a record. The copy of the journal to the
-- standard output, and what is logged, are left out.
pub mod Running
use nsbox.Base.{
  Text, List, [], ◌∷◌, ◌++◌, codes, Bool, true, false, str_eq, if◌then◌else◌, Dict, Result, Error,
  ok, err, panic, errorf, wrap, wrap_err, ◌>>=◌,
}
use nsbox.Container.Data.{Container}
use nsbox.Container.Files.{apply_environ_filter}
use nsbox.Container.Lock.{Table, Outcome, done, waits}
use nsbox.Userdata.Username.{machine_name}
use nsbox.Kill.{Signal, sig_poweroff, sig_kill, Machined, kill_container}
use nsbox.Daemon.Direct.{get_xdg_runtime_dir}
use nsbox.Daemon.Direct.Files.{User}

-- The properties that the unit is given.
pub data Property : Type 0 where
  service_type description notify_access requires : Text → Property
  exec_start : List Text → Property
  temporary_file_system : Text → Property
  environment : List Text → Property

-- NewJournalReader, the two connections, GetMachine before and after a kill, GetPrivateExecutable, the
-- result of the job that StartTransientUnit waits for, log.Verbose and nsbus.PrivateBusTmpdir.
pub record Systemd : Type 0 where
  pub journal : Result (Unit {0})
  pub system_connection : Result (Unit {0})
  pub machined_connection : Result (Unit {0})
  pub machine_before : Result (Unit {0})
  pub machine_after : Result (Unit {0})
  pub nsboxd : Result Text
  pub start_transient_unit : Text → List Property → Result Text
  pub verbose : Bool
  pub private_bus_tmpdir : Text

unfoldable pub unit_name : Text → Container → Text
unit_name username ct = codes "nsbox-" ++ (machine_name username ct.name ++ codes ".service")

-- fmt.Sprint("-v=", verbose)
abbrev pub verbose_arg : Bool → Text
verbose_arg true = codes "-v=true"
verbose_arg false = codes "-v=false"

unfoldable pub unit_properties : Systemd → Text → Container → User → Text → List Property
unit_properties systemd nsboxd ct user xdg_runtime_dir =
    service_type (codes "notify")
    ∷ description (codes "nsbox container " ++ (ct.name ++ (codes " for " ++ user.username)))
    ∷ exec_start (nsboxd ∷ verbose_arg systemd.verbose ∷ ct.name ∷ [])
    ∷ temporary_file_system systemd.private_bus_tmpdir
    ∷ environment
        ((codes "PKEXEC_UID=" ++ user.uid) ∷ (codes "XDG_RUNTIME_DIR=" ++ xdg_runtime_dir) ∷ [])
    ∷ notify_access (codes "all")
    ∷ (if ct.config.virtual_network then requires (codes "systemd-networkd.service") ∷ [] else [])

unfoldable pub job_failed : Text → Result (Unit {0})
job_failed service =
    err
      (errorf (codes "job failed (see 'systemctl status " ++ (service ++ codes "' for more info)")))

unfoldable pub start_nsboxd : Systemd → Text → Container → User → Dict Text → Result (Unit {0})
start_nsboxd systemd nsboxd ct user environ = do
  _ ← wrap_err (codes "opening journal reader") systemd.journal
  xdg_runtime_dir ← get_xdg_runtime_dir environ
  let service = unit_name user.username ct
  job_result ← wrap_err (codes "starting transient unit") (
      systemd.start_transient_unit service (unit_properties systemd nsboxd ct user xdg_runtime_dir))
  (if str_eq job_result (codes "done") then ok tt else job_failed service)

-- A machine that is not there is started.
abbrev pub start_if_gone :
    Systemd → Container → User → Dict Text → Result (Unit {0}) → Result (Unit {0})
start_if_gone systemd ct user environ (ok there) = ok tt
start_if_gone systemd ct user environ (err gone) = do
  nsboxd ← wrap_err (codes "cannot locate nsboxd") systemd.nsboxd
  wrap_err (codes "cannot start nsboxd") (start_nsboxd systemd nsboxd ct user environ)
start_if_gone systemd ct user environ (panic m) = panic m

-- The signal, and whether all processes get it.
unfoldable pub restart_signal : Container → Signal × Bool
restart_signal ct = if ct.config.boot then (sig_poweroff, false) else (sig_kill, true)

abbrev pub after_kill :
    (Result (Unit {0})) → Outcome (Unit {0}) × Table → Outcome (Unit {0}) × Table
after_kill start (done (ok killed), t) = (done start, t)
after_kill start (done (err e), t) = (done (err (wrap e (codes "killing previous instance"))), t)
after_kill start (done (panic m), t) = (done (panic m), t)
after_kill start (waits, t) = (waits, t)

abbrev pub kill_if_there :
    Machined
    → Text
    → Container
    → Result (Unit {0})
    → Result (Unit {0})
    → Table
    → Outcome (Unit {0}) × Table
kill_if_there machined username ct start (ok there) t =
    after_kill start
      (kill_container machined username ct (restart_signal ct).0 (restart_signal ct).1 t)
kill_if_there machined username ct start (err gone) t = (done start, t)
kill_if_there machined username ct start (panic m) t = (done (panic m), t)

abbrev pub connected :
    Result (Unit {0}) → (Table → Outcome (Unit {0}) × Table) → Table → Outcome (Unit {0}) × Table
connected (ok c) next t = next t
connected (err e) next t = (done (err e), t)
connected (panic m) next t = (done (panic m), t)

-- RunContainerViaTransientUnit
unfoldable pub run_container_via_transient_unit :
    Systemd → Machined → Container → Bool → User → Dict Text → Table → Outcome (Unit {0}) × Table
run_container_via_transient_unit systemd machined ct restart user environ t =
    let filtered = apply_environ_filter ct environ in
    let start = start_if_gone systemd ct user filtered systemd.machine_after in
    connected systemd.system_connection
      (connected systemd.machined_connection (λ t'.
        if restart
        then kill_if_there machined user.username ct start systemd.machine_before t'
        else (done start, t')))
      t
