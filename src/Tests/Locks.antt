-- ===== src/Tests/Locks.antt =====
-- Runs of the theorems about locks, each at a value of its own.
use nsbox.Base.{
  Text, List, [], ◌∷◌, codes, Option, none, some, Errno, eperm, errorf, ok, err, ◌≡◌, refl, false,
  true, str_eq, if◌then◌else◌, arith,
}
use nsbox.Container.Lock.{
  wait_for_lock, no_wait_for_lock, config_lock, full_container_lock, Table, done, lock, lock_one,
  lock_lower, lower_levels, lock_and_delete, run_lock, lock_path, other_process,
}
use nsbox.Container.Lock.Taken.{IsWellFormed}
use nsbox.Container.Lock.Whole.{Locked}
use nsbox.Container.Lock.Atomic.{lock-Locked}
use nsbox.Container.Lock.Exclusion.{
  Restored, IsRefused, itself, config_too, lock-excludes, lock_and_delete-Restored,
}
use nsbox.Container.Lock.Whole.{none≢taken}
use mathlib.Core.Path.{sym}
use nsbox.Kill.{Machined, sig_kill, kill_container}
use nsbox.Kill.Waited.{Waited, kill_container-Waited, EndsWell}
use nsbox.Daemon.Transient.{Systemd, run_container_via_transient_unit}
use nsbox.Daemon.Transient.Running.{Ran, run_container_via_transient_unit-Ran}
use nsbox.Tests.Files
use nsbox.Tests.Starts.{user, environ}

-- No lock is held, and the calls to come fail as listed.
abbrev pub free_with : List (Option Errno) → Table
free_with faults = record { next_fd = 3; open_fds = []; holder = λ p. none; faults = faults }

pub free-IsWellFormed : (faults : List (Option Errno)) → IsWellFormed (free_with faults)
free-IsWellFormed faults p n e = absurd (none≢taken (sym e))

abbrev box : Text
box = codes "/box"

-- The lock file of the second lower level cannot be created.
abbrev failing : List (Option Errno)
failing = none ∷ none ∷ none ∷ none ∷ none ∷ some eperm ∷ []

lock-Locked_example :
    Locked no_wait_for_lock box
      (full_container_lock ∷ lower_levels full_container_lock)
      (free_with failing)
      (lock box full_container_lock no_wait_for_lock (free_with failing))
lock-Locked_example =
    lock-Locked box full_container_lock no_wait_for_lock (free_with failing)
      (free-IsWellFormed failing)

abbrev after_config : Table
after_config = (lock box config_lock wait_for_lock (free_with [])).1

config_lock-taken :
    lock box config_lock wait_for_lock (free_with []) ≡ (done (ok (3 ∷ [])), after_config)
unfolding lock lock_one lock_lower
config_lock-taken = refl

lock-excludes_example : IsRefused (lock box full_container_lock no_wait_for_lock after_config).0
lock-excludes_example =
    lock-excludes box config_lock full_container_lock config_lock wait_for_lock (free_with [])
      (3 ∷ []) after_config (free-IsWellFormed []) config_lock-taken itself config_too

lock_and_delete-Restored_example :
    Restored wait_for_lock
      (free_with failing)
      (lock_and_delete (λ t. ok tt) box wait_for_lock (free_with failing))
lock_and_delete-Restored_example =
    lock_and_delete-Restored (λ t. ok tt) box wait_for_lock (free_with failing)
      (free-IsWellFormed failing)

-- Everything that machined is asked for succeeds, and the run of the container ends.
abbrev machined : Machined
machined = record {
  connect = ok tt;
  kill_machine = λ machine signal. ok tt;
  leader = λ machine. ok 42;
  find_process = λ pid. ok tt;
  signal_process = λ pid signal. ok tt;
  run_ends = some (λ p. none);
}

-- Another process, that of the container, holds the lock of the run.
abbrev running : Table
running = record {
  next_fd = 3;
  open_fds = [];
  holder = λ p. if str_eq (lock_path Files.box.path run_lock) p then some other_process else none;
  faults = [];
}

running-IsWellFormed : IsWellFormed running
running-IsWellFormed p n e = ground (arith, e)

machined-EndsWell : (b : Table) → EndsWell machined.run_ends b
machined-EndsWell b p n e = cc e

kill_container-Waited_example :
    Waited machined
      (codes "me")
      Files.box
      sig_kill
      false
      running
      (kill_container machined (codes "me") Files.box sig_kill false running)
kill_container-Waited_example =
    kill_container-Waited machined (codes "me") Files.box sig_kill false running
      running-IsWellFormed (machined-EndsWell running)

-- The machine is there, is killed, and is started again.
abbrev systemd : Systemd
systemd = record {
  journal = ok tt;
  system_connection = ok tt;
  machined_connection = ok tt;
  machine_before = ok tt;
  machine_after = err (errorf (codes "no machine"));
  nsboxd = ok (codes "/usr/libexec/nsbox/nsboxd");
  start_transient_unit = λ service properties. ok (codes "done");
  verbose = false;
  private_bus_tmpdir = codes "/run/nsbox-bus";
}

restarted :
    (run_container_via_transient_unit systemd machined Files.box true user environ running).0
    ≡ done (ok tt)
unfolding run_container_via_transient_unit kill_container nsbox.Kill.kill
    nsbox.Daemon.Transient.restart_signal nsbox.Kill.send_signal lock lock_one lock_lower
    nsbox.Daemon.Transient.start_nsboxd nsbox.Daemon.Direct.get_xdg_runtime_dir nsbox.Base.lookup
    nsbox.Container.Files.apply_environ_filter nsbox.Base.remove nsbox.Base.str_eq lock_path
    nsbox.FilePath.join_path nsbox.Base.has_prefix nsbox.Base.join nsbox.Base.split
restarted = refl

run_container_via_transient_unit-Ran_example :
    Ran systemd machined Files.box user environ true running
      (run_container_via_transient_unit systemd machined Files.box true user environ running)
run_container_via_transient_unit-Ran_example =
    run_container_via_transient_unit-Ran systemd machined Files.box user environ true running
      running-IsWellFormed (machined-EndsWell running)
