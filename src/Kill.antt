-- ===== src/Kill.antt =====
-- internal/kill/kill.go: a container is killed, and then waited for. Signals of the system other than
-- the two that have a name keep their number; what machined and the kernel answer is a record.
pub mod Waited
use nsbox.Base.{
  ℕ, Text, List, [], ◌∷◌, ◌++◌, codes, Bool, true, false, ◌&&◌, str_eq, if◌then◌else◌, Result,
  Error, Option, none, some, ok, err, panic, errorf, wrap_err, ◌>>=◌, reject, ◌>>◌,
}
use nsbox.Container.Auth.{to_lower}
use nsbox.Container.Data.{Container}
use nsbox.Container.Lock.{
  wait_for_lock, run_lock, Owner, Table, Outcome, done, waits, lock_path, flock, lock_rest, lock,
  release,
}
use nsbox.Userdata.Username.{machine_name}

pub data Signal : Type 0 where
  sig_poweroff sig_kill : Signal
  sig_number : ℕ → Signal

-- Signal.String: a signal without a name is the empty text.
unfoldable pub signal_to_string : Signal → Text
signal_to_string sig_poweroff = codes "poweroff"
signal_to_string sig_kill = codes "sigkill"
signal_to_string (sig_number n) = []

-- Signal.Set
unfoldable pub set_signal : Text → Result Signal
unfolding to_lower
set_signal value =
    let lower = to_lower value in
    if str_eq lower (codes "poweroff")
    then ok sig_poweroff
    else if str_eq lower (codes "kill")
    then ok sig_kill
    else if str_eq lower (codes "sigkill")
    then ok sig_kill
    else err (errorf (codes "does not exist"))

-- `run_ends` is who holds which lock once the kernel lets a flock go on that waits for a held lock, if it
-- ever does: the processes of the container have ended by then.
pub record Machined : Type 0 where
  pub connect : Result (Unit {0})
  pub kill_machine : Text → Signal → Result (Unit {0})
  pub leader : Text → Result ℕ
  pub find_process : ℕ → Result (Unit {0})
  pub signal_process : ℕ → Signal → Result (Unit {0})
  pub run_ends : Option (Text → Option Owner)

-- All processes are killed by machined, the leader alone by this process.
unfoldable pub send_signal : Machined → Text → Signal → Bool → Result (Unit {0})
send_signal machined machine signal true =
    wrap_err (codes "failed to ask machined to kill container")
      (machined.kill_machine machine signal)
send_signal machined machine signal false = do
  leader ← wrap_err (codes "failed to describe machine") (machined.leader machine)
  _ ← wrap_err (codes "failed to find leader process") (machined.find_process leader)
  wrap_err (codes "failed to signal leader process") (machined.signal_process leader signal)

unfoldable pub kill : Machined → Text → Container → Signal → Bool → Result (Unit {0})
kill machined username ct signal all =
    reject (ct.config.boot && all) (codes "-a/--all is not supported for booted containers")
    >> (machined.connect >> send_signal machined (machine_name username ct.name) signal all)

abbrev pub released : Outcome (List ℕ) × Table → Outcome (Unit {0}) × Table
released = lock_rest (λ fds t. (done (ok tt), release fds t))

-- A flock that waits goes on with its descriptor when the lock has been let go.
abbrev pub go_on :
    Option (Text → Option Owner)
    → Text
    → ℕ
    → Outcome (Unit {0}) × Table
    → Outcome (Unit {0}) × Table
go_on run_ends path n (done r, t) = (done r, t)
go_on (some holder) path n (waits, t) =
    lock_rest (λ m t'. (done (ok tt), release (m ∷ []) t'))
      (flock wait_for_lock path n (holder path) (record t { holder = holder }))
go_on none path n (waits, t) = (waits, t)

abbrev pub wait_if : Machined → Container → Result (Unit {0}) → Table → Outcome (Unit {0}) × Table
wait_if machined ct (ok sent) t =
    go_on machined.run_ends (lock_path ct.path run_lock) t.next_fd
      (released (lock ct.path run_lock wait_for_lock t))
wait_if machined ct (err e) t = (done (err e), t)
wait_if machined ct (panic m) t = (done (panic m), t)

-- KillContainer: with the signal sent, until the lock of the run is free. The lock is a single one, whose
-- descriptor is the next one.
unfoldable pub kill_container :
    Machined → Text → Container → Signal → Bool → Table → Outcome (Unit {0}) × Table
kill_container machined username ct signal all t =
    wait_if machined ct (kill machined username ct signal all) t
