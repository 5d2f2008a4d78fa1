-- ===== src/Session/Exit.antt =====
-- internal/session: the status of the entered process, and the status that nsbox exits with.
use nsbox.Base.{
  ℕ, ◌+◌, ◌*◌, ◌/◌, ◌%◌, ◌<◌, codes, Bool, ◌==◌, ◌&&◌, not, if◌then◌else◌, Result, Error, ok, err,
  panic, errorf, wrap, wrap_err, ◌>>=◌, ◌≡◌, refl, arith,
}

pub data ProcessExitType : Type 0 where
  normal signaled : ProcessExitType

pub record ProcessExitStatus : Type 0 where
  pub exit_type : ProcessExitType
  pub result : ℕ

-- unix.WaitStatus: the low seven bits are 0 for an exit and 0x7f for a stop, and hold the signal
-- else. The exit status is the second byte.
abbrev pub exited : ℕ → Bool
exited w = w % 128 == 0

abbrev pub signaled_status : ℕ → Bool
signaled_status w = not (w % 128 == 127) && not (w % 128 == 0)

-- convertStateToProcessExit
unfoldable pub convert_state_to_process_exit : ℕ → Result ProcessExitStatus
convert_state_to_process_exit w =
    if signaled_status w
    then ok (record { exit_type = signaled; result = w % 128 })
    else if exited w
    then ok (record { exit_type = normal; result = w / 256 % 256 })
    else err (errorf (codes "Unexpected wait status"))

-- Wait of the nsenter door. `waited` is what os.Process.Wait gives.
unfoldable pub wait_nsenter : Result ℕ → Result ProcessExitStatus
unfolding convert_state_to_process_exit
wait_nsenter (ok w) = convert_state_to_process_exit w
wait_nsenter (err e) = err (wrap e (codes "waiting for nsenter"))
wait_nsenter (panic m) = panic m

abbrev pub cld_exited : ℕ
cld_exited = 1

-- Wait of the systemd door, from the end of systemd-run and two properties of the service.
unfoldable pub wait_systemd : Result (Unit {0}) → Result ℕ → Result ℕ → Result ProcessExitStatus
wait_systemd waited main_code main_status = do
  _ ← wrap_err (codes "waiting for systemd-run") waited
  exit_code ← wrap_err (codes "get ExecMainCode") main_code
  exit_status ← wrap_err (codes "get ExecMainStatus") main_status
  ok (record {
    exit_type = if exit_code == cld_exited then normal else signaled;
    result = exit_status;
  })

-- The end of EnterContainer: the error of Wait is not looked at, and the status it comes with is
-- nil, so that the field behind it cannot be read.
unfoldable pub exit_code : Result ProcessExitStatus → Result ℕ
exit_code (err e) = panic (codes "invalid memory address or nil pointer dereference")
exit_code (panic m) = panic m
exit_code (ok status) = elim status.exit_type [
  | signaled ↦ ok (128 + status.result)
  | normal ↦ ok status.result
]

-- How a process ends: by itself with a status, or by a signal, with a core dump or without.
pub data Ending : Type 0 where
  exits : ℕ → Ending
  is_killed dumps_core : ℕ → Ending

-- The wait status of the kernel.
abbrev pub wait_status : Ending → ℕ
wait_status (exits code) = code * 256
wait_status (is_killed signal) = signal
wait_status (dumps_core signal) = signal + 128

-- ExecMainCode and ExecMainStatus of systemd: CLD_EXITED, CLD_KILLED and CLD_DUMPED.
abbrev pub main_code : Ending → ℕ
main_code (exits code) = 1
main_code (is_killed signal) = 2
main_code (dumps_core signal) = 3

abbrev pub main_status : Ending → ℕ
main_status (exits code) = code
main_status (is_killed signal) = signal
main_status (dumps_core signal) = signal

-- A status is a byte, and signals are numbered from 1 to 126.
abbrev pub IsEnding : Ending → Type 0
IsEnding (exits code) = code < 256
IsEnding (is_killed signal) = (0 < signal) × (signal < 127)
IsEnding (dumps_core signal) = (0 < signal) × (signal < 127)

-- The status that a shell gives.
abbrev pub shell_status : Ending → ℕ
shell_status (exits code) = code
shell_status (is_killed signal) = 128 + signal
shell_status (dumps_core signal) = 128 + signal

-- However the process of a session ends, with a status below 256, or by a signal from 1 to 126 with or
-- without a core dump: the wait status that the kernel gives to the nsenter door, and the two properties
-- that systemd gives to the other door, lead nsbox to the same exit status, which is the one that a
-- shell gives.
pub exit_code_same :
    (e : Ending)
    → IsEnding e
    → (exit_code (wait_nsenter (ok (wait_status e))) ≡ ok (shell_status e))
      × (exit_code (wait_systemd (ok tt) (ok (main_code e)) (ok (main_status e)))
          ≡ ok (shell_status e))
unfolding exit_code wait_nsenter wait_systemd
exit_code_same (exits code) c = (ground arith, refl)
exit_code_same (is_killed signal) (s, t) = (ground arith, refl)
exit_code_same (dumps_core signal) (s, t) = (ground arith, refl)

-- An error while waiting for nsenter, or for systemd-run, is not reported: EnterContainer panics.
pub exit_code-wait_failure :
    (e : Error)
    → (exit_code (wait_nsenter (err e))
        ≡ panic (codes "invalid memory address or nil pointer dereference"))
      × (exit_code (wait_systemd (err e) (ok 1) (ok 0))
          ≡ panic (codes "invalid memory address or nil pointer dereference"))
unfolding exit_code wait_nsenter wait_systemd
exit_code-wait_failure e = (refl, refl)
