-- ===== src/Session/Setup.antt =====
-- internal/session/setup.go and the command `enter` of cmd/nsbox-host/enter.go: inside of the
-- container. A call of the system fails if the next fault says so.
use nsbox.Base.{
  ℕ, Text, List, [], ◌∷◌, ◌++◌, codes, decimal, Bool, ◌==◌, ◌+◌, if◌then◌else◌, Option, none, some,
  Dict, insert, Result, Errno, eperm, ok, err, panic, errno, wrap,
}
use nsbox.Container.Lock.{next_fault, later_faults}
use nsbox.Session.Command.{EnterCommand, read_enter}

-- What each descriptor leads to, and the one that the next open returns. Those from there on are
-- closed.
pub record Terminals : Type 0 where
  pub leads_to : ℕ → Text
  pub next_fd : ℕ
  pub faults : List (Option Errno)

abbrev pub called : Terminals → Terminals
called t = record t { faults = later_faults t.faults }

-- The descriptor `fd` leads to `target`.
abbrev pub redirected : ℕ → Text → Terminals → Terminals
redirected fd target t = record t { leads_to = λ n. if fd == n then target else t.leads_to n }

abbrev pub opened : Text → Terminals → Terminals
opened pty t = redirected t.next_fd pty (record t { next_fd = t.next_fd + 1 })

-- The descriptor that was opened stays open beside the copy.
abbrev pub dup_onto : Option Errno → ℕ → ℕ → Text → Terminals → Result (Unit {0}) × Terminals
dup_onto (some e) pty_fd fd pty t =
    (err (wrap (errno e) (codes "failed to dup " ++ (pty ++ (codes " onto " ++ decimal fd)))), t)
dup_onto none pty_fd fd pty t = (ok tt, redirected fd (t.leads_to pty_fd) t)

abbrev pub open_onto : Option Errno → ℕ → Text → Terminals → Result (Unit {0}) × Terminals
open_onto (some e) fd pty t = (
  err (wrap (errno e) (codes "failed to open pty " ++ (pty ++ (codes " for " ++ decimal fd)))),
  t,
)
open_onto none fd pty t = dup_onto (next_fault t.faults) t.next_fd fd pty (called (opened pty t))

abbrev pub open_next : ℕ → Text → Terminals → Result (Unit {0}) × Terminals
open_next fd pty t = open_onto (next_fault t.faults) fd pty (called t)

-- Setsid, where EPERM means that this is a session leader already.
abbrev pub setsid_onto : Option Errno → ℕ → Text → Terminals → Result (Unit {0}) × Terminals
setsid_onto none fd pty t = open_next fd pty t
setsid_onto (some eperm) fd pty t = open_next fd pty t
setsid_onto (some e) fd pty t = (err (wrap (errno e) (codes "failed to setsid")), t)

-- A round of the loop.
unfoldable pub connect_pty : ℕ → Text → Terminals → Result (Unit {0}) × Terminals
connect_pty fd [] t = (ok tt, t)
connect_pty fd (c ∷ pty) t =
    if fd == 0
    then setsid_onto (next_fault t.faults) fd (c ∷ pty) (called t)
    else open_next fd (c ∷ pty) t

abbrev pub and_then {ℓ} :
    {A : Type ℓ}
    → Result (Unit {0}) × Terminals
    → (Terminals → Result A × Terminals)
    → Result A × Terminals
and_then (ok done, t) next = next t
and_then (err e, t) next = (err e, t)
and_then (panic m, t) next = (panic m, t)

-- ConnectPtys
unfoldable pub connect_ptys : Text → Text → Text → Terminals → Result (Unit {0}) × Terminals
connect_ptys stdin_pty stdout_pty stderr_pty t =
    and_then (connect_pty 0 stdin_pty t)
      (λ t'. and_then (connect_pty 1 stdout_pty t') (connect_pty 2 stderr_pty))

-- What is run in place of nsbox-host.
pub record Execed : Type 0 where
  pub path : Text
  pub argv : List Text
  pub environ : Dict Text

abbrev pub setup_script : Text
setup_script = codes "/run/host/nsbox/scripts/nsbox-enter-setup.sh"

abbrev pub execed : Result (Unit {0}) → Execed → Result Execed
execed (ok done) e = ok e
execed (err x) e = err (wrap x (codes "failed to exec command"))
execed (panic m) e = panic m

-- SetupContainerSession; `exec_result` is what exec returns.
unfoldable pub setup_container_session :
    Result (Unit {0}) → Dict Text → Text → Bool → List Text → Result Execed
setup_container_session exec_result environ cwd no_replay exec_command =
    execed exec_result (record {
      path = setup_script;
      argv = setup_script ∷ cwd ∷ exec_command;
      environ = if no_replay then insert (codes "NSBOX_NO_REPLAY") (codes "1") environ else environ;
    })

-- Execute of enterCommand, behind the flags.
unfoldable pub execute_enter :
    Result (Unit {0}) → Dict Text → Terminals → EnterCommand × List Text → Result Execed × Terminals
execute_enter exec_result environ t (cmd, args) =
    and_then (connect_ptys cmd.stdin cmd.stdout cmd.stderr t)
      (λ t'. (setup_container_session exec_result environ cmd.cwd cmd.no_replay args, t'))

abbrev pub executed :
    Result (Unit {0})
    → Dict Text
    → Terminals
    → Result (EnterCommand × List Text)
    → Result Execed × Terminals
executed exec_result environ t (ok read) = execute_enter exec_result environ t read
executed exec_result environ t (err e) = (err e, t)
executed exec_result environ t (panic m) = (panic m, t)

-- The whole of `nsbox-host enter` on its arguments.
unfoldable pub nsbox_host_enter :
    (Text → Option ℕ)
    → (Text → Option Bool)
    → Result (Unit {0})
    → Dict Text
    → Terminals
    → List Text
    → Result Execed × Terminals
nsbox_host_enter parse_int parse_bool exec_result environ t args =
    executed exec_result environ t (read_enter parse_int parse_bool args)
