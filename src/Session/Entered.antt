-- ===== src/Session/Entered.antt =====
-- From EnterContainer on the host to the command in the container, through either door.
use nsbox.Base.{
  ℕ, Text, List, [], ◌∷◌, codes, drop, Bool, not, ◌&&◌, ◌||◌, ◌==◌, is_empty, str_eq, if◌then◌else◌,
  Option, Dict, insert, Result, ok, ◌≡◌,
}
use nsbox.Session.Pty.{stdin_pty_flag, stdout_pty_flag, stderr_pty_flag, has_flag}
use nsbox.Session.Command.{ContainerEntrySpec, inner_command}
use nsbox.Session.Doors.{Session, replaced, child, unit}
use nsbox.Session.Setup.{Terminals, redirected, opened, Execed, setup_script}

-- systemd-run runs what follows the first `--`.
pub after_dashes : List Text → List Text
after_dashes [] = []
after_dashes (word ∷ words) =
    let rest = after_dashes words in if str_eq word (codes "--") then words else rest

-- What runs inside of the container: nsenter is given `-at` and the leader first.
abbrev pub inside_of : Session → List Text
inside_of (replaced path cmd environ) = drop 3 cmd
inside_of (child cmd environ) = drop 3 cmd
inside_of (unit machine service cmd) = after_dashes cmd

-- Where no call fails, a descriptor leads to its terminal, if it has one.
abbrev after : ℕ → Text → Terminals → Terminals
after fd [] t = t
after fd (c ∷ pty) t = redirected fd ((opened (c ∷ pty) t).leads_to t.next_fd) (opened (c ∷ pty) t)

-- The streams that go through the terminal of the session.
abbrev pub connects : ContainerEntrySpec → ℕ → Bool
connects spec n =
    not (is_empty spec.pty_path)
    && ((n == 0 && has_flag spec.pty_io stdin_pty_flag)
        || ((n == 1 && has_flag spec.pty_io stdout_pty_flag)
            || (n == 2 && has_flag spec.pty_io stderr_pty_flag)))

-- What runs in the end: the script that sets the session up, with the directory and the command.
abbrev pub session_exec : ContainerEntrySpec → Dict Text → Execed
session_exec spec environ = record {
  path = setup_script;
  argv = setup_script ∷ spec.cwd ∷ inner_command spec;
  environ =
      if spec.no_replay then insert (codes "NSBOX_NO_REPLAY") (codes "1") environ else environ;
}

module _ (parse_int : Text → Option ℕ) (parse_bool : Text → Option Bool) (environ : Dict Text)
    (leads : ℕ → Text) (first : ℕ) (spec : ContainerEntrySpec) where
  abbrev fresh : Terminals
  fresh = record { leads_to = leads; next_fd = first; faults = [] }

  abbrev Entered : ℕ → Result Execed × Terminals → Type 0
  Entered n r =
      (r.0 ≡ ok (session_exec spec environ))
      × (r.1.leads_to n ≡ (if connects spec n then spec.pty_path else leads n))
