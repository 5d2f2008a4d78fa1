-- ===== src/Session/Command/Received.antt =====
-- nsbox-host reads what EnterContainer writes.
use nsbox.Base.{
  ℕ, Text, List, [], ◌∷◌, ◌++◌, codes, decimal, Bool, true, false, is_empty, str_eq, if◌then◌else◌,
  Option, none, some, split_once, drop, ok, ◌≡◌, refl, ◌∙◌, ap,
}
use nsbox.Session.Pty.{stdin_pty_flag, stdout_pty_flag, stderr_pty_flag, has_flag}
use nsbox.Session.Command.{
  ContainerEntrySpec, arg_if, inner_command, build_nsbox_host_command, EnterCommand, fresh_command,
  set_flag, parse_flags, read_enter,
}

module _ (parse_int : Text → Option ℕ) (parse_bool : Text → Option Bool) (rest : List Text)
    (c : EnterCommand) where
  read-verbose :
      (b : Bool)
      → c.verbose ≡ false
      → parse_flags parse_int parse_bool none (arg_if b (codes "-v") ++ rest) c
        ≡ parse_flags parse_int parse_bool none rest (record c { verbose = b })
  unfolding parse_flags split_once str_eq set_flag
  read-verbose true e = refl
  read-verbose false e =
      ap (λ x. parse_flags parse_int parse_bool none rest (record c { verbose = x })) e

  read-no_replay :
      (b : Bool)
      → c.no_replay ≡ false
      → parse_flags parse_int parse_bool none (arg_if b (codes "-no-replay") ++ rest) c
        ≡ parse_flags parse_int parse_bool none rest (record c { no_replay = b })
  unfolding parse_flags split_once str_eq set_flag
  read-no_replay true e = refl
  read-no_replay false e =
      ap (λ x. parse_flags parse_int parse_bool none rest (record c { no_replay = x })) e

  read-uid :
      (n : ℕ)
      → parse_int (decimal n) ≡ some n
      → parse_flags parse_int parse_bool none ((codes "-uid=" ++ decimal n) ∷ rest) c
        ≡ parse_flags parse_int parse_bool none rest (record c { uid = some n })
  unfolding parse_flags split_once str_eq set_flag
  read-uid n h = rw h refl

  read-cwd :
      (cwd : Text)
      → parse_flags parse_int parse_bool none ((codes "-cwd=" ++ cwd) ∷ rest) c
        ≡ parse_flags parse_int parse_bool none rest (record c { cwd = cwd })
  unfolding parse_flags split_once str_eq set_flag
  read-cwd cwd = refl

  read-stdin :
      (b : Bool) (path : Text)
      → parse_flags parse_int parse_bool none (arg_if b (codes "-stdin=" ++ path) ++ rest) c
        ≡ parse_flags parse_int parse_bool none rest
            (record c { stdin = if b then path else c.stdin })
  unfolding parse_flags split_once str_eq set_flag
  read-stdin true path = refl
  read-stdin false path = refl

  read-stdout :
      (b : Bool) (path : Text)
      → parse_flags parse_int parse_bool none (arg_if b (codes "-stdout=" ++ path) ++ rest) c
        ≡ parse_flags parse_int parse_bool none rest
            (record c { stdout = if b then path else c.stdout })
  unfolding parse_flags split_once str_eq set_flag
  read-stdout true path = refl
  read-stdout false path = refl

  read-stderr :
      (b : Bool) (path : Text)
      → parse_flags parse_int parse_bool none (arg_if b (codes "-stderr=" ++ path) ++ rest) c
        ≡ parse_flags parse_int parse_bool none rest
            (record c { stderr = if b then path else c.stderr })
  unfolding parse_flags split_once str_eq set_flag
  read-stderr true path = refl
  read-stderr false path = refl

-- What nsbox-host is to know.
abbrev pub received : ContainerEntrySpec → EnterCommand
received spec = record {
  stdin = if has_flag spec.pty_io stdin_pty_flag then spec.pty_path else [];
  stdout = if has_flag spec.pty_io stdout_pty_flag then spec.pty_path else [];
  stderr = if has_flag spec.pty_io stderr_pty_flag then spec.pty_path else [];
  uid = some spec.uid;
  cwd = spec.cwd;
  no_replay = spec.no_replay;
  verbose = spec.verbose;
}

module _ (parse_int : Text → Option ℕ) (parse_bool : Text → Option Bool)
    (spec : ContainerEntrySpec) where
  read_inner :
      (c : EnterCommand)
      → parse_flags parse_int parse_bool none (inner_command spec) c ≡ ok (c, inner_command spec)
  unfolding parse_flags
  read_inner c = refl

  read_streams :
      (c : EnterCommand)
      → parse_flags parse_int parse_bool none
          (arg_if (has_flag spec.pty_io stdin_pty_flag) (codes "-stdin=" ++ spec.pty_path)
            ++ (arg_if (has_flag spec.pty_io stdout_pty_flag) (codes "-stdout=" ++ spec.pty_path)
                ++ (arg_if
                      (has_flag spec.pty_io stderr_pty_flag)
                      (codes "-stderr=" ++ spec.pty_path)
                    ++ inner_command spec)))
          c
        ≡ ok (
          record c {
            stdin = if has_flag spec.pty_io stdin_pty_flag then spec.pty_path else c.stdin;
            stdout = if has_flag spec.pty_io stdout_pty_flag then spec.pty_path else c.stdout;
            stderr = if has_flag spec.pty_io stderr_pty_flag then spec.pty_path else c.stderr;
          },
          inner_command spec,
        )
  read_streams c =
      read-stdin parse_int parse_bool _ c (has_flag spec.pty_io stdin_pty_flag) spec.pty_path
      ∙ (read-stdout parse_int parse_bool _ _ (has_flag spec.pty_io stdout_pty_flag) spec.pty_path
          ∙ (read-stderr parse_int parse_bool _ _ (has_flag spec.pty_io stderr_pty_flag)
                spec.pty_path
              ∙ read_inner _))

  read_all :
      parse_int (decimal spec.uid) ≡ some spec.uid
      → parse_flags parse_int parse_bool none (drop 2 (build_nsbox_host_command spec)) fresh_command
        ≡ ok (received spec, inner_command spec)
  unfolding build_nsbox_host_command
  read_all h =
      read-verbose parse_int parse_bool _ fresh_command spec.verbose refl
      ∙ (read-no_replay parse_int parse_bool _ _ spec.no_replay refl
          ∙ (read-uid parse_int parse_bool _ _ spec.uid h
              ∙ (read-cwd parse_int parse_bool _ _ spec.cwd ∙ read_streams _)))

  -- What EnterContainer writes behind `nsbox-host enter`, nsbox-host reads back: the terminals for the
  -- streams that go through one, the uid, the directory and the switches, and behind them the command of
  -- `env`, untouched, whatever the variables and the command are, if the directory is not empty and
  -- strconv reads the number that fmt wrote.
  pub read_enter-build_nsbox_host_command :
      parse_int (decimal spec.uid) ≡ some spec.uid
      → is_empty spec.cwd ≡ false
      → read_enter parse_int parse_bool (drop 2 (build_nsbox_host_command spec))
        ≡ ok (received spec, inner_command spec)
  unfolding read_enter
  read_enter-build_nsbox_host_command h named = rw (read_all h, named) refl
