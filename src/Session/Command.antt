-- ===== src/Session/Command.antt =====
-- internal/session/enter.go, buildNsboxHostCommand, and cmd/nsbox-host/enter.go, which reads what it
-- writes. The order in which Go goes through a map is not fixed; here it is the order of the list.
pub mod Received
use nsbox.Base.{
  ℕ, Text, List, [], ◌∷◌, ◌++◌, codes, decimal, map, Bool, true, false, ◌||◌, is_empty, str_eq,
  ◌==◌, if◌then◌else◌, Option, none, some, split_once, Dict, Result, ok, err, panic, errorf, ◌>>=◌,
}
use nsbox.Session.Pty.{stdin_pty_flag, stdout_pty_flag, stderr_pty_flag, has_flag}

pub record ContainerEntrySpec : Type 0 where
  pub pty_path : Text
  pub pty_io : ℕ
  pub env : Dict Text
  pub verbose : Bool
  pub uid : ℕ
  pub cwd : Text
  pub no_replay : Bool
  pub command : List Text

-- `if flag { cmd = append(cmd, arg) }`
abbrev pub arg_if : Bool → Text → List Text
arg_if flag arg = if flag then arg ∷ [] else []

abbrev pub env_arg : Text × Text → Text
env_arg (name, value) = name ++ (codes "=" ++ value)

-- The part behind the flags.
abbrev pub inner_command : ContainerEntrySpec → List Text
inner_command spec = codes "env" ∷ (map env_arg spec.env ++ spec.command)

unfoldable pub build_nsbox_host_command : ContainerEntrySpec → List Text
build_nsbox_host_command spec =
    codes "/run/host/nsbox/bin/nsbox-host"
    ∷ codes "enter"
    ∷ (arg_if spec.verbose (codes "-v")
        ++ (arg_if spec.no_replay (codes "-no-replay")
            ++ ((codes "-uid=" ++ decimal spec.uid)
                ∷ (codes "-cwd=" ++ spec.cwd)
                ∷ (arg_if (has_flag spec.pty_io stdin_pty_flag) (codes "-stdin=" ++ spec.pty_path)
                    ++ (arg_if (has_flag spec.pty_io stdout_pty_flag)
                          (codes "-stdout=" ++ spec.pty_path)
                        ++ (arg_if (has_flag spec.pty_io stderr_pty_flag)
                              (codes "-stderr=" ++ spec.pty_path)
                            ++ inner_command spec))))))

-- enterCommand, with the flag -v of internal/log. A uid that is not given is -1 there.
pub record EnterCommand : Type 0 where
  pub stdin : Text
  pub stdout : Text
  pub stderr : Text
  pub uid : Option ℕ
  pub cwd : Text
  pub no_replay : Bool
  pub verbose : Bool

abbrev pub fresh_command : EnterCommand
fresh_command = record {
  stdin = [];
  stdout = [];
  stderr = [];
  uid = none;
  cwd = [];
  no_replay = false;
  verbose = false;
}

-- Package flag: what an argument is.
pub data Argument : Type 0 where
  positional terminator : Argument
  named : Text → Option Text → Argument

abbrev named_by : Text × Option Text → Argument
named_by (name, value) = named name value

abbrev pub argument : Text → Argument
argument [] = positional
argument (c ∷ []) = positional
argument (c ∷ d ∷ s) =
    if c == b'-'
    then (if d == b'-'
        then (if is_empty s then terminator else named_by (split_once b'=' s))
        else named_by (split_once b'=' (d ∷ s)))
    else positional

abbrev pub is_bool_flag : Text → Bool
is_bool_flag name = str_eq name (codes "v") || str_eq name (codes "no-replay")

abbrev set_uid : EnterCommand → Option ℕ → Result EnterCommand
set_uid cmd none = err (errorf (codes "parse error"))
set_uid cmd (some uid) = ok (record cmd { uid = some uid })

abbrev set_parsed : Text → EnterCommand → Option Bool → Result EnterCommand
set_parsed name cmd none = err (errorf (codes "parse error"))
set_parsed name cmd (some value) = ok (
    if str_eq name (codes "v")
    then record cmd { verbose = value }
    else record cmd { no_replay = value })

-- `parse_int` and `parse_bool` are strconv's.
module _ (parse_int : Text → Option ℕ) (parse_bool : Text → Option Bool) where
  -- The flags that SetFlags declares.
  unfoldable pub set_flag : Text → Text → EnterCommand → Result EnterCommand
  set_flag name value cmd =
      if is_bool_flag name
      then set_parsed name cmd (parse_bool value)
      else if str_eq name (codes "stdin")
      then ok (record cmd { stdin = value })
      else if str_eq name (codes "stdout")
      then ok (record cmd { stdout = value })
      else if str_eq name (codes "stderr")
      then ok (record cmd { stderr = value })
      else if str_eq name (codes "uid")
      then set_uid cmd (parse_int value)
      else if str_eq name (codes "cwd")
      then ok (record cmd { cwd = value })
      else err (errorf (codes "flag provided but not defined"))

  abbrev pub read_argument :
      Text
      → List Text
      → (Text → EnterCommand → Result (EnterCommand × List Text))
      → (EnterCommand → Result (EnterCommand × List Text))
      → Argument
      → EnterCommand
      → Result (EnterCommand × List Text)
  read_argument arg args waiting next positional cmd = ok (cmd, arg ∷ args)
  read_argument arg args waiting next terminator cmd = ok (cmd, args)
  read_argument arg args waiting next (named name (some value)) cmd =
      set_flag name value cmd >>= next
  read_argument arg args waiting next (named name none) cmd =
      if is_bool_flag name then set_parsed name cmd (some true) >>= next else waiting name cmd

  -- FlagSet.Parse, with the name of a flag whose value is the next argument.
  unfoldable pub parse_flags :
      Option Text → List Text → EnterCommand → Result (EnterCommand × List Text)
  parse_flags none [] cmd = ok (cmd, [])
  parse_flags (some name) [] cmd = err (errorf (codes "flag needs an argument"))
  parse_flags (some name) (value ∷ args) cmd = set_flag name value cmd >>= parse_flags none args
  parse_flags none (arg ∷ args) cmd =
      read_argument arg args (λ name. parse_flags (some name) args) (parse_flags none args)
        (argument arg) cmd

  -- The checks of ParsePositional.
  abbrev pub check_positional : EnterCommand × List Text → Result (EnterCommand × List Text)
  check_positional (cmd, []) = err (errorf (codes "expected a command"))
  check_positional (cmd, arg ∷ args) =
      if is_empty cmd.cwd then err (errorf (codes "missing arguments")) else (elim cmd.uid [
        | none ↦ err (errorf (codes "missing arguments"))
        | some uid ↦ ok (cmd, arg ∷ args)
      ])

  unfoldable pub read_enter : List Text → Result (EnterCommand × List Text)
  read_enter args = parse_flags none args fresh_command >>= check_positional
