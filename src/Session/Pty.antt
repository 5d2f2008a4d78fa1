-- ===== src/Session/Pty.antt =====
-- internal/session/enter.go: which of the standard streams go through the pty, and how.
use Prim.Native.Nat.{bit_and, bit_or}
use nsbox.Base.{
  ℕ, ◌+◌, List, [], ◌∷◌, Bool, true, false, not, ◌==◌, if◌then◌else◌, Option, none, some, ◌≡◌, refl,
}

-- ptyIoFlags
abbrev pub stdin_pty_flag : ℕ
stdin_pty_flag = 1

abbrev pub stdout_pty_flag : ℕ
stdout_pty_flag = 2

abbrev pub stderr_pty_flag : ℕ
stderr_pty_flag = 4

pub data Stream : Type 0 where
  stdin stdout stderr : Stream

-- stdioPtyFlags, at the stream's file descriptor
unfoldable pub stdio_pty_flag : Stream → ℕ
stdio_pty_flag stdin = stdin_pty_flag
stdio_pty_flag stdout = stdout_pty_flag
stdio_pty_flag stderr = stderr_pty_flag

abbrev pub stdio : List Stream
stdio = stdin ∷ stdout ∷ stderr ∷ []

-- The first loop: `is_terminal` is terminal.IsTerminal.
unfoldable pub collect_flags : (Stream → Bool) → ℕ → List Stream → ℕ
unfolding stdio_pty_flag
collect_flags is_terminal pty_io [] = pty_io
collect_flags is_terminal pty_io (file ∷ files) =
    collect_flags is_terminal
      (if is_terminal file then bit_or pty_io (stdio_pty_flag file) else pty_io) files

abbrev pub has_flag : ℕ → ℕ → Bool
has_flag pty_io flag = not (bit_and pty_io flag == 0)

pub record Forwarding : Type 0 where
  pub pty_io : ℕ
  pub stdin_to_pty : Bool
  pub pty_to_writer : Option Stream
  -- the stream whose window size the pty follows
  pub size_from : Option Stream

-- inheritSize: the first stream with its flag.
unfoldable pub inherit_size : ℕ → List Stream → Option Stream
unfolding stdio_pty_flag
inherit_size pty_io [] = none
inherit_size pty_io (file ∷ files) =
    let rest = inherit_size pty_io files in
    if has_flag pty_io (stdio_pty_flag file) then some file else rest

-- What EnterContainer does with the pty, from the streams that are terminals.
unfoldable pub choose_forwarding : (Stream → Bool) → Forwarding
unfolding collect_flags inherit_size
choose_forwarding is_terminal =
    let pty_io = collect_flags is_terminal 0 stdio in
    if pty_io == 0
    then record { pty_io = 0; stdin_to_pty = false; pty_to_writer = none; size_from = none }
    else record {
      pty_io = pty_io;
      stdin_to_pty = has_flag pty_io stdin_pty_flag;
      pty_to_writer =
          if has_flag pty_io (bit_or stdout_pty_flag stderr_pty_flag)
          then (if has_flag pty_io stdout_pty_flag then some stdout else some stderr)
          else none;
      size_from = inherit_size pty_io stdio;
    }

-- Said by streams: the flags, and what is forwarded from and to a stream.
abbrev weight : Bool → ℕ → ℕ
weight true w = w
weight false w = 0

abbrev first_terminal : Bool → Bool → Bool → Option Stream
first_terminal true o e = some stdin
first_terminal false true e = some stdout
first_terminal false false true = some stderr
first_terminal false false false = none

abbrev writer : Bool → Bool → Option Stream
writer true e = some stdout
writer false true = some stderr
writer false false = none

-- For every choice of terminals: input is forwarded exactly if standard input is one, output goes to
-- standard output if that is one and else to standard error if that is one, the size follows the
-- first terminal, and the flags name exactly the terminals.
pub choose_forwarding-eq :
    (t : Stream → Bool)
    → choose_forwarding t ≡ record {
      pty_io = weight (t stdin) 1 + weight (t stdout) 2 + weight (t stderr) 4;
      stdin_to_pty = t stdin;
      pty_to_writer = writer (t stdout) (t stderr);
      size_from = first_terminal (t stdin) (t stdout) (t stderr);
    }
unfolding choose_forwarding
choose_forwarding-eq t = go (t stdin) (t stdout) (t stderr) refl refl refl
  where
    go :
        (i o e : Bool)
        → t stdin ≡ i
        → t stdout ≡ o
        → t stderr ≡ e
        → choose_forwarding t ≡ record {
          pty_io = weight (t stdin) 1 + weight (t stdout) 2 + weight (t stderr) 4;
          stdin_to_pty = t stdin;
          pty_to_writer = writer (t stdout) (t stderr);
          size_from = first_terminal (t stdin) (t stdout) (t stderr);
        }
    go true true true p q r = rw (p, q, r) refl
    go true true false p q r = rw (p, q, r) refl
    go true false true p q r = rw (p, q, r) refl
    go true false false p q r = rw (p, q, r) refl
    go false true true p q r = rw (p, q, r) refl
    go false true false p q r = rw (p, q, r) refl
    go false false true p q r = rw (p, q, r) refl
    go false false false p q r = rw (p, q, r) refl
