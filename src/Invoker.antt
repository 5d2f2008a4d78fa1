-- ===== src/Invoker.antt =====
-- How the privileged process gets its environment and its command line: privilegedReexec of
-- cmd/nsbox/main.go writes them as arguments, and cmd/nsbox-invoker/main.go reads them.
pub mod Passage
use nsbox.Base.{
  ℕ, Text, List, [], ◌∷◌, ◌++◌, append_assoc, append-nil, codes, map, Bool, true, false, any,
  str_eq, str_eq_iff, is_empty, All, Lacks, split_once, if◌then◌else◌, Result, ok, err, panic,
  errorf, ◌>>=◌, ◌≡◌, ◌≢◌, refl, sym, ◌∙◌, ap, arith, ltb, length, length-append, Bool-cases, inl,
  inr, Option, none, some,
}
use nsbox.Userdata.Environ.{
  is_whitelisted, split_env, whitelisted_environ, entry, Named, allowed,
  whitelisted_environ-allowed, split_env-entry,
}

-- A flag as `Visit` shows it: its name and the text of its value.
abbrev pub Flag : Type 0
Flag = Text × Text

abbrev pub marker : Text
marker = codes "::"

pub flag_text : Flag → Text
flag_text (name, value) = codes "-" ++ (name ++ (codes "=" ++ value))

-- The visitor: `-workdir` is left out here, as it is added behind the others.
unfoldable pub visit : List Flag → List Text
unfolding flag_text
visit [] = []
visit ((name, value) ∷ flags) =
    let rest = visit flags in
    if str_eq name (codes "workdir") then rest else flag_text (name, value) ∷ rest

-- The arguments that privilegedReexec puts together, and the end of main in nsbox-invoker.
pub record Reexec : Type 0 where
  pub redirector : Text
  pub invoker_path : Text
  pub command : Text
  pub global_flags : List Flag
  pub command_flags : List Flag
  pub workdir : Text
  pub positional : List Text

-- What stands behind the marker.
unfoldable pub command_line : Reexec → List Text
unfolding visit
command_line r =
    visit r.global_flags
    ++ (visit r.command_flags
        ++ (flag_text (codes "workdir", r.workdir) ∷ codes "--" ∷ r.positional))

unfoldable pub privileged_reexec : Reexec → List Text → Result (List Text)
unfolding command_line
privileged_reexec r environ = do
  envs ← whitelisted_environ environ
  ok (r.redirector ∷ r.invoker_path ∷ r.command ∷ (envs ++ (marker ∷ command_line r)))

-- The loop of the invoker over its arguments: the environment so far, and what is left of `args`,
-- which is all of them if the marker is not found.
unfoldable pub read_environ : List Text → List Text → List Text → Result (List Text × List Text)
read_environ all environ [] = ok (environ, all)
read_environ all environ (env ∷ args) =
    let next = read_environ all (environ ++ env ∷ []) args in
    let foreign = err (errorf (codes "non-whitelisted environment variable:" ++ env)) in
    let kept = split_env env >>= λ v. if is_whitelisted v.0 then next else foreign in
    if str_eq env marker then ok (environ, args) else kept

-- What the invoker executes: the program's arguments and its environment.
pub record Exec : Type 0 where
  pub argv : List Text
  pub environ : List Text

-- The end of main, once the environment has been read.
abbrev finish : Text → Text → List Text × List Text → Result Exec
finish nsbox command (environ, []) = err (errorf (codes "end of environment not found"))
finish nsbox command (environ, arg ∷ rest) =
    ok (record { argv = nsbox ∷ command ∷ arg ∷ rest; environ = environ })

abbrev read_command : Text → List Text → List Text → Result Exec
read_command nsbox started [] = panic (codes "index out of range")
read_command nsbox started (command ∷ args) =
    read_environ args started args >>= finish nsbox command

-- main, from the arguments behind the program's name and the environment it was started with.
unfoldable pub invoke : Text → List Text → List Text → Result Exec
unfolding read_environ
invoke nsbox started args =
    if ltb (length args) 3
    then err (errorf (codes "This is an internal tool!!"))
    else read_command nsbox started args
