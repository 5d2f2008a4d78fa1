-- ===== src/Tests.antt =====
-- Runs of the theorems about flags and the environment, each at a value of its own.
pub mod Containers
pub mod System
pub mod Users
pub mod Locks
pub mod Files
pub mod Sessions
pub mod Listing
pub mod Starts
pub mod Exports
use nsbox.Base.{
  ℕ, Text, List, [], ◌∷◌, ◌++◌, codes, map, Bool, true, false, any, contains, is_empty, Option,
  none, some, str_eq, Result, ok, err, panic, errorf, lookup, Dict, if◌then◌else◌, has_prefix,
  length, All, Lacks, ◌≡◌, ◌≢◌, ◌↔◌, ◌≤◌, ◌+◌, ◌*◌, refl, arith, inl, inr,
}
use nsbox.Regexp.{match_string}
use nsbox.Userdata.Environ.{
  entry, Named, allowed, is_whitelisted, last_value, parse_environ, parse_environ_lem,
}
use nsbox.Invoker.{Reexec, privileged_reexec, command_line, Exec, invoke}
use nsbox.Invoker.Passage.{
  line_of, invoke-privileged_reexec, IsPassed, invoke-IsPassed, invoke-without_marker,
}
use nsbox.Args.ArrayTransform.{
  ArrayTransformValue, add, del, set, zero_value, to_string, set_value, apply,
}
use nsbox.Args.ArrayTransform.Flag.{set_value-to_string}
use nsbox.Args.ArrayTransform.Apply.{contains-apply, Distinct, Distinct-apply, apply-apply}

-- The environment of a caller: a variable that is passed on, one that is not, and one again.
abbrev variables : List (Text × Text)
variables =
    (codes "DISPLAY", codes ":0")
    ∷ (codes "SECRET", codes "x=y")
    ∷ (codes "DISPLAY", codes ":1")
    ∷ []

variables-Named : Named variables
variables-Named = (ground arith, (ground arith, (ground arith, tt)))

abbrev reexec : Reexec
reexec = record {
  redirector = codes "pkexec";
  invoker_path = codes "nsbox-invoker";
  command = codes "config";
  global_flags = [];
  command_flags = (codes "boot", codes "true") ∷ [];
  workdir = codes "/home/me";
  positional = codes "toolbox" ∷ [];
}

invoke-privileged_reexec_example :
    (args : List Text) × (privileged_reexec reexec (map entry variables)
      ≡ ok (reexec.redirector ∷ reexec.invoker_path ∷ args))
    × (invoke (codes "nsbox") [] args
        ≡ ok (record {
          argv = codes "nsbox" ∷ reexec.command ∷ line_of reexec;
          environ = [] ++ map entry (allowed variables);
        }))
invoke-privileged_reexec_example =
    invoke-privileged_reexec (codes "nsbox") [] reexec variables variables-Named

abbrev invoker_args : List Text
invoker_args = codes "run" ∷ codes "DISPLAY=:0" ∷ codes "::" ∷ codes "-workdir=/" ∷ []

abbrev invoked : Exec
invoked = record {
  argv = codes "nsbox" ∷ codes "run" ∷ codes "-workdir=/" ∷ [];
  environ = codes "DISPLAY=:0" ∷ [];
}

invoked_lem : invoke (codes "nsbox") [] invoker_args ≡ ok invoked
unfolding invoke str_eq nsbox.Userdata.Environ.split_env is_whitelisted contains
    nsbox.Base.split_once
invoked_lem = refl

invoke-without_marker_example :
    invoke (codes "nsbox") [] (codes "run" ∷ map entry (allowed variables))
    ≡ ok (record {
      argv = codes "nsbox" ∷ codes "run" ∷ map entry (allowed variables);
      environ = [] ++ map entry (allowed variables);
    })
unfolding is_whitelisted contains str_eq
invoke-without_marker_example =
    invoke-without_marker (codes "nsbox") (codes "run") [] variables variables-Named two
  where
    two : 2 ≤ length (allowed variables)
    two = omega arith

parse_environ_lem_example :
    (r : Dict Text) × (parse_environ (map entry variables) ≡ ok r)
    × ((k : Text) → lookup k r ≡ (if is_whitelisted k then last_value k none variables else none))
parse_environ_lem_example = parse_environ_lem variables variables-Named

abbrev adding : ArrayTransformValue
adding = record { kind = add; items = codes "a" ∷ codes "b" ∷ [] }

set_value-to_string_example :
    set_value (to_string (set_value (codes "+a,b") zero_value).0) zero_value
    ≡ ((set_value (codes "+a,b") zero_value).0, ok tt)
unfolding set_value nsbox.Base.split
set_value-to_string_example = set_value-to_string (codes "+a,b") refl

contains-apply_example : contains (apply adding (codes "b" ∷ [])) (codes "a") ≡ true
unfolding contains str_eq
contains-apply_example = contains-apply adding (codes "b" ∷ []) (codes "a")
