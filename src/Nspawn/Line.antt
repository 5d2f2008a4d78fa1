-- ===== src/Nspawn/Line.antt =====
-- The command line as a whole: its parts in order, and the bind mounts as nspawn reads them.
use nsbox.Base.{
  Text, List, [], ◌∷◌, ◌++◌, append_assoc, append-nil, codes, Bool, true, false, map, join,
  is_empty, if◌then◌else◌, ◌≡◌, refl, sym, ◌∙◌, ap, ok, panic,
}
use nsbox.Nspawn.Escape.{read_fields, read_fields-escape}
use nsbox.Nspawn.{
  BindMount, Builder, add_flag, add_arg_value, maybe_add_arg_value, add_capabilities, add_binds,
  bind_spec, build,
}

-- The three fields of a bind mount.
abbrev pub fields : BindMount → List Text
fields bind =
    bind.host ∷ bind.dest ∷ (if bind.recursive then codes "rbind" else codes "norbind") ∷ []

-- Read with a backslash as the escape of the next character, every bind mount has the three
-- fields it was added with: no colon or backslash in a path can end a field, add one or change
-- the option.
pub read_fields-bind_spec : (bind : BindMount) → read_fields (bind_spec bind) ≡ fields bind
unfolding bind_spec join
read_fields-bind_spec bind =
    read_fields-escape bind.host _
    ∙ ap (λ l. bind.host ∷ l)
        (read_fields-escape bind.dest _ ∙ ap (λ l. bind.dest ∷ l) (last bind.recursive))
  where
    last :
        (recursive : Bool)
        → read_fields (if recursive then codes "rbind" else codes "norbind")
          ≡ (if recursive then codes "rbind" else codes "norbind") ∷ []
    last true = unfold read_fields in refl
    last false = unfold read_fields in refl

abbrev word : Text → Text
word arg = codes "--" ++ arg

abbrev word_value : Text → Text → Text
word_value arg value = codes "--" ++ (arg ++ (codes "=" ++ value))

abbrev flag : Bool → Text → List Text
flag true arg = word arg ∷ []
flag false arg = []

abbrev setting : Text → Text → List Text
setting arg [] = []
setting arg (c ∷ value) = word_value arg (c ∷ value) ∷ []

-- What stands between the program and the command, part by part.
pub arguments : Builder → List (List Text)
arguments b =
    flag b.quiet (codes "quiet")
    ∷ flag b.as_pid2 (codes "as-pid2")
    ∷ flag b.boot (codes "boot")
    ∷ flag b.keep_unit (codes "keep-unit")
    ∷ flag b.pipe_console (codes "pipe")
    ∷ flag b.network_veth (codes "network-veth")
    ∷ (word_value (codes "directory") b.machine_directory ∷ [])
    ∷ setting (codes "link-journal") b.link_journal
    ∷ setting (codes "machine") b.machine_name
    ∷ setting (codes "hostname") b.hostname
    ∷ setting (codes "network-zone") b.network_zone
    ∷ setting (codes "system-call-filter") b.system_call_filter
    ∷ map (word_value (codes "capability")) b.capabilities
    ∷ map (λ bind. word_value (codes "bind") (bind_spec bind)) b.binds
    ∷ []

abbrev pub concat : List (List Text) → List Text
concat [] = []
concat (p ∷ ps) = p ++ concat ps

add_arg_value-eq :
    (args : List Text) (arg value : Text)
    → add_arg_value args arg value ≡ args ++ word_value arg value ∷ []
unfolding add_arg_value
add_arg_value-eq args arg value = refl

add_flag-eq :
    (on : Bool) (args : List Text) (arg : Text) → add_flag on args arg ≡ args ++ flag on arg
unfolding add_flag
add_flag-eq true args arg = refl
add_flag-eq false args arg = sym (append-nil args)

maybe_add_arg_value-eq :
    (args : List Text) (arg value : Text)
    → maybe_add_arg_value args arg value ≡ args ++ setting arg value
unfolding maybe_add_arg_value
maybe_add_arg_value-eq args arg [] = sym (append-nil args)
maybe_add_arg_value-eq args arg (c ∷ value) = refl

add_binds-eq :
    (args : List Text) (binds : List BindMount)
    → add_binds args binds ≡ args ++ map (λ bind. word_value (codes "bind") (bind_spec bind)) binds
unfolding add_binds
add_binds-eq args [] = sym (append-nil args)
add_binds-eq args (bind ∷ rest) =
    add_binds-eq (add_arg_value args (codes "bind") (bind_spec bind)) rest
    ∙ (rw add_arg_value-eq (append_assoc args (_ ∷ []) _))

add_capabilities-eq :
    (args capabilities : List Text)
    → add_capabilities args capabilities
      ≡ args ++ map (word_value (codes "capability")) capabilities
unfolding add_capabilities
add_capabilities-eq args [] = sym (append-nil args)
add_capabilities-eq args (capability ∷ rest) =
    add_capabilities-eq (add_arg_value args (codes "capability") capability) rest
    ∙ (rw add_arg_value-eq (append_assoc args (_ ∷ []) _))

-- With a machine directory the command line is the program, then one word for each switch that is
-- on and each value that is set, all capabilities and bind mounts in their order, and the command.
-- Without one, Build panics.
pub build-eq :
    (b : Builder)
    → build b ≡ (
        if is_empty b.machine_directory
        then panic (codes "MachineDirectory must be set")
        else ok (b.nspawn ∷ (concat (arguments b) ++ b.command)))
unfolding build arguments
build-eq b =
    ap
      (λ l.
        if is_empty b.machine_directory then panic (codes "MachineDirectory must be set") else ok l)
      (simp (
        add_binds-eq, add_capabilities-eq, maybe_add_arg_value-eq, add_arg_value-eq, add_flag-eq,
        append_assoc, append-nil,
      ))
