-- ===== src/Invoker/Passage.antt =====
-- What reaches the privileged process is what was written for it.
use nsbox.Base.{
  Text, List, [], ◌∷◌, ◌++◌, append_assoc, append-nil, codes, map, Bool, true, false, filter_out,
  str_eq, str_eq_iff, All, Lacks, str_eq_refl, suc, ◌<◌, >>=-eq-ok, ◌≤◌, split_once, ok, panic, ◌≡◌,
  ◌≢◌, refl, sym, ◌∙◌, ap, arith, ltb, length, length-append, Bool-cases, inl, inr,
}
use nsbox.Userdata.Environ.{
  is_whitelisted, split_env, entry, Named, allowed, whitelisted_environ-allowed, split_env-entry,
}
use nsbox.Invoker.{
  Flag, flag_text, Reexec, marker, visit, command_line, privileged_reexec, read_environ, Exec,
  finish, invoke,
}

marker-ne-entry :
    (name value : Text) → Lacks b'=' name → str_eq (entry (name, value)) marker ≡ false
marker-ne-entry name value h = elim (Bool-cases (str_eq (entry (name, value)) marker)) [
  | inl e ↦
      let same = (str_eq_iff _ _).0 e in
      ground (arith, sym (split_env-entry name value h) ∙ ap split_env same, split_env-marker)
  | inr e ↦ e
]
  where
    split_env-marker : split_env marker ≡ panic (codes "index out of range")
    split_env-marker = unfold split_env split_once in refl

-- The variables of the whitelist are read one by one.
read_environ-entries :
    (all started rest : List Text) (vs : List (Text × Text))
    → Named vs
    → read_environ all started (map entry (allowed vs) ++ rest)
      ≡ read_environ all (started ++ map entry (allowed vs)) rest
unfolding read_environ
read_environ-entries all started rest [] h = rw append-nil refl
read_environ-entries all started rest ((name, value) ∷ vs) h =
    elim (Bool-cases (is_whitelisted name)) [
      | inl p ↦
          rw (p, marker-ne-entry name value h.0, split_env-entry name value h.0, p)
            (read_environ-entries all (started ++ entry (name, value) ∷ []) rest vs h.1
              ∙ (rw append_assoc refl))
      | inr p ↦ rw p (read_environ-entries all started rest vs h.1)
    ]

line-length :
    (xs ys : List Text) (a b : Text) (zs : List Text)
    → (x : Text) × (rest : List Text) × (xs ++ (ys ++ (a ∷ b ∷ zs)) ≡ x ∷ rest)
line-length [] [] a b zs = (a, b ∷ zs, refl)
line-length [] (y ∷ ys) a b zs = (y, ys ++ (a ∷ b ∷ zs), refl)
line-length (x ∷ xs) ys a b zs = (x, xs ++ (ys ++ (a ∷ b ∷ zs)), refl)

finish-cons :
    (nsbox command : Text) (environ line : List Text)
    → line ≢ []
    → finish nsbox command (environ, line)
      ≡ ok (record { argv = nsbox ∷ command ∷ line; environ = environ })
finish-cons nsbox command environ [] n = absurd (n refl)
finish-cons nsbox command environ (x ∷ line) n = refl

command_line-ne-nil : (r : Reexec) → command_line r ≢ []
unfolding command_line
command_line-ne-nil r h =
    let (x, rest, e) =
      line-length (visit r.global_flags) (visit r.command_flags)
        (codes "-" ++ (codes "workdir" ++ (codes "=" ++ r.workdir))) (codes "--") r.positional in
    ground (arith, e, h)

read_environ-marker :
    (all environ args : List Text) → read_environ all environ (marker ∷ args) ≡ ok (environ, args)
unfolding read_environ
read_environ-marker all environ args = rw (str_eq_refl marker) refl

-- The flags as words, without the working directory.
abbrev is_workdir : Flag → Bool
is_workdir (name, value) = str_eq name (codes "workdir")

abbrev word : Flag → Text
word (name, value) = codes "-" ++ (name ++ (codes "=" ++ value))

abbrev pub words : List Flag → List Text
words flags = map word (filter_out is_workdir flags)

visit-words : (flags : List Flag) → visit flags ≡ words flags
unfolding visit flag_text
visit-words [] = refl
visit-words ((name, value) ∷ flags) = elim (Bool-cases (str_eq name (codes "workdir"))) [
  | inl e ↦ rw e (visit-words flags)
  | inr e ↦ rw e (ap (λ rest. word (name, value) ∷ rest) (visit-words flags))
]

-- What stands behind the marker, written out.
abbrev pub line_of : Reexec → List Text
line_of r =
    words r.global_flags
    ++ (words r.command_flags ++ ((codes "-workdir=" ++ r.workdir) ∷ codes "--" ∷ r.positional))

command_line-line_of : (r : Reexec) → command_line r ≡ line_of r
unfolding command_line flag_text
command_line-line_of r = rw (visit-words r.global_flags, visit-words r.command_flags) refl

-- The whole way: from an environment whose names hold no `=`, privilegedReexec makes arguments that
-- the invoker accepts. It starts nsbox with the same command, then each global flag and each flag of
-- the command as `-name=value`, in order and without those named workdir, then the working directory
-- once and the positional arguments behind `--`, and adds exactly the variables of the whitelist, in
-- order.
pub invoke-privileged_reexec :
    (nsbox : Text) (started : List Text) (r : Reexec) (vs : List (Text × Text))
    → Named vs
    → (args : List Text) × (privileged_reexec r (map entry vs)
        ≡ ok (r.redirector ∷ r.invoker_path ∷ args))
      × (invoke nsbox started args
          ≡ ok (record {
            argv = nsbox ∷ r.command ∷ line_of r;
            environ = started ++ map entry (allowed vs);
          }))
unfolding privileged_reexec invoke
invoke-privileged_reexec nsbox started r vs h = (
  r.command ∷ (map entry (allowed vs) ++ (marker ∷ command_line r)),
  rw (whitelisted_environ-allowed vs h) refl,
  rw long (
      rw (read_environ-entries _ started (marker ∷ command_line r) vs h, read_environ-marker)
        (finish-cons nsbox r.command _ (command_line r) (command_line-ne-nil r)
          ∙ rw (command_line-line_of r) refl)),
)
  where
    cons : (line : List Text) → line ≢ [] → 0 < length line
    cons [] n = absurd (n refl)
    cons (x ∷ line) n = omega arith

    long : ltb (suc (length (map entry (allowed vs) ++ (marker ∷ command_line r)))) 3 ≡ false
    long = ground (
      arith,
      length-append (map entry (allowed vs)) (marker ∷ command_line r),
      cons (command_line r) (command_line-ne-nil r),
    )

-- What the invoker adds to the environment it was started with.
abbrev pub IsPassed : Text → Type 0
IsPassed env = (v : Text × Text) × (split_env env ≡ ok v) × (is_whitelisted v.0 ≡ true)

read_environ-IsPassed :
    (all environ args : List Text) (r : List Text × List Text)
    → read_environ all environ args ≡ ok r
    → (extra : List Text) × (r.0 ≡ environ ++ extra) × All IsPassed extra
unfolding read_environ
read_environ-IsPassed all environ [] r h = ([], rw append-nil (ground (arith, h)), tt)
read_environ-IsPassed all environ (env ∷ args) r h = elim (Bool-cases (str_eq env marker)) [
  | inl end ↦ ([], rw append-nil (ground (arith, h, end)), tt)
  | inr more ↦
      let (v, e, k) = >>=-eq-ok (split_env env) _ (rw more at h) in
      elim (Bool-cases (is_whitelisted v.0)) [
        | inl w ↦
            let (extra, p, q) =
              read_environ-IsPassed all (environ ++ env ∷ []) args r (rw w at k) in
            (env ∷ extra, p ∙ append_assoc environ (env ∷ []) extra, ((v, e, w), q))
        | inr w ↦ absurd (ground (arith, k, w))
      ]
]

-- Whatever its arguments, if the invoker starts nsbox, it adds to the environment only variables
-- of the whitelist.
pub invoke-IsPassed :
    (nsbox : Text) (started args : List Text) (e : Exec)
    → invoke nsbox started args ≡ ok e
    → (extra : List Text) × (e.environ ≡ started ++ extra) × All IsPassed extra
unfolding invoke
invoke-IsPassed nsbox started [] e h = absurd (ground (arith, h))
invoke-IsPassed nsbox started (command ∷ args) e h =
    elim (Bool-cases (ltb (length (command ∷ args)) 3)) [
      | inl short ↦ absurd (ground (arith, h, short))
      | inr long ↦
          let (r, p, k) =
            >>=-eq-ok (read_environ args started args) (finish nsbox command) (rw long at h) in
          let (extra, q, passed) = read_environ-IsPassed args started args r p in
          (extra, environ-finish r k ∙ q, passed)
    ]
  where
    environ-finish : (r : List Text × List Text) → finish nsbox command r ≡ ok e → e.environ ≡ r.0
    environ-finish (environ, []) k = absurd (ground (arith, k))
    environ-finish (environ, arg ∷ rest) k = ground (arith, k)

-- If the arguments are a command and at least two variables of the whitelist, and no marker, the
-- invoker does not refuse them: the variables become arguments of nsbox as well.
pub invoke-without_marker :
    (nsbox command : Text) (started : List Text) (vs : List (Text × Text))
    → Named vs
    → 2 ≤ length (allowed vs)
    → invoke nsbox started (command ∷ map entry (allowed vs))
      ≡ ok (record {
        argv = nsbox ∷ command ∷ map entry (allowed vs);
        environ = started ++ map entry (allowed vs);
      })
unfolding invoke
invoke-without_marker nsbox command started vs h n =
    rw enough (rw all_read (finish-cons nsbox command _ (map entry (allowed vs)) some_left))
  where
    length-entries : (ws : List (Text × Text)) → length (map entry ws) ≡ length ws
    length-entries [] = refl
    length-entries (w ∷ ws) = ap suc (length-entries ws)

    enough : ltb (suc (length (map entry (allowed vs)))) 3 ≡ false
    enough = ground (arith, length-entries (allowed vs))

    some_left : map entry (allowed vs) ≢ []
    some_left z = omega (arith, ap length z, length-entries (allowed vs))

    all_read :
        read_environ (map entry (allowed vs)) started (map entry (allowed vs))
        ≡ ok (started ++ map entry (allowed vs), map entry (allowed vs))
    all_read =
        ap (read_environ (map entry (allowed vs)) started)
          (sym (append-nil (map entry (allowed vs))))
        ∙ (read_environ-entries (map entry (allowed vs)) started [] vs h
            ∙ unfold read_environ in refl)
