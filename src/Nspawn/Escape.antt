-- ===== src/Nspawn/Escape.antt =====
-- internal/nspawn/builder.go, escapeMountPath: a backslash goes before each backslash and colon.
use nsbox.Base.{
  ℕ, Text, List, [], ◌∷◌, ◌++◌, ◌||◌, false, sym, ◌∙◌, extend, if◌then◌else◌, ◌==◌, ◌≡◌, refl, ap,
  arith, Bool-cases, inl, inr,
}

-- strings.ReplaceAll of one character by a text.
unfoldable pub replace_all : ℕ → Text → Text → Text
replace_all old new [] = []
replace_all old new (c ∷ s) =
    let rest = replace_all old new s in if c == old then new ++ rest else c ∷ rest

abbrev pub backslash : ℕ
backslash = 92

unfoldable pub escape_mount_path : Text → Text
unfolding replace_all
escape_mount_path path =
    replace_all b':' (backslash ∷ b':' ∷ [])
      (replace_all backslash (backslash ∷ backslash ∷ []) path)

-- One character, escaped.
abbrev escaped : ℕ → Text
escaped c = if c == backslash || c == b':' then backslash ∷ c ∷ [] else c ∷ []

escape-cons : (c : ℕ) (s : Text) → escape_mount_path (c ∷ s) ≡ escaped c ++ escape_mount_path s
unfolding escape_mount_path
escape-cons c s = ground arith

-- How nspawn reads the value of `--bind`: fields stand between colons, and a backslash takes the
-- special meaning from the character behind it.
unfoldable pub read_fields : Text → List Text
read_fields [] = [] ∷ []
read_fields (c ∷ []) = if c == b':' then [] ∷ [] ∷ [] else (c ∷ []) ∷ []
read_fields (c ∷ d ∷ s) =
    let quoted = extend d (read_fields s) in
    let plain = read_fields (d ∷ s) in
    if c == backslash then quoted else if c == b':' then [] ∷ plain else extend c plain

read_fields-quoted : (c : ℕ) (s : Text) → read_fields (backslash ∷ c ∷ s) ≡ extend c (read_fields s)
unfolding read_fields
read_fields-quoted c s = refl

read_fields-plain :
    (c d : ℕ) (s : Text)
    → (c == backslash || c == b':') ≡ false
    → read_fields (c ∷ d ∷ s) ≡ extend c (read_fields (d ∷ s))
unfolding read_fields
read_fields-plain c d s h = ground arith

escape-append-cons :
    (s rest : Text) → (d : ℕ) × (t : Text) × (escape_mount_path s ++ (b':' ∷ rest) ≡ d ∷ t)
escape-append-cons [] rest = unfold escape_mount_path in (b':', rest, refl)
escape-append-cons (c ∷ s) rest = elim (Bool-cases (c == backslash || c == b':')) [
  | inl h ↦ (backslash, c ∷ (escape_mount_path s ++ (b':' ∷ rest)), rw escape-cons (rw h refl))
  | inr h ↦ (c, escape_mount_path s ++ (b':' ∷ rest), rw escape-cons (rw h refl))
]

-- An escaped path is read back as one field, whatever characters it holds.
pub read_fields-escape :
    (path rest : Text)
    → read_fields (escape_mount_path path ++ (b':' ∷ rest)) ≡ path ∷ read_fields rest
read_fields-escape [] [] = unfold read_fields escape_mount_path in refl
read_fields-escape [] (d ∷ rest) = unfold read_fields escape_mount_path in refl
read_fields-escape (c ∷ path) rest = elim (Bool-cases (c == backslash || c == b':')) [
  | inl h ↦
      rw escape-cons (rw h (rw read_fields-quoted (ap (extend c) (read_fields-escape path rest))))
  | inr h ↦
      let (d, t, e) = escape-append-cons path rest in
      rw escape-cons (
        rw h (
          rw e (
            read_fields-plain c d t h
            ∙ ap (extend c) (ap read_fields (sym e) ∙ read_fields-escape path rest))))
]
