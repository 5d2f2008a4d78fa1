-- ===== src/Userdata/Username.antt =====
-- internal/userdata/userdata.go, EscapedUsername, and the machine names of
-- internal/container/container.go that are made from it.
use nsbox.Base.{
  ℕ, Text, [], ◌∷◌, ◌++◌, append_assoc, append-nil, Bool, not, ◌&&◌, ◌||◌, ◌/◌, zero, suc, leb, ltb,
  if◌then◌else◌, hex, digits, Lacks, Lacks-append, split_once, split_once-Lacks, some, Option, ◌≡◌,
  ◌≢◌, refl, sym, ◌∙◌, ap, arith, Bool-cases, inl, inr,
}

abbrev backslash : ℕ
backslash = 92

-- `[^A-Za-z0-9]`
unfoldable pub is_escaped : ℕ → Bool
is_escaped c =
    not ((leb b'A' c && leb c b'Z') || (leb b'a' c && leb c b'z') || (leb b'0' c && leb c b'9'))

-- The function that is called on each match.
unfoldable pub escape_match : Text → Text
escape_match [] = []
escape_match (r ∷ match) = (backslash ∷ b'x' ∷ hex r) ++ escape_match match

-- ReplaceAllStringFunc for `[^A-Za-z0-9]+`: matches are as long as possible. `match` holds what has
-- been read of the current one.
unfoldable pub replace_matches : Text → Text → Text
replace_matches match [] = escape_match match
replace_matches match (c ∷ s) =
    let longer = replace_matches (match ++ c ∷ []) s in
    let over = replace_matches [] s in
    if is_escaped c then longer else escape_match match ++ (c ∷ over)

unfoldable pub escaped_username : Text → Text
unfolding is_escaped escape_match replace_matches
escaped_username username = replace_matches [] username

-- MachineName
unfoldable pub machine_name : Text → Text → Text
machine_name username name = escaped_username username ++ (b'-' ∷ name)

escape_match-append : (s t : Text) → escape_match (s ++ t) ≡ escape_match s ++ escape_match t
unfolding escape_match
escape_match-append [] t = refl
escape_match-append (r ∷ s) t =
    ap (λ l. backslash ∷ b'x' ∷ l)
      (ap (λ l. hex r ++ l) (escape_match-append s t)
        ∙ sym (append_assoc (hex r) (escape_match s) _))

-- One character, escaped.
abbrev escape_char : ℕ → Text
escape_char c = if is_escaped c then backslash ∷ b'x' ∷ hex c else c ∷ []

abbrev each : Text → Text
each [] = []
each (c ∷ s) = escape_char c ++ each s

replace_matches-each : (match s : Text) → replace_matches match s ≡ escape_match match ++ each s
unfolding replace_matches
replace_matches-each match [] = sym (append-nil (escape_match match))
replace_matches-each match (c ∷ s) = elim (Bool-cases (is_escaped c)) [
  | inl h ↦
      rw (h, replace_matches-each (match ++ c ∷ []) s, escape_match-append)
        (rw append_assoc (unfold escape_match in rw append-nil refl))
  | inr h ↦ rw (h, replace_matches-each [] s) (unfold escape_match in refl)
]

escaped_username-each : (s : Text) → escaped_username s ≡ each s
unfolding escaped_username
escaped_username-each s = replace_matches-each [] s

digits-Lacks : (base fuel n : ℕ) → Lacks b'-' (digits base fuel n)
unfolding digits
digits-Lacks base zero n = tt
digits-Lacks base (suc fuel) n = elim (Bool-cases (ltb n base)) [
  | inl h ↦ rw h (ground arith, tt)
  | inr h ↦ rw h (Lacks-append b'-' _ _ (digits-Lacks base fuel (n / base)) (ground arith, tt))
]

each-Lacks : (s : Text) → Lacks b'-' (each s)
unfolding is_escaped hex
each-Lacks [] = tt
each-Lacks (c ∷ s) = elim (Bool-cases (is_escaped c)) [
  | inl h ↦
      rw h (
        omega arith,
        (omega arith, Lacks-append b'-' _ _ (digits-Lacks 16 (suc c) c) (each-Lacks s)),
      )
  | inr h ↦ rw h (ground arith, each-Lacks s)
]

split_once-machine_name :
    (username name : Text)
    → split_once b'-' (machine_name username name) ≡ (escaped_username username, some name)
unfolding machine_name
split_once-machine_name username name =
    split_once-Lacks b'-' (escaped_username username) name
      (rw escaped_username-each (each-Lacks username))

-- A machine name determines the container's name and the escaped user name.
pub machine_name-injective :
    (u v name other : Text)
    → machine_name u name ≡ machine_name v other
    → (name ≡ other) × (escaped_username u ≡ escaped_username v)
machine_name-injective u v name other h =
    let e : ◌≡◌ {A = Text × Option Text} (escaped_username u, some name)
        (escaped_username v, some other) =
      sym (split_once-machine_name u name)
      ∙ (ap (split_once b'-') h ∙ split_once-machine_name v other) in
    ground (arith, e)

-- The escape of a user name does not determine the user: the number of a character has no end mark,
-- so a dash before `b` reads like the one character U+02DB, whatever follows.
pub escaped_username_collides :
    (s : Text)
    → (escaped_username (b'-' ∷ b'b' ∷ s) ≡ escaped_username (0x2db ∷ s))
      × (◌≢◌ {A = Text} (b'-' ∷ b'b' ∷ s) (0x2db ∷ s))
unfolding is_escaped hex
escaped_username_collides s = (
  escaped_username-each (b'-' ∷ b'b' ∷ s) ∙ sym (escaped_username-each (0x2db ∷ s)),
  λ h. ground (arith, h),
)
