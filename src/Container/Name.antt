-- ===== src/Container/Name.antt =====
-- internal/container/container.go, validateName.
use nsbox.Base.{
  ℕ, Text, [], ◌∷◌, ◌++◌, codes, Bool, true, false, if◌then◌else◌, leb, ◌&&◌, ◌||◌, ◌==◌, Result,
  ok, err, errorf, all, ◌≡◌, ◌≢◌, refl, ◌↔◌, arith, Lacks, str_eq,
}
use mathlib.Core.Path.{fun_ext}
use nsbox.FilePath.{slash}
use nsbox.FilePath.Joined.{IsPlain}
use nsbox.Regexp.{Regexp, Spans, class, plus, match_string, in_class}
use nsbox.Regexp.Shapes.{whole, match-whole-plus_class}

abbrev name_spans : Spans
name_spans = (b'a', b'z') ∷ (b'A', b'Z') ∷ (b'0', b'9') ∷ (b'_', b'_') ∷ (b'-', b'-') ∷ []

-- `^[a-zA-Z0-9_-]+$`
abbrev pub name_regexp : Regexp
name_regexp = whole (plus (class false name_spans))

unfoldable pub validate_name : Text → Result (Unit {0})
validate_name name =
    if match_string name_regexp name
    then ok tt
    else err (errorf (codes "invalid container name: " ++ name))

abbrev is_lower : ℕ → Bool
is_lower c = leb b'a' c && leb c b'z'

abbrev is_upper : ℕ → Bool
is_upper c = leb b'A' c && leb c b'Z'

abbrev is_digit : ℕ → Bool
is_digit c = leb b'0' c && leb c b'9'

-- What a container's name may consist of.
unfoldable pub is_name_char : ℕ → Bool
is_name_char c = is_lower c || is_upper c || is_digit c || c == b'_' || c == b'-'

in_class-name : (c : ℕ) → in_class false name_spans c ≡ is_name_char c
unfolding in_class is_name_char
in_class-name c = ground arith

-- A name is accepted exactly if it has a character and consists of letters and digits of ASCII, `_`
-- and `-`.
pub validate_name_iff :
    (name : Text) → (validate_name name ≡ ok tt) ↔ ((name ≢ []) × (all is_name_char name ≡ true))
unfolding validate_name
validate_name_iff name =
    rw (← fun_ext in_class-name) (ground (arith, match-whole-plus_class false name_spans name))

Lacks-name : (name : Text) → all is_name_char name ≡ true → Lacks slash name
unfolding is_name_char
Lacks-name [] h = tt
Lacks-name (c ∷ name) h = (ground arith, Lacks-name name (ground arith))

name-IsPlain : (name : Text) → name ≢ [] → all is_name_char name ≡ true → IsPlain name
unfolding is_name_char str_eq
name-IsPlain [] n h = absurd (n refl)
name-IsPlain (c ∷ name) n h = record {
  lacks_slash = Lacks-name (c ∷ name) h;
  not_empty = refl;
  not_dot = ground arith;
  not_parent = ground arith;
}

-- A valid name is one plain element of a path: it holds no slash and is neither `.` nor `..`.
pub validate_name-IsPlain : (name : Text) → validate_name name ≡ ok tt → IsPlain name
validate_name-IsPlain name h = let (n, a) = (validate_name_iff name).0 h in name-IsPlain name n a
