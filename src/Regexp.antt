-- ===== src/Regexp.antt =====
-- Go's `regexp`, as far as the program's patterns use it: a matcher by derivatives. Theorems about
-- the patterns go through the relation `Lang` of the child module.
pub mod Lang
pub mod Search
pub mod Shapes
use nsbox.Base.{ℕ, List, [], ◌∷◌, Bool, true, false, not, ◌&&◌, ◌||◌, leb, Text, is_empty}

-- Inclusive ranges of code points.
abbrev pub Spans : Type 0
Spans = List (ℕ × ℕ)

pub data Regexp : Type 0 where
  fails : Regexp
  empty : Regexp
  -- `^` and `$`, with no `m` flag
  begin_text : Regexp
  end_text : Regexp
  -- a class, negated if the flag says so
  class : Bool → Spans → Regexp
  alt : Regexp → Regexp → Regexp
  cat : Regexp → Regexp → Regexp
  star : Regexp → Regexp

abbrev pub plus : Regexp → Regexp
plus r = cat r (star r)

abbrev pub opt : Regexp → Regexp
opt r = alt r empty

unfoldable pub in_spans : Spans → ℕ → Bool
in_spans [] c = false
in_spans ((lo, hi) ∷ spans) c = (leb lo c && leb c hi) || in_spans spans c

unfoldable pub in_class : Bool → Spans → ℕ → Bool
unfolding in_spans
in_class true spans c = not (in_spans spans c)
in_class false spans c = in_spans spans c

-- Does the expression match the empty text? `at_begin` and `at_end` say where that text stands.
unfoldable pub nullable : Bool → Bool → Regexp → Bool
nullable at_begin at_end fails = false
nullable at_begin at_end empty = true
nullable at_begin at_end begin_text = at_begin
nullable at_begin at_end end_text = at_end
nullable at_begin at_end (class negated spans) = false
nullable at_begin at_end (alt r s) = nullable at_begin at_end r || nullable at_begin at_end s
nullable at_begin at_end (cat r s) = nullable at_begin at_end r && nullable at_begin at_end s
nullable at_begin at_end (star r) = true

abbrev pub only_if : Bool → Regexp → Regexp
only_if true r = r
only_if false r = fails

-- What is left to match once `c` has been read.
unfoldable pub derive : Bool → ℕ → Regexp → Regexp
derive at_begin c fails = fails
derive at_begin c empty = fails
derive at_begin c begin_text = fails
derive at_begin c end_text = fails
derive at_begin c (class negated spans) = only_if (in_class negated spans c) empty
derive at_begin c (alt r s) = alt (derive at_begin c r) (derive at_begin c s)
derive at_begin c (cat r s) =
    alt (cat (derive at_begin c r) s) (only_if (nullable at_begin false r) (derive at_begin c s))
derive at_begin c (star r) = cat (derive at_begin c r) (star r)

-- Does some prefix of the text match?
unfoldable pub match_prefix : Bool → Regexp → Text → Bool
unfolding nullable derive in_class
match_prefix at_begin r [] = nullable at_begin true r
match_prefix at_begin r (c ∷ s) =
    nullable at_begin false r || match_prefix false (derive at_begin c r) s

unfoldable pub match_later : Regexp → Text → Bool
unfolding match_prefix
match_later r [] = false
match_later r (c ∷ s) = match_prefix false r s || match_later r s

-- regexp.MatchString: does some part of the text match?
unfoldable pub match_string : Regexp → Text → Bool
unfolding match_later
match_string r s = match_prefix true r s || match_later r s
