-- ===== src/FilePath/Glob.antt =====
-- filepath.Match on Unix. A pattern that is not well formed is told apart from one that does not match
-- only by what is logged, so that both are `false` here.
use nsbox.Base.{
  ℕ, Text, List, [], ◌∷◌, Bool, true, false, not, ◌&&◌, ◌||◌, ◌==◌, leb, any, is_empty,
  if◌then◌else◌, Option, none, some,
}
use nsbox.FilePath.{slash}

pub data Term : Type 0 where
  star any_char : Term
  char : ℕ → Term
  class : Bool → List (ℕ × ℕ) → Term

-- Where the reader of a pattern stands. A class keeps its negation and its ranges so far.
pub data Reader : Type 0 where
  outside escaped class_start : Reader
  class_item : Bool → List (ℕ × ℕ) → Reader
  class_escaped : Bool → List (ℕ × ℕ) → Reader
  class_low : Bool → List (ℕ × ℕ) → ℕ → Reader
  class_high : Bool → List (ℕ × ℕ) → ℕ → Reader
  class_high_escaped : Bool → List (ℕ × ℕ) → ℕ → Reader

pub data Next : Type 0 where
  malformed : Next
  reads : Reader → Next
  yields : Term → Next

-- The next character at a place where a range may begin or the class may end.
range_or_end : Bool → List (ℕ × ℕ) → ℕ → Next
range_or_end negated ranges c =
    if c == b']' && not (is_empty ranges)
    then yields (class negated ranges)
    else if c == b'\\'
    then reads (class_escaped negated ranges)
    else if c == b'-' || c == b']'
    then malformed
    else reads (class_low negated ranges c)

pub next : Reader → ℕ → Next
unfolding range_or_end
next outside c =
    if c == b'*'
    then yields star
    else if c == b'?'
    then yields any_char
    else if c == b'['
    then reads class_start
    else if c == b'\\'
    then reads escaped
    else yields (char c)
next escaped c = yields (char c)
next class_start c = if c == b'^' then reads (class_item true []) else range_or_end false [] c
next (class_item negated ranges) c = range_or_end negated ranges c
next (class_escaped negated ranges) c = reads (class_low negated ranges c)
next (class_low negated ranges low) c =
    if c == b'-'
    then reads (class_high negated ranges low)
    else range_or_end negated ((low, low) ∷ ranges) c
next (class_high negated ranges low) c =
    if c == b'\\'
    then reads (class_high_escaped negated ranges low)
    else if c == b'-' || c == b']'
    then malformed
    else reads (class_item negated ((low, c) ∷ ranges))
next (class_high_escaped negated ranges low) c = reads (class_item negated ((low, c) ∷ ranges))

abbrev push_term : Term → Option (List Term) → Option (List Term)
push_term term none = none
push_term term (some terms) = some (term ∷ terms)

abbrev go_on : Next → (Reader → Option (List Term)) → Option (List Term)
go_on malformed rest = none
go_on (reads reader) rest = rest reader
go_on (yields term) rest = push_term term (rest outside)

abbrev at_end : Reader → Option (List Term)
at_end outside = some []
at_end reader = none

unfoldable pub read_pattern : Reader → Text → Option (List Term)
unfolding next
read_pattern reader [] = at_end reader
read_pattern reader (c ∷ pattern_text) = go_on (next reader c) (λ r. read_pattern r pattern_text)

abbrev in_range : ℕ → ℕ × ℕ → Bool
in_range c (low, high) = leb low c && leb c high

-- One character against one term that is not a star.
abbrev accepts : Term → ℕ → Bool
accepts star c = false
accepts any_char c = not (c == slash)
accepts (char d) c = d == c
accepts (class negated ranges) c = elim (any (in_range c) ranges) [
  | true ↦ not negated
  | false ↦ negated
]

-- Every way to cut off a part without a slash.
unfoldable pub after_star : (Text → Bool) → Text → Bool
after_star rest [] = rest []
after_star rest (c ∷ s) = rest (c ∷ s) || (not (c == slash) && after_star rest s)

unfoldable pub match_terms : List Term → Text → Bool
match_terms [] s = is_empty s
match_terms (star ∷ terms) s = after_star (match_terms terms) s
match_terms (any_char ∷ terms) [] = false
match_terms (any_char ∷ terms) (c ∷ s) = accepts any_char c && match_terms terms s
match_terms (char d ∷ terms) [] = false
match_terms (char d ∷ terms) (c ∷ s) = accepts (char d) c && match_terms terms s
match_terms (class negated ranges ∷ terms) [] = false
match_terms (class negated ranges ∷ terms) (c ∷ s) =
    accepts (class negated ranges) c && match_terms terms s

abbrev matched : Option (List Term) → Text → Bool
matched none name = false
matched (some terms) name = match_terms terms name

-- filepath.Match without an error and with `true`
unfoldable pub match_path : Text → Text → Bool
unfolding read_pattern match_terms after_star
match_path pattern_text name = matched (read_pattern outside pattern_text) name
