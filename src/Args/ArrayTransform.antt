-- ===== src/Args/ArrayTransform.antt =====
-- internal/args/array.go: `+a,b` adds items to a list, `-a,b` deletes them, `:a,b` sets the list.
-- A setter returns the value that it leaves behind beside its error, as flags keep what was
-- written. Log messages have no effect on the state and are left out.
pub mod Flag
pub mod Apply
use nsbox.Base.{
  ℕ, List, [], ◌∷◌, ◌++◌, Bool, true, false, Option, none, some, Text, codes, str_eq, contains, any,
  is_empty, split, join, ◌==◌, if◌then◌else◌, Result, ok, err, errorf,
}

pub data Kind : Type 0 where
  add del set : Kind

-- arrayTransformKindToChar
unfoldable pub kind_to_char : Kind → ℕ
kind_to_char add = b'+'
kind_to_char del = b'-'
kind_to_char set = b':'

-- charToArrayTransformKind
unfoldable pub char_to_kind : ℕ → Option Kind
char_to_kind c =
    if c == b'+'
    then some add
    else if c == b'-'
    then some del
    else if c == b':'
    then some set
    else none

pub record ArrayTransformValue : Type 0 where
  pub kind : Kind
  pub items : List Text

-- The zero value of the struct.
abbrev pub zero_value : ArrayTransformValue
zero_value = record { kind = add; items = [] }

unfoldable pub to_string : ArrayTransformValue → Text
unfolding kind_to_char
to_string value = kind_to_char value.kind ∷ join (codes ",") value.items

abbrev set_items : ArrayTransformValue → Text → ArrayTransformValue × Result (Unit {0})
set_items value [] = (value, ok tt)
set_items value (c ∷ rest) =
    let parts = split b',' (c ∷ rest) in
    if any is_empty parts
    then (value, err (errorf (codes "items must not be empty")))
    else (record value { items = parts }, ok tt)

abbrev set_kind : Option Kind → ArrayTransformValue → Text → ArrayTransformValue × Result (Unit {0})
set_kind none value rest = (value, err (errorf (codes "invalid array transform")))
set_kind (some kind) value rest = set_items (record value { kind = kind }) rest

unfoldable pub set_value : Text → ArrayTransformValue → ArrayTransformValue × Result (Unit {0})
unfolding char_to_kind
set_value [] value = (value, ok tt)
set_value (c ∷ rest) value = set_kind (char_to_kind c) value rest

-- The loop of the first case: `present` is the map made before the loop.
unfoldable pub add_items : List Text → List Text → List Text → List Text
add_items present target [] = target
add_items present target (item ∷ items) =
    add_items present (if contains present item then target else target ++ item ∷ []) items

unfoldable pub del_items : List Text → List Text → List Text
del_items given [] = []
del_items given (item ∷ target) =
    let rest = del_items given target in if contains given item then rest else item ∷ rest

unfoldable pub apply : ArrayTransformValue → List Text → List Text
unfolding add_items del_items
apply value target = elim value.kind [
  | add ↦ add_items target target value.items
  | del ↦ del_items value.items target
  | set ↦ value.items
]
