-- ===== src/Args/ArrayTransform/Flag.antt =====
-- The text of a flag value and its setter.
use nsbox.Base.{
  [], ◌∷◌, Option, none, some, Text, codes, ◌≡◌, refl, arith, any, is_empty, split, join,
  join-split, ok, Bool-cases, inl, inr,
}
use nsbox.Args.ArrayTransform.{
  Kind, add, del, set, kind_to_char, char_to_kind, ArrayTransformValue, zero_value, to_string,
  set_items, set_kind, set_value,
}

char_to_kind-kind_to_char : (k : Kind) → char_to_kind (kind_to_char k) ≡ some k
unfolding char_to_kind kind_to_char
char_to_kind-kind_to_char add = refl
char_to_kind-kind_to_char del = refl
char_to_kind-kind_to_char set = refl

fresh : Kind → ArrayTransformValue
fresh k = record { kind = k; items = [] }

set_items-join :
    (k : Kind) (s : Text)
    → (set_items (fresh k) s).1 ≡ ok tt
    → set_items (fresh k) (join (codes ",") (set_items (fresh k) s).0.items)
      ≡ ((set_items (fresh k) s).0, ok tt)
unfolding fresh
set_items-join k [] h = unfold join in refl
set_items-join k (c ∷ s) h = elim (Bool-cases (any is_empty (split b',' (c ∷ s)))) [
  | inl bad ↦ ground (arith, bad)
  | inr good ↦ rw good (rw (join-split b',' (c ∷ s)) (rw good refl))
]

kind-set_items : (v : ArrayTransformValue) (s : Text) → (set_items v s).0.kind ≡ v.kind
kind-set_items v [] = refl
kind-set_items v (c ∷ s) = ground arith

set_kind-to_string :
    (o : Option Kind) (s : Text)
    → (set_kind o zero_value s).1 ≡ ok tt
    → set_value (to_string (set_kind o zero_value s).0) zero_value
      ≡ ((set_kind o zero_value s).0, ok tt)
unfolding set_value to_string
set_kind-to_string none s h = ground arith
set_kind-to_string (some k) s h =
    rw (kind-set_items, char_to_kind-kind_to_char) (unfold fresh in set_items-join k s h)

-- A value that one call of the setter made from the zero value, without an error, prints as a
-- text from which the setter makes it again.
pub set_value-to_string :
    (arg : Text)
    → (set_value arg zero_value).1 ≡ ok tt
    → set_value (to_string (set_value arg zero_value).0) zero_value
      ≡ ((set_value arg zero_value).0, ok tt)
unfolding set_value
set_value-to_string [] h = unfold to_string join char_to_kind kind_to_char in refl
set_value-to_string (c ∷ s) h = set_kind-to_string (char_to_kind c) s h
