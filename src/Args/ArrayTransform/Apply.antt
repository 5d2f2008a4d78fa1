-- ===== src/Args/ArrayTransform/Apply.antt =====
-- What a transform does to a list: its members, their order, repetitions, a second application.
use nsbox.Base.{
  List, [], ◌∷◌, ◌++◌, append_assoc, append-nil, Bool, true, false, not, ◌&&◌, ◌||◌, Text, contains,
  contains-append, str_eq_iff, ◌≡◌, refl, sym, ◌∙◌, arith, Bool-cases, inl, inr,
}
use nsbox.Args.ArrayTransform.{
  Kind, add, del, set, ArrayTransformValue, add_items, del_items, apply,
}

-- What is added stands behind the list, in the order given, without what was there before.
add_items-eq :
    (present target items : List Text)
    → add_items present target items ≡ target ++ del_items present items
unfolding add_items del_items
add_items-eq present target [] = sym (append-nil target)
add_items-eq present target (item ∷ items) = elim (Bool-cases (contains present item)) [
  | inl h ↦ rw h (add_items-eq present target items)
  | inr h ↦
      rw h (add_items-eq present (target ++ item ∷ []) items ∙ append_assoc target (item ∷ []) _)
]

contains-del_items :
    (given target : List Text) (a : Text)
    → contains (del_items given target) a ≡ (contains target a && not (contains given a))
unfolding contains del_items
contains-del_items given [] a = refl
contains-del_items given (item ∷ target) a =
    ground (arith, contains-del_items given target a, str_eq_iff item a)

-- The members that the transform should leave.
abbrev pub expected : Kind → Bool → Bool → Bool
expected add old given = old || given
expected del old given = old && not given
expected set old given = given

-- Membership after a transform: `+` joins, `-` subtracts and `:` replaces, for every list and item.
pub contains-apply :
    (value : ArrayTransformValue) (target : List Text) (a : Text)
    → contains (apply value target) a
      ≡ expected value.kind (contains target a) (contains value.items a)
unfolding apply
contains-apply value target a = go value.kind value.items
  where
    go :
        (k : Kind) (items : List Text)
        → contains (apply (record { kind = k; items = items }) target) a
          ≡ expected k (contains target a) (contains items a)
    go add items =
        rw (add_items-eq target target items, contains-append)
          (ground (arith, contains-del_items target items a))
    go del items = contains-del_items items target a
    go set items = refl

abbrev pub Distinct : List Text → Type 0
Distinct [] = Unit
Distinct (x ∷ xs) = (contains xs x ≡ false) × Distinct xs

Distinct-append :
    (xs ys : List Text)
    → Distinct xs
    → Distinct ys
    → ((a : Text) → contains ys a ≡ true → contains xs a ≡ false)
    → Distinct (xs ++ ys)
unfolding contains
Distinct-append [] ys dx dy apart = dy
Distinct-append (x ∷ xs) ys dx dy apart = (
  rw contains-append (elim (Bool-cases (contains ys x)) [
    | inl h ↦ ground (arith, apart x h, str_eq_iff x x)
    | inr h ↦ ground (arith, h, dx.0)
  ]),
  Distinct-append xs ys dx.1 dy (λ a h. ground (arith, apart a h)),
)

Distinct-del_items :
    (given target : List Text) → Distinct target → Distinct (del_items given target)
unfolding del_items
Distinct-del_items given [] d = d
Distinct-del_items given (item ∷ target) d = elim (Bool-cases (contains given item)) [
  | inl h ↦ rw h (Distinct-del_items given target d.1)
  | inr h ↦ rw h (
    ground (arith, contains-del_items given target item, d.0),
    Distinct-del_items given target d.1,
  )
]

-- From a list and a flag without repetitions, every transform makes a list without repetitions.
pub Distinct-apply :
    (value : ArrayTransformValue) (target : List Text)
    → Distinct target
    → Distinct value.items
    → Distinct (apply value target)
unfolding apply
Distinct-apply value target dt di = go value.kind value.items di
  where
    go :
        (k : Kind) (items : List Text)
        → Distinct items
        → Distinct (apply (record { kind = k; items = items }) target)
    go add items d = rw (add_items-eq target target items) (
        Distinct-append target (del_items target items) dt (Distinct-del_items target items d)
          (λ a h. ground (arith, contains-del_items target items a)))
    go del items d = Distinct-del_items items target dt
    go set items d = d

del_items-eq-nil :
    (given target : List Text)
    → ((a : Text) → contains target a ≡ true → contains given a ≡ true)
    → del_items given target ≡ []
unfolding del_items contains
del_items-eq-nil given [] h = refl
del_items-eq-nil given (item ∷ target) h = ground (
  arith,
  h item,
  str_eq_iff item item,
  del_items-eq-nil given target (λ a k. h a (ground (arith, k))),
)

del_items-del_items :
    (given target : List Text) → del_items given (del_items given target) ≡ del_items given target
unfolding del_items
del_items-del_items given [] = refl
del_items-del_items given (item ∷ target) = ground (arith, del_items-del_items given target)

-- A transform applied twice does what it does once, for every list.
pub apply-apply :
    (value : ArrayTransformValue) (target : List Text)
    → apply value (apply value target) ≡ apply value target
unfolding apply
apply-apply value target = go value.kind value.items
  where
    go :
        (k : Kind) (items : List Text)
        → let v : ArrayTransformValue = record { kind = k; items = items } in
          apply v (apply v target) ≡ apply v target
    go add items =
        let once = add_items target target items in
        add_items-eq once once items ∙ (rw (del_items-eq-nil once items covered) (append-nil once))
      where
        covered :
            (a : Text) → contains items a ≡ true → contains (add_items target target items) a ≡ true
        covered a h =
            rw (add_items-eq target target items, contains-append, contains-del_items)
              (ground arith)
    go del items = del_items-del_items items target
    go set items = refl
