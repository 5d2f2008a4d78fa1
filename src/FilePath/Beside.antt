-- ===== src/FilePath/Beside.antt =====
-- What lies below a path does not lie below a path beside it, whose name goes on with another character.
use nsbox.Base.{
  ℕ, Text, [], ◌∷◌, ◌++◌, codes, true, false, ◌||◌, ◌==◌, str_eq, str_eq_iff, has_prefix, ◌≡◌, ◌⊎◌,
  inl, inr, refl, sym, ◌∙◌, arith, Bool-cases, append_assoc, append-nil,
}
use nsbox.FilePath.{slash}
use nsbox.Os.Calls.{below}

pub has_prefix-append : (a s t : Text) → has_prefix (a ++ s) (a ++ t) ≡ has_prefix s t
unfolding has_prefix
has_prefix-append [] s t = refl
has_prefix-append (x ∷ a) s t = ground (arith, has_prefix-append a s t)

pub str_eq-append : (a s t : Text) → str_eq (a ++ s) (a ++ t) ≡ str_eq s t
unfolding str_eq
str_eq-append [] s t = refl
str_eq-append (x ∷ a) s t = ground (arith, str_eq-append a s t)

pub below-append :
    (a s t : Text) → below (a ++ s) (a ++ t) ≡ (str_eq t s || has_prefix t (s ++ codes "/"))
unfolding below
below-append a s t = rw (str_eq-append, append_assoc a s (codes "/"), has_prefix-append) refl

pub prefix-rest : (p a : Text) → has_prefix p a ≡ true → (r : Text) × (p ≡ a ++ r)
unfolding has_prefix
prefix-rest p [] h = (p, refl)
prefix-rest [] (y ∷ a) h = ground (arith, h)
prefix-rest (x ∷ p) (y ∷ a) h =
    let (r, e) = prefix-rest p a (ground (arith, h)) in (r, ground (arith, e))

-- The path itself, or a slash and more.
abbrev pub IsTail : Text → Type 0
IsTail r = (r ≡ []) ⊎ ((s : Text) × (r ≡ slash ∷ s))

pub below-IsTail : (a p : Text) → below a p ≡ true → (r : Text) × (p ≡ a ++ r) × IsTail r
unfolding below
below-IsTail a p h = elim (Bool-cases (str_eq p a)) [
  | inl e ↦ ([], (str_eq_iff p a).0 e ∙ sym (append-nil a), inl refl)
  | inr e ↦
      let (s, q) = prefix-rest p (a ++ codes "/") (ground (arith, h, e)) in
      (slash ∷ s, q ∙ append_assoc a (codes "/") s, inr (s, refl))
]

module _ (a p : Text) (c : ℕ) (suffix : Text) (inside : below a p ≡ true)
    (other : (c == slash) ≡ false) where
  pub beside_from : below (a ++ (c ∷ suffix)) p ≡ false
  unfolding str_eq has_prefix
  beside_from =
      let (r, e, tail) = below-IsTail a p inside in
      rw (e, below-append)
        (elim tail [ inl z ↦ rw z refl | inr (s, z) ↦ rw z (ground (arith, other)) ])

  pub beside_to : below p (a ++ (c ∷ suffix)) ≡ false
  unfolding str_eq has_prefix
  beside_to =
      let (r, e, tail) = below-IsTail a p inside in
      rw (e, below-append)
        (elim tail [
          | inl z ↦ rw z (ground (arith, other))
          | inr (s, z) ↦ rw z (ground (arith, other))
        ])

  pub beside_eq : str_eq (a ++ (c ∷ suffix)) p ≡ false
  unfolding str_eq has_prefix
  beside_eq =
      let (r, e, tail) = below-IsTail a p inside in
      rw (e, str_eq-append)
        (elim tail [ inl z ↦ rw z refl | inr (s, z) ↦ rw z (ground (arith, other)) ])
