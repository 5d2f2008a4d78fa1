-- ===== src/FilePath/Apart.antt =====
-- Two paths of which none lies below the other, and what lies below them.
use nsbox.Base.{
  Text, [], ◌∷◌, ◌++◌, Bool, true, false, str_eq, has_prefix, ◌≡◌, ◌⊎◌, inl, inr, refl, sym, ap,
  ◌∙◌, subst, arith, append_assoc,
}
use mathlib.Core.Bool.{true≢false}
use nsbox.FilePath.Beside.{IsTail, below-IsTail}
use nsbox.Os.Calls.{below}

abbrev pub Apart : Text → Text → Type 0
Apart a b = (below a b ≡ false) × (below b a ≡ false)

pub Apart-sym : (a b : Text) → Apart a b → Apart b a
Apart-sym a b h = (h.1, h.0)

pub below-tail : (a r : Text) → IsTail r → below a (a ++ r) ≡ true
unfolding below str_eq has_prefix
below-tail [] r (inl e) = rw e refl
below-tail [] r (inr (s, e)) = rw e refl
below-tail (x ∷ a) r h = ground (arith, below-tail a r h)

IsTail-append : (r s : Text) → IsTail r → IsTail s → IsTail (r ++ s)
IsTail-append r s (inl e) h = rw e h
IsTail-append r s (inr (t, e)) h = inr (t ++ s, ap (λ l. l ++ s) e)

pub below_trans : (a b c : Text) → below a b ≡ true → below b c ≡ true → below a c ≡ true
below_trans a b c h k =
    let (r, e, t) = below-IsTail a b h in
    let (s, f, u) = below-IsTail b c k in
    subst (λ x. below a x ≡ true) (sym (f ∙ ap (λ l. l ++ s) e ∙ append_assoc a r s))
      (below-tail a (r ++ s) (IsTail-append r s t u))

-- Two paths with a common one below them lie one below the other.
tails_meet :
    (a b r s : Text)
    → a ++ r ≡ b ++ s
    → IsTail r
    → IsTail s
    → (below a b ≡ true) ⊎ (below b a ≡ true)
unfolding below str_eq has_prefix
tails_meet [] [] r s e t u = inl refl
tails_meet [] (y ∷ b) r s e (inl z) u = absurd (ground (arith, e, z))
tails_meet [] (y ∷ b) r s e (inr (q, z)) u = inl (ground (arith, e, z))
tails_meet (x ∷ a) [] r s e t (inl z) = absurd (ground (arith, e, z))
tails_meet (x ∷ a) [] r s e t (inr (q, z)) = inr (ground (arith, e, z))
tails_meet (x ∷ a) (y ∷ b) r s e t u = elim (tails_meet a b r s (ground (arith, e)) t u) [
  | inl h ↦ inl (ground (arith, e, h))
  | inr h ↦ inr (ground (arith, e, h))
]

not_true : (b : Bool) → ((b ≡ true) → ⊥) → b ≡ false
not_true true h = absurd (h refl)
not_true false h = refl

both : {b : Bool} → b ≡ true → b ≡ false → ⊥
both h k = true≢false (sym h ∙ k)

pub Apart-below : (a b p : Text) → Apart a b → below b p ≡ true → Apart a p
Apart-below a b p h inside = (
  not_true (below a p) (λ q.
      let (r, e, t) = below-IsTail b p inside in
      let (s, f, u) = below-IsTail a p q in
      elim (tails_meet b a r s (sym e ∙ f) t u) [ inl m ↦ both m h.1 | inr m ↦ both m h.0 ]),
  not_true (below p a) (λ q. both (below_trans b p a inside q) h.1),
)

-- What is apart from a path is away from every path below it.
pub Apart-inside : (a p q : Text) → Apart a p → below a q ≡ true → Apart q p
Apart-inside a p q h inside = Apart-sym p q (Apart-below p a q (Apart-sym a p h) inside)

pub Apart-str_eq : (a p : Text) → Apart a p → str_eq a p ≡ false
unfolding below
Apart-str_eq a p h = ground (arith, h.1)
