-- ===== src/Container/Validate/Patterns.antt =====
-- What the patterns of UpdateConfig accept, said without them.
use nsbox.Base.{
  ℕ, Text, [], ◌∷◌, ◌++◌, Bool, true, false, not, ◌&&◌, ◌||◌, ◌==◌, is_empty, ◌≡◌, ◌≢◌, refl, ◌∙◌,
  ap, arith, Bool-cases, inl, inr,
}
use nsbox.Regexp.{star, plus, in_class}
use nsbox.Regexp.Lang.{
  Lang, at_end, char, left, right, seq, done, more, Lang-class, Lang-cat, Lang-alt,
}
use nsbox.Regexp.Shapes.{Lang-end, is_empty→≡}
use nsbox.Container.Validate.{one, none_of, no_parent_round}

-- Two dots in a row stand somewhere in the text.
unfoldable pub has_dots : Text → Bool
has_dots [] = false
has_dots (c ∷ []) = false
has_dots (c ∷ d ∷ s) = (c == b'.' && d == b'.') || has_dots (d ∷ s)

pub in_one : (c d : ℕ) → in_class false ((c, c) ∷ []) d ≡ (d == c)
unfolding in_class
in_one c d = ground arith

pub in_none_of : (c d : ℕ) → in_class true ((c, c) ∷ []) d ≡ not (d == c)
unfolding in_class
in_none_of c d = ground arith

module _ {b e : Bool} {m : Text} where
  pub Lang-one : {c : ℕ} → Lang (one c) b m e → m ≡ c ∷ []
  Lang-one {c} l = let (d, p, h) = Lang-class l in p ∙ ap (λ x. x ∷ []) (ground (arith, in_one c d))

  pub Lang-none_of : {c : ℕ} → Lang (none_of c) b m e → (d : ℕ) × (m ≡ d ∷ []) × (d ≢ c)
  Lang-none_of {c} l = let (d, p, h) = Lang-class l in (d, p, ground (arith, in_none_of c d))

has_dots-cons : (c : ℕ) (s : Text) → c ≢ b'.' → has_dots s ≡ false → has_dots (c ∷ s) ≡ false
unfolding has_dots
has_dots-cons c [] n h = refl
has_dots-cons c (d ∷ s) n h = ground arith

has_dots_after_dot :
    (d : ℕ) (s : Text) → d ≢ b'.' → has_dots s ≡ false → has_dots (b'.' ∷ d ∷ s) ≡ false
unfolding has_dots
has_dots_after_dot d s n h = ground (arith, has_dots-cons d s n h)

-- A round of the last pattern in front of a text with no two dots in a row.
pub has_dots-round :
    (e b : Bool) (m₁ m₂ : Text)
    → Lang no_parent_round b m₁ (e && is_empty m₂)
    → has_dots m₂ ≡ false
    → has_dots (m₁ ++ m₂) ≡ false
has_dots-round e b m₁ m₂ l h = elim (Lang-alt l) [
  | inl two ↦
      let (k₁, k₂, p, l₁, l₂) = Lang-cat two in
      let (x, p₁, n₁) = Lang-none_of l₁ in
      let (y, p₂, n₂) = Lang-none_of l₂ in
      rw (p, p₁, p₂) (has_dots-cons x (y ∷ m₂) n₁ (has_dots-cons y m₂ n₂ h))
  | inr rest ↦ elim (Lang-alt rest) [
    | inl single ↦ let (x, p, n) = Lang-none_of single in rw p (has_dots-cons x m₂ n h)
    | inr dotted ↦
        let (k₁, k₂, p, l₁, l₂) = Lang-cat dotted in
        let p₁ = Lang-one l₁ in
        elim (Lang-alt l₂) [
          | inl next ↦
              let (y, p₂, n) = Lang-none_of next in rw (p, p₁, p₂) (has_dots_after_dot y m₂ n h)
          | inr last ↦
              let (q, p₂) = Lang-end last in
              rw (p, p₁, p₂, is_empty→≡ m₂ (ground (arith, q))) (unfold has_dots in refl)
        ]
  ]
]

pub has_dots-tail : (c : ℕ) (s : Text) → has_dots (c ∷ s) ≡ false → has_dots s ≡ false
unfolding has_dots
has_dots-tail c [] h = refl
has_dots-tail c (d ∷ s) h = ground arith

-- The rounds of the last pattern can be chosen on every text with no two dots in a row.
pub no_parent-rounds :
    (s : Text) (b : Bool) → has_dots s ≡ false → Lang (star no_parent_round) b s true
unfolding has_dots in_class
no_parent-rounds [] b h = done
no_parent-rounds (c ∷ []) b h = elim (Bool-cases (c == b'.')) [
  | inl p ↦
      more (c ∷ []) [] refl
        (right (right (seq (c ∷ []) [] refl (char c refl (ground arith)) (right (at_end refl)))))
        done
  | inr p ↦ more (c ∷ []) [] refl (right (left (char c refl (ground arith)))) done
]
no_parent-rounds (c ∷ d ∷ s) b h = elim (Bool-cases (c == b'.')) [
  | inl p ↦
      more (c ∷ d ∷ []) s refl
        (right (
          right (
            seq (c ∷ []) (d ∷ []) refl (char c refl (ground arith))
              (left (char d refl (ground arith))))))
        (no_parent-rounds s (b && false) (has_dots-tail d s (ground arith)))
  | inr p ↦
      more (c ∷ []) (d ∷ s) refl (right (left (char c refl (ground arith))))
        (no_parent-rounds (d ∷ s) (b && false) (ground arith))
]

pub star→plus :
    (s : Text)
    → s ≢ []
    → Lang (star no_parent_round) true s true
    → Lang (plus no_parent_round) true s true
star→plus s n done = absurd (n refl)
star→plus s n (more m₁ m₂ p k l) = seq m₁ m₂ p k l
