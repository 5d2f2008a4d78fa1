-- ===== src/Regexp/Lang.antt =====
-- What it means for a text to match, and that derivatives keep it.
use nsbox.Base.{
  ℕ, [], ◌∷◌, ◌++◌, Bool, true, false, ◌&&◌, Text, is_empty, ◌≡◌, refl, sym, ◌∙◌, ap, subst, arith,
  ◌⊎◌, inl, inr, Bool-cases,
}
use nsbox.Regexp.{
  Spans, Regexp, fails, empty, begin_text, end_text, class, alt, cat, star, in_class, nullable,
  only_if, derive,
}

-- `Lang r b m e`: the text `m` matches `r`, where `b` says that `m` begins its text and `e` that it
-- ends it.
pub data Lang : Regexp → Bool → Text → Bool → Type 0 where
  nothing : {b e : Bool} → Lang empty b [] e
  at_begin : {b e : Bool} → b ≡ true → Lang begin_text b [] e
  at_end : {b e : Bool} → e ≡ true → Lang end_text b [] e
  char :
      {negated : Bool} {spans : Spans} {b e : Bool} {m : Text} (c : ℕ)
      → m ≡ c ∷ []
      → in_class negated spans c ≡ true
      → Lang (class negated spans) b m e
  left : {r s : Regexp} {b e : Bool} {m : Text} → Lang r b m e → Lang (alt r s) b m e
  right : {r s : Regexp} {b e : Bool} {m : Text} → Lang s b m e → Lang (alt r s) b m e
  seq :
      {r s : Regexp} {b e : Bool} {m : Text} (m₁ m₂ : Text)
      → m ≡ m₁ ++ m₂
      → Lang r b m₁ (e && is_empty m₂)
      → Lang s (b && is_empty m₁) m₂ e
      → Lang (cat r s) b m e
  done : {r : Regexp} {b e : Bool} → Lang (star r) b [] e
  more :
      {r : Regexp} {b e : Bool} {m : Text} (m₁ m₂ : Text)
      → m ≡ m₁ ++ m₂
      → Lang r b m₁ (e && is_empty m₂)
      → Lang (star r) (b && is_empty m₁) m₂ e
      → Lang (star r) b m e

and-true : (b : Bool) → (b && true) ≡ b
and-true b = ground arith

and-false : (b : Bool) → (b && false) ≡ false
and-false b = ground arith

pub nullable→Lang : (r : Regexp) (b e : Bool) → nullable b e r ≡ true → Lang r b [] e
unfolding nullable
nullable→Lang fails b e h = ground arith
nullable→Lang empty b e h = nothing
nullable→Lang begin_text b e h = at_begin h
nullable→Lang end_text b e h = at_end h
nullable→Lang (class negated spans) b e h = ground arith
nullable→Lang (alt r s) b e h = elim (Bool-cases (nullable b e r)) [
  | inl p ↦ left (nullable→Lang r b e p)
  | inr p ↦ right (nullable→Lang s b e (ground arith))
]
nullable→Lang (cat r s) b e h =
    seq [] [] refl (rw and-true (nullable→Lang r b e (ground arith)))
      (rw and-true (nullable→Lang s b e (ground arith)))
nullable→Lang (star r) b e h = done

pub append-eq-nil : (m₁ m₂ : Text) → [] ≡ m₁ ++ m₂ → (m₁ ≡ []) × (m₂ ≡ [])
append-eq-nil [] [] h = (refl, refl)
append-eq-nil [] (c ∷ m₂) h = ground arith
append-eq-nil (c ∷ m₁) m₂ h = ground arith

pub Lang→nullable :
    {r : Regexp} {b e : Bool} {m : Text} → Lang r b m e → [] ≡ m → nullable b e r ≡ true
unfolding nullable
Lang→nullable nothing h = refl
Lang→nullable (at_begin p) h = p
Lang→nullable (at_end p) h = p
Lang→nullable (char c p q) h = ground arith
Lang→nullable (left l) h = ground (arith, Lang→nullable l h)
Lang→nullable (right l) h = ground (arith, Lang→nullable l h)
Lang→nullable (seq m₁ m₂ p k l) h =
    let (p₁, p₂) = append-eq-nil m₁ m₂ (h ∙ p) in
    ground (arith, p₁, p₂, Lang→nullable k (sym p₁), Lang→nullable l (sym p₂))
Lang→nullable done h = refl
Lang→nullable (more m₁ m₂ p k l) h = refl

pub Lang-empty : {b e : Bool} {m : Text} → Lang empty b m e → m ≡ []
Lang-empty nothing = refl

module _ {b e : Bool} {m : Text} where
  Lang-fails : Lang fails b m e → ⊥
  Lang-fails l = elim l [ ]

  Lang-only_if : (t : Bool) {r : Regexp} → Lang (only_if t r) b m e → (t ≡ true) × Lang r b m e
  Lang-only_if true l = (refl, l)
  Lang-only_if false l = absurd (Lang-fails l)

  pub Lang-alt : {r s : Regexp} → Lang (alt r s) b m e → Lang r b m e ⊎ Lang s b m e
  Lang-alt (left l) = inl l
  Lang-alt (right l) = inr l

  pub Lang-class :
      {negated : Bool} {spans : Spans}
      → Lang (class negated spans) b m e
      → (c : ℕ) × (m ≡ c ∷ []) × (in_class negated spans c ≡ true)
  Lang-class (char c p h) = (c, p, h)

  pub Lang-cat :
      {r s : Regexp}
      → Lang (cat r s) b m e
      → (m₁ : Text) × (m₂ : Text) × (m ≡ m₁ ++ m₂)
        × Lang r b m₁ (e && is_empty m₂)
        × Lang s (b && is_empty m₁) m₂ e
  Lang-cat (seq m₁ m₂ p k l) = (m₁, m₂, p, k, l)

pub derive→Lang :
    (r : Regexp) {b e : Bool} (c : ℕ) (m : Text)
    → Lang (derive b c r) false m e
    → Lang r b (c ∷ m) e
unfolding derive
derive→Lang fails c m l = absurd (Lang-fails l)
derive→Lang empty c m l = absurd (Lang-fails l)
derive→Lang begin_text c m l = absurd (Lang-fails l)
derive→Lang end_text c m l = absurd (Lang-fails l)
derive→Lang (class negated spans) c m l =
    let (h, k) = Lang-only_if (in_class negated spans c) l in
    char c (ap (λ t. c ∷ t) (Lang-empty k)) h
derive→Lang (alt r s) c m l = elim (Lang-alt l) [
  | inl k ↦ left (derive→Lang r c m k)
  | inr k ↦ right (derive→Lang s c m k)
]
derive→Lang (cat r s) {b} {e} c m l = elim (Lang-alt l) [
  | inl k ↦
      let (m₁, m₂, p, k₁, k₂) = Lang-cat k in
      seq (c ∷ m₁) m₂ (ap (λ t. c ∷ t) p) (derive→Lang r c m₁ k₁) (rw and-false k₂)
  | inr k ↦
      let (h, k₂) = Lang-only_if (nullable b false r) k in
      seq [] (c ∷ m) refl (rw and-false (nullable→Lang r b false h))
        (rw and-true (derive→Lang s c m k₂))
]
derive→Lang (star r) {b} {e} c m l =
    let (m₁, m₂, p, k₁, k₂) = Lang-cat l in
    more (c ∷ m₁) m₂ (ap (λ t. c ∷ t) p) (derive→Lang r c m₁ k₁) (rw and-false k₂)

only_if-Lang :
    (t : Bool) {r : Regexp} {b e : Bool} {m : Text}
    → t ≡ true
    → Lang r b m e
    → Lang (only_if t r) b m e
only_if-Lang true h l = l
only_if-Lang false h l = ground arith

empty-Lang : {b e : Bool} {m : Text} → m ≡ [] → Lang empty b m e
empty-Lang p = rw p nothing

pub cons-injective : {x c : ℕ} {s t : Text} → ◌≡◌ {A = Text} (x ∷ s) (c ∷ t) → (x ≡ c) × (s ≡ t)
cons-injective h = ground arith

first-nullable :
    {r : Regexp} {b : Bool} (e : Bool) (c : ℕ) (m₂ m : Text)
    → m₂ ≡ c ∷ m
    → Lang r b [] (e && is_empty m₂)
    → nullable b false r ≡ true
first-nullable {r} {b} e c m₂ m p k =
    let k' : Lang r b [] (e && is_empty (c ∷ m)) = subst (λ t. Lang r b [] (e && is_empty t)) p k in
    Lang→nullable (rw and-false at k') refl

pub Lang→derive :
    {r : Regexp} {b e : Bool} {m' : Text} (l : Lang r b m' e) (c : ℕ) (m : Text)
    → m' ≡ c ∷ m
    → Lang (derive b c r) false m e
unfolding derive
Lang→derive nothing c m h = ground arith
Lang→derive (at_begin p) c m h = ground arith
Lang→derive (at_end p) c m h = ground arith
Lang→derive (char {negated} {spans} x p q) c m h =
    let (e₁, e₂) = cons-injective (sym p ∙ h) in
    only_if-Lang (in_class negated spans c) (rw (← e₁) q) (empty-Lang (sym e₂))
Lang→derive (left l) c m h = left (Lang→derive l c m h)
Lang→derive (right l) c m h = right (Lang→derive l c m h)
Lang→derive (seq {e} [] m₂ p k l) c m h = right (
    only_if-Lang _ (first-nullable e c m₂ m (sym p ∙ h) k)
      (rw and-true at (Lang→derive l c m (sym p ∙ h))))
Lang→derive (seq (x ∷ m₁) m₂ p k l) c m h =
    let (e₁, e₂) = cons-injective (sym p ∙ h) in
    left (seq m₁ m₂ (sym e₂) (Lang→derive k c m₁ (ap (λ t. t ∷ m₁) e₁)) (rw and-false at l))
Lang→derive done c m h = ground arith
Lang→derive (more {r} {b} {e} [] m₂ p k l) c m h =
    subst (λ t. Lang (derive t c (star r)) false m e) (and-true b) (Lang→derive l c m (sym p ∙ h))
Lang→derive (more (x ∷ m₁) m₂ p k l) c m h =
    let (e₁, e₂) = cons-injective (sym p ∙ h) in
    seq m₁ m₂ (sym e₂) (Lang→derive k c m₁ (ap (λ t. t ∷ m₁) e₁)) (rw and-false at l)
