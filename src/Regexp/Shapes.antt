-- ===== src/Regexp/Shapes.antt =====
-- Two shapes of pattern that the program uses: anchored at both ends, and a repeated class.
use nsbox.Base.{
  [], ◌∷◌, ◌++◌, Bool, true, ◌&&◌, Text, is_empty, all, ◌≡◌, ◌≢◌, refl, sym, ◌∙◌, ap, subst,
  append-nil, ◌↔◌, arith,
}
use nsbox.Regexp.{
  Spans, Regexp, begin_text, end_text, class, cat, star, plus, in_class, match_string,
}
use nsbox.Regexp.Lang.{Lang, at_begin, at_end, char, seq, done, more, Lang-class, Lang-cat}
use nsbox.Regexp.Search.{Part, match_string_iff}

-- `^r$`
abbrev pub whole : Regexp → Regexp
whole r = cat begin_text (cat r end_text)

pub Lang-begin : {b e : Bool} {m : Text} → Lang begin_text b m e → (b ≡ true) × (m ≡ [])
Lang-begin (at_begin p) = (p, refl)

pub Lang-end : {b e : Bool} {m : Text} → Lang end_text b m e → (e ≡ true) × (m ≡ [])
Lang-end (at_end p) = (p, refl)

pub is_empty→≡ : (s : Text) → is_empty s ≡ true → s ≡ []
is_empty→≡ [] h = refl
is_empty→≡ (c ∷ s) h = ground arith

move :
    {r : Regexp} {b b' e e' : Bool} {m s : Text}
    → b ≡ b'
    → m ≡ s
    → e ≡ e'
    → Lang r b m e
    → Lang r b' s e'
move {r} {b'} {e} {m} {s} p q h l =
    subst (λ x. Lang r b' s x) h (subst (λ x. Lang r b' x e) q (subst (λ x. Lang r x m e) p l))

pub Part→whole : {r : Regexp} {s : Text} → Part (whole r) s → Lang r true s true
Part→whole {r} {s} (pre, m, post, p, l) =
    let (m₁, m₂, q, l₁, l₂) = Lang-cat l in
    let (b, n₁) = Lang-begin l₁ in
    let (m₃, m₄, q', l₃, l₄) = Lang-cat l₂ in
    let (e, n₄) = Lang-end l₄ in
    let before = is_empty→≡ pre b in
    let after = is_empty→≡ post e in
    let same : m₃ ≡ s = cc (
      p,
      q,
      q',
      ap (λ t. t ++ (m ++ post)) before,
      ap (λ t. m ++ t) after,
      append-nil m,
      ap (λ t. t ++ m₂) n₁,
      ap (λ t. m₃ ++ t) n₄,
      append-nil m₃,
    ) in
    move (ground (arith, b, ap is_empty n₁)) same (ground (arith, e, ap is_empty n₄)) l₃

pub whole→Part : {r : Regexp} {s : Text} → Lang r true s true → Part (whole r) s
whole→Part {s} l = (
  [],
  s,
  [],
  sym (append-nil s),
  seq [] s refl (at_begin refl) (seq s [] (sym (append-nil s)) l (at_end refl)),
)

-- An anchored pattern matches a text if the expression within matches all of it.
pub match-whole : (r : Regexp) (s : Text) → (match_string (whole r) s ≡ true) ↔ Lang r true s true
match-whole r s =
    let (to, from) = match_string_iff (whole r) s in
    (λ h. Part→whole (to h), λ l. from (whole→Part l))

-- Induction over the rounds of a star.
pub star_induction :
    {r : Regexp} {b e : Bool} {m : Text} (P : Text → Type 0)
    → P []
    → ((b : Bool) (m₁ m₂ : Text) → Lang r b m₁ (e && is_empty m₂) → P m₂ → P (m₁ ++ m₂))
    → Lang (star r) b m e
    → P m
star_induction P base step done = base
star_induction P base step (more {b} m₁ m₂ p k l) =
    subst P (sym p) (step b m₁ m₂ k (star_induction P base step l))

module _ (negated : Bool) (spans : Spans) where
  -- A repeated class matches the texts whose characters are all of the class.
  pub Lang-star_class :
      {b e : Bool} {m : Text}
      → Lang (star (class negated spans)) b m e
      → all (in_class negated spans) m ≡ true
  Lang-star_class {e} = star_induction (λ m. all (in_class negated spans) m ≡ true) refl step
    where
      step :
          (b : Bool) (m₁ m₂ : Text)
          → Lang (class negated spans) b m₁ (e && is_empty m₂)
          → all (in_class negated spans) m₂ ≡ true
          → all (in_class negated spans) (m₁ ++ m₂) ≡ true
      step b m₁ m₂ l h = let (c, p, q) = Lang-class l in rw p (rw q h)

  pub star_class-Lang :
      (m : Text) {b e : Bool}
      → all (in_class negated spans) m ≡ true
      → Lang (star (class negated spans)) b m e
  star_class-Lang [] h = done
  star_class-Lang (c ∷ m) h =
      more (c ∷ []) m refl (char c refl (ground arith)) (star_class-Lang m (ground arith))

  pub Lang-plus_class :
      {b e : Bool} {s : Text}
      → Lang (plus (class negated spans)) b s e
      → (s ≢ []) × (all (in_class negated spans) s ≡ true)
  Lang-plus_class {s} l =
      let (m₁, m₂, p, k₁, k₂) = Lang-cat l in
      let (c, q, h) = Lang-class k₁ in
      let p' : s ≡ c ∷ m₂ = p ∙ ap (λ t. t ++ m₂) q in
      (λ z. ground (arith, p', z), rw p' (rw h (Lang-star_class k₂)))

  pub plus_class-Lang :
      (s : Text) {b e : Bool}
      → s ≢ []
      → all (in_class negated spans) s ≡ true
      → Lang (plus (class negated spans)) b s e
  plus_class-Lang [] n h = absurd (n refl)
  plus_class-Lang (c ∷ m) n h =
      seq (c ∷ []) m refl (char c refl (ground arith)) (star_class-Lang m (ground arith))

  -- `^[...]+$`
  pub match-whole-plus_class :
      (s : Text)
      → (match_string (whole (plus (class negated spans))) s ≡ true)
        ↔ ((s ≢ []) × (all (in_class negated spans) s ≡ true))
  match-whole-plus_class s = (
    λ h. Lang-plus_class ((match-whole _ s).0 h),
    λ k. (match-whole _ s).1 (plus_class-Lang s k.0 k.1),
  )
