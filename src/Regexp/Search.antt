-- ===== src/Regexp/Search.antt =====
-- What it means for a part of a text to match, and that the matcher decides it.
use nsbox.Base.{
  ℕ, [], ◌∷◌, ◌++◌, Bool, true, false, Text, is_empty, ◌≡◌, refl, sym, ap, subst, ◌↔◌, arith, inl,
  inr, Bool-cases,
}
use nsbox.Regexp.{Regexp, nullable, derive, match_prefix, match_later, match_string}
use nsbox.Regexp.Lang.{
  Lang, nullable→Lang, append-eq-nil, Lang→nullable, derive→Lang, cons-injective, Lang→derive,
}

-- Some part of the text that begins it matches.
abbrev pub Prefix : Bool → Regexp → Text → Type 0
Prefix b r s = (m : Text) × (post : Text) × (s ≡ m ++ post) × Lang r b m (is_empty post)

match_prefix→Prefix : (s : Text) (b : Bool) (r : Regexp) → match_prefix b r s ≡ true → Prefix b r s
unfolding match_prefix
match_prefix→Prefix [] b r h = ([], [], refl, nullable→Lang r b true h)
match_prefix→Prefix (c ∷ s) b r h = elim (Bool-cases (nullable b false r)) [
  | inl n ↦ ([], c ∷ s, refl, nullable→Lang r b false n)
  | inr n ↦
      let (m, post, p, l) = match_prefix→Prefix s false (derive b c r) (ground arith) in
      (c ∷ m, post, ap (λ t. c ∷ t) p, derive→Lang r c m l)
]

Prefix→match_prefix : (s : Text) (b : Bool) (r : Regexp) → Prefix b r s → match_prefix b r s ≡ true
unfolding match_prefix
Prefix→match_prefix [] b r (m, post, p, l) =
    let (e₁, e₂) = append-eq-nil m post p in
    Lang→nullable (subst (λ t. Lang r b m (is_empty t)) e₂ l) (sym e₁)
Prefix→match_prefix (c ∷ s) b r ([], [], p, l) = ground arith
Prefix→match_prefix (c ∷ s) b r ([], x ∷ post, p, l) = rw (Lang→nullable l refl) refl
Prefix→match_prefix (c ∷ s) b r (x ∷ m, post, p, l) =
    let (e₁, e₂) = cons-injective p in
    ground (
      arith,
      Prefix→match_prefix s false (derive b c r)
          (m, post, e₂, Lang→derive l c m (ap (λ t. t ∷ m) (sym e₁))),
    )

-- Some part of the text matches.
abbrev pub Part : Regexp → Text → Type 0
Part r s =
    (pre : Text) × (m : Text) × (post : Text) × (s ≡ pre ++ (m ++ post))
    × Lang r (is_empty pre) m (is_empty post)

match_later→Part :
    (s pre : Text) (r : Regexp)
    → match_later r s ≡ true
    → (x : ℕ) × (pre : Text) × (m : Text) × (post : Text) × (s ≡ x ∷ (pre ++ (m ++ post)))
      × Lang r false m (is_empty post)
unfolding match_later
match_later→Part [] pre r h = ground arith
match_later→Part (c ∷ s) pre r h = elim (Bool-cases (match_prefix false r s)) [
  | inl n ↦
      let (m, post, p, l) = match_prefix→Prefix s false r n in
      (c, [], m, post, ap (λ t. c ∷ t) p, l)
  | inr n ↦
      let (x, pre, m, post, p, l) = match_later→Part s pre r (ground arith) in
      (c, x ∷ pre, m, post, ap (λ t. c ∷ t) p, l)
]

Part→match_later :
    (s pre m post : Text) (x : ℕ) (r : Regexp)
    → s ≡ x ∷ (pre ++ (m ++ post))
    → Lang r false m (is_empty post)
    → match_later r s ≡ true
unfolding match_later
Part→match_later [] pre m post x r p l = ground arith
Part→match_later (c ∷ s) [] m post x r p l =
    rw (Prefix→match_prefix s false r (m, post, (cons-injective p).1, l)) refl
Part→match_later (c ∷ s) (y ∷ pre) m post x r p l =
    ground (arith, Part→match_later s pre m post y r (cons-injective p).1 l)

-- MatchString answers true exactly on the texts of which some part matches.
pub match_string_iff : (r : Regexp) (s : Text) → (match_string r s ≡ true) ↔ Part r s
unfolding match_string
match_string_iff r s = (
  λ h. elim (Bool-cases (match_prefix true r s)) [
    | inl n ↦ let (m, post, p, l) = match_prefix→Prefix s true r n in ([], m, post, p, l)
    | inr n ↦
        let (x, pre, m, post, p, l) = match_later→Part s [] r (ground arith) in
        (x ∷ pre, m, post, p, l)
  ],
  back,
)
  where
    back : Part r s → match_string r s ≡ true
    back ([], m, post, p, l) = rw (Prefix→match_prefix s true r (m, post, p, l)) refl
    back (x ∷ pre, m, post, p, l) = ground (arith, Part→match_later s pre m post x r p l)
