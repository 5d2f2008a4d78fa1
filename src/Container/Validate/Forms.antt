-- ===== src/Container/Validate/Forms.antt =====
-- Each pattern of UpdateConfig against a plain description of the texts that it accepts.
use mathlib.Core.Path.{fun_ext}
use nsbox.Base.{
  ℕ, Text, [], ◌∷◌, ◌++◌, append-nil, Bool, true, false, not, ◌==◌, all, all-append, has_prefix,
  ◌≡◌, ◌≢◌, ◌↔◌, refl, sym, ◌∙◌, ap, arith, inl, inr,
}
use nsbox.Regexp.{empty, cat, alt, plus, in_class, nullable, match_string}
use nsbox.Regexp.Lang.{
  Lang, at_begin, char, right, seq, nothing, Lang-cat, Lang-alt, Lang-empty, Lang→nullable,
  append-eq-nil,
}
use nsbox.Regexp.Search.{Part, match_string_iff}
use nsbox.Regexp.Shapes.{
  match-whole, star_induction, Lang-begin, is_empty→≡, Lang-plus_class, plus_class-Lang,
}
use nsbox.FilePath.{is_abs, slash}
use nsbox.Container.Validate.{
  one, any_char, bind_mount_regexp, relative_regexp, no_parent_round, no_parent_regexp,
}
use nsbox.Container.Validate.Patterns.{
  has_dots, has_dots-round, no_parent-rounds, star→plus, Lang-one, Lang-none_of, in_none_of,
}

round-ne-nil : {b e : Bool} {m : Text} → Lang no_parent_round b m e → m ≢ []
unfolding nullable
round-ne-nil l h = ground (arith, Lang→nullable l (sym h))

-- Private directories: the second pattern accepts what is not empty and has no two dots in a row.
pub no_parent_iff :
    (s : Text) → (match_string no_parent_regexp s ≡ true) ↔ ((s ≢ []) × (has_dots s ≡ false))
no_parent_iff s = (
  λ h. to ((match-whole _ s).0 h),
  λ k. (match-whole _ s).1 (star→plus s k.0 (no_parent-rounds s true k.1)),
)
  where
    to : Lang (plus no_parent_round) true s true → (s ≢ []) × (has_dots s ≡ false)
    to l =
        let (m₁, m₂, p, k₁, k₂) = Lang-cat l in
        (
          λ z. round-ne-nil k₁ (append-eq-nil m₁ m₂ (sym z ∙ p)).0,
          rw p (
              has_dots-round true true m₁ m₂ k₁ (
                star_induction {e = true} (λ m. has_dots m ≡ false) (unfold has_dots in refl)
                  (has_dots-round true) k₂)),
        )

-- Private directories: the first pattern accepts what is not empty and not absolute.
pub relative_iff :
    (s : Text) → (match_string relative_regexp s ≡ true) ↔ ((s ≢ []) × (is_abs s ≡ false))
unfolding is_abs has_prefix
relative_iff s = (
  λ h. to s ((match_string_iff relative_regexp s).0 h),
  λ k. (match_string_iff relative_regexp s).1 (from s k.0 k.1),
)
  where
    to : (s : Text) → Part relative_regexp s → (s ≢ []) × (is_abs s ≡ false)
    to s (pre, m, post, p, l) =
        let (m₁, m₂, q, l₁, l₂) = Lang-cat l in
        let (b, n₁) = Lang-begin l₁ in
        let (x, n₂, ne) = Lang-none_of l₂ in
        let e : s ≡ x ∷ post = cc (
          p,
          q,
          n₁,
          n₂,
          is_empty→≡ pre b,
          ap (λ t. t ++ (m ++ post)) (is_empty→≡ pre b),
          ap (λ t. t ++ post) q,
          ap (λ t. (t ++ m₂) ++ post) n₁,
          ap (λ t. t ++ post) n₂,
        ) in
        (λ z. ground (arith, e, z), rw e (ground arith))

    from : (s : Text) → s ≢ [] → is_abs s ≡ false → Part relative_regexp s
    from [] n h = absurd (n refl)
    from (c ∷ s) n h = (
      [],
      c ∷ [],
      s,
      refl,
      seq [] (c ∷ []) refl (at_begin refl) (char c refl (ground (arith, in_none_of slash c))),
    )

abbrev line_char : ℕ → Bool
line_char = in_class true ((10, 10) ∷ [])

-- Not the line break.
unfoldable pub in_line : ℕ → Bool
in_line c = not (c == 10)

line_char-in_line : line_char ≡ in_line
unfolding in_line
line_char-in_line = fun_ext (in_none_of 10)

bind_mount_tail :
    {b : Bool} {m : Text}
    → Lang (alt (cat (one b':') (plus any_char)) empty) b m true
    → all line_char m ≡ true
bind_mount_tail l = elim (Lang-alt l) [
  | inl colon ↦
      let (c, r, q, j₁, j₂) = Lang-cat colon in
      let (_, h) = Lang-plus_class true ((10, 10) ∷ []) j₂ in
      rw (q, Lang-one j₁) (rw (in_none_of 10 b':') h)
  | inr end ↦ rw (Lang-empty end) refl
]

-- Bind mounts: the pattern accepts what is not empty and holds no line break, with or without `:`.
pub bind_mount_iff :
    (s : Text) → (match_string bind_mount_regexp s ≡ true) ↔ ((s ≢ []) × (all in_line s ≡ true))
bind_mount_iff s =
    rw (← line_char-in_line)
      (λ h. to ((match-whole _ s).0 h), λ k. (match-whole _ s).1 (from k.0 k.1))
  where
    to :
        Lang (cat (plus any_char) (alt (cat (one b':') (plus any_char)) empty)) true s true
        → (s ≢ []) × (all line_char s ≡ true)
    to l =
        let (m₁, m₂, p, k₁, k₂) = Lang-cat l in
        let (n, h) = Lang-plus_class true ((10, 10) ∷ []) k₁ in
        (λ z. n (append-eq-nil m₁ m₂ (sym z ∙ p)).0, rw (p, all-append, h) (bind_mount_tail k₂))

    from :
        s ≢ []
        → all line_char s ≡ true
        → Lang (cat (plus any_char) (alt (cat (one b':') (plus any_char)) empty)) true s true
    from n h =
        seq s [] (sym (append-nil s)) (plus_class-Lang true ((10, 10) ∷ []) s n h) (right nothing)
