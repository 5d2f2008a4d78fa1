-- ===== src/Container/Validate/Syscalls.antt =====
-- The pattern of the system call filters: what it accepts is decided by the last character.
use mathlib.Core.Path.{fun_ext}
use nsbox.Base.{
  ℕ, Text, [], ◌∷◌, ◌++◌, append-nil, Bool, true, false, not, ◌&&◌, ◌||◌, ◌==◌, leb, all, is_empty,
  ◌≡◌, ◌≢◌, ◌↔◌, refl, sym, ◌∙◌, ap, subst, arith, Bool-cases, inl, inr,
}
use nsbox.Regexp.{Regexp, class, cat, plus, end_text, in_class, match_string}
use nsbox.Regexp.Lang.{Lang, at_end, char, left, right, seq, Lang-cat, Lang-alt}
use nsbox.Regexp.Search.{Part, match_string_iff}
use nsbox.Regexp.Shapes.{
  Lang-end, is_empty→≡, Lang-plus_class, plus_class-Lang, whole→Part, Part→whole,
}
use nsbox.Container.Validate.{one, word_spans, group_spans, syscall_filter_regexp}
use nsbox.Container.Validate.Patterns.{Lang-one, in_one}

-- a-z, 0-9 and the underscore
unfoldable pub is_word : ℕ → Bool
is_word c = (leb b'a' c && leb c b'z') || (leb b'0' c && leb c b'9') || c == b'_'

in_class-word : in_class false word_spans ≡ is_word
in_class-word = fun_ext step
  where
    step : (c : ℕ) → in_class false word_spans c ≡ is_word c
    step c = unfold in_class is_word in ground arith

unfoldable pub ends_in_word : Text → Bool
ends_in_word [] = false
ends_in_word (c ∷ []) = is_word c
ends_in_word (c ∷ d ∷ s) = ends_in_word (d ∷ s)

-- `@` and a name of lower-case letters and dashes
unfoldable pub is_group : Text → Bool
is_group [] = false
is_group (c ∷ s) =
    c == b'@' && not (is_empty s) && all (λ d. (leb b'a' d && leb d b'z') || d == b'-') s

in_class-group : in_class false group_spans ≡ (λ d. (leb b'a' d && leb d b'z') || d == b'-')
in_class-group = fun_ext step
  where
    step : (c : ℕ) → in_class false group_spans c ≡ ((leb b'a' c && leb c b'z') || c == b'-')
    step c = unfold in_class in ground arith

ends_in_word-append : (pre s : Text) → s ≢ [] → ends_in_word (pre ++ s) ≡ ends_in_word s
unfolding ends_in_word
ends_in_word-append [] s n = refl
ends_in_word-append (c ∷ []) [] n = absurd (n refl)
ends_in_word-append (c ∷ []) (d ∷ s) n = refl
ends_in_word-append (c ∷ d ∷ pre) s n = ends_in_word-append (d ∷ pre) s n

ends_in_word-all : (s : Text) → s ≢ [] → all is_word s ≡ true → ends_in_word s ≡ true
unfolding ends_in_word
ends_in_word-all [] n h = absurd (n refl)
ends_in_word-all (c ∷ []) n h = ground arith
ends_in_word-all (c ∷ d ∷ s) n h = ends_in_word-all (d ∷ s) (λ z. ground (arith, z)) (ground arith)

last_word :
    (s : Text)
    → ends_in_word s ≡ true
    → (pre : Text) × (c : ℕ) × (s ≡ pre ++ c ∷ []) × (is_word c ≡ true)
unfolding ends_in_word
last_word [] h = ground arith
last_word (c ∷ []) h = ([], c, refl, h)
last_word (c ∷ d ∷ s) h =
    let (pre, x, p, w) = last_word (d ∷ s) h in (c ∷ pre, x, ap (λ t. c ∷ t) p, w)

abbrev words_at_end : Regexp
words_at_end = cat (plus (class false word_spans)) end_text

abbrev whole_group : Regexp
whole_group = cat (one b'@') (plus (class false group_spans))

Part→ends_in_word : (s : Text) → Part words_at_end s → ends_in_word s ≡ true
Part→ends_in_word s (pre, m, post, p, l) =
    let (m₁, m₂, q, l₁, l₂) = Lang-cat l in
    let (e, n₂) = Lang-end l₂ in
    let (n, h) = Lang-plus_class false word_spans l₁ in
    let post_empty = is_empty→≡ post e in
    let here : s ≡ pre ++ m₁ = cc (
      p,
      q,
      ap (λ t. pre ++ (m ++ t)) post_empty,
      append-nil m,
      ap (λ t. m₁ ++ t) n₂,
      append-nil m₁,
    ) in
    rw (here, ends_in_word-append pre m₁ n) (ends_in_word-all m₁ n (rw in_class-word at h))

ends_in_word→Part : (s : Text) → ends_in_word s ≡ true → Part words_at_end s
ends_in_word→Part s h =
    let (pre, c, p, w) = last_word s h in
    (
      pre,
      c ∷ [],
      [],
      p,
      seq (c ∷ []) [] refl
          (plus_class-Lang false word_spans (c ∷ []) (λ z. ground (arith, z))
            (rw in_class-word (rw w refl)))
          (at_end refl),
    )

Lang→is_group : (s : Text) → Lang whole_group true s true → is_group s ≡ true
unfolding is_group
Lang→is_group s l =
    let (m₁, m₂, p, l₁, l₂) = Lang-cat l in
    let (n, h) = Lang-plus_class false group_spans l₂ in
    let e : s ≡ b'@' ∷ m₂ = p ∙ ap (λ t. t ++ m₂) (Lang-one l₁) in
    rw (e, ← in_class-group, h) (go m₂ n)
  where
    go : (t : Text) → t ≢ [] → (not (is_empty t) && true) ≡ true
    go [] n = absurd (n refl)
    go (c ∷ t) n = refl

is_group→Lang : (s : Text) → is_group s ≡ true → Lang whole_group true s true
unfolding is_group
is_group→Lang [] h = ground arith
is_group→Lang (c ∷ []) h = ground arith
is_group→Lang (c ∷ d ∷ s) h = seq (c ∷ []) (d ∷ s) refl (char c refl (rw in_one (ground arith))) (
    plus_class-Lang false group_spans (d ∷ s) (λ z. ground (arith, z))
      (subst (λ p. all p (d ∷ s) ≡ true) (sym in_class-group) (ground arith)))

-- A filter is accepted exactly if it is `@` and a group's name, or if its last character is a lower
-- case letter, a digit or an underscore, whatever stands before that.
pub syscall_filter_iff :
    (s : Text)
    → (match_string syscall_filter_regexp s ≡ true) ↔ ((is_group s || ends_in_word s) ≡ true)
syscall_filter_iff s =
    let (to, from) = match_string_iff syscall_filter_regexp s in
    (λ h. there (to h), λ h. from (back h))
  where
    there : Part syscall_filter_regexp s → (is_group s || ends_in_word s) ≡ true
    there (pre, m, post, p, l) = elim (Lang-alt l) [
      | inl k ↦ rw (Lang→is_group s (Part→whole (pre, m, post, p, k))) refl
      | inr k ↦ ground (arith, Part→ends_in_word s (pre, m, post, p, k))
    ]

    back : (is_group s || ends_in_word s) ≡ true → Part syscall_filter_regexp s
    back h = elim (Bool-cases (is_group s)) [
      | inl g ↦
          let (pre, m, post, p, k) = whole→Part (is_group→Lang s g) in (pre, m, post, p, left k)
      | inr g ↦
          let (pre, m, post, p, k) = ends_in_word→Part s (ground (arith, g)) in
          (pre, m, post, p, right k)
    ]
