-- ===== src/FilePath/Inside.antt =====
-- Joining a relative path to an absolute one leads below it.
use nsbox.Base.{
  Text, List, [], ◌∷◌, ◌++◌, codes, true, false, ◌||◌, str_eq, str_eq_iff, has_prefix, join, split,
  split-Lacks, split-All-Lacks, split-join, split-append_any, Lacks, All, is_empty, ◌≡◌, inl, inr,
  refl, sym, ap, ◌∙◌, subst, arith, Bool-cases, append_assoc, append-nil,
}
use mathlib.Core.List.{reverse, foldl, reverse-append, reverse-reverse, foldl-append}
use nsbox.FilePath.{slash, join_path, absolute_text, clean_step, clean, clean_parts}
use nsbox.FilePath.Joined.{
  IsPlain, NoParent, kept, join_path-below, join_two, IsPlain-NoParent, IsPlain-Lacks,
  reverse-foldl-kept, kept-IsPlain, split-slash,
}
use nsbox.FilePath.Apart.{below-tail, below_trans}
use nsbox.FilePath.Children.{All-append}
use nsbox.Os.Results.{below_self}
use nsbox.Os.Calls.{below}

pub join-append :
    (p : Text) (ps : List Text) (q : Text) (qs : List Text)
    → join (codes "/") ((p ∷ ps) ++ (q ∷ qs))
      ≡ join (codes "/") (p ∷ ps) ++ (slash ∷ join (codes "/") (q ∷ qs))
unfolding join
join-append p [] q qs = refl
join-append p (r ∷ ps) q qs =
    ap (λ l. p ++ (slash ∷ l)) (join-append r ps q qs)
    ∙ sym (append_assoc p (slash ∷ join (codes "/") (r ∷ ps)) (slash ∷ join (codes "/") (q ∷ qs)))

pub below-absolute :
    (p : Text) (ps qs : List Text)
    → below (absolute_text (p ∷ ps)) (absolute_text ((p ∷ ps) ++ qs)) ≡ true
below-absolute p ps [] = rw append-nil (
    subst (λ t. below (absolute_text (p ∷ ps)) t ≡ true) (append-nil (absolute_text (p ∷ ps)))
      (below-tail (absolute_text (p ∷ ps)) [] (inl refl)))
below-absolute p ps (q ∷ qs) =
    rw join-append
      (below-tail (absolute_text (p ∷ ps)) (slash ∷ join (codes "/") (q ∷ qs)) (inr (_, refl)))

pub below-join :
    (root : Text) (roots : List Text) (path : Text)
    → All IsPlain (root ∷ roots)
    → NoParent (split slash path)
    → below (absolute_text (root ∷ roots)) (join_path (absolute_text (root ∷ roots) ∷ path ∷ []))
      ≡ true
below-join root roots path plain up =
    rw (join_path-below root roots path plain up)
      (below-absolute root roots (kept (split slash path)))

-- The elements that count are plain.
pub kept-All-IsPlain :
    (parts : List Text) → All (Lacks slash) parts → NoParent parts → All IsPlain (kept parts)
kept-All-IsPlain [] l n = tt
kept-All-IsPlain (part ∷ parts) l n = elim (Bool-cases (is_empty part || str_eq part (codes "."))) [
  | inl h ↦ rw h (kept-All-IsPlain parts l.1 n.1)
  | inr h ↦ rw h (
    record {
      lacks_slash = l.0;
      not_empty = ground (arith, h);
      not_dot = ground (arith, h);
      not_parent = n.0;
    },
    kept-All-IsPlain parts l.1 n.1,
  )
]

-- Up from the last element.
step_up :
    (part : Text) (done out : List Text)
    → out ≡ part ∷ done
    → str_eq part (codes "..") ≡ false
    → clean_step true out (codes "..") ≡ done
unfolding clean_step str_eq
step_up part done out e h = rw (e, h) refl

-- The elements passed so far, last first.
passed : (parts : List Text) → All IsPlain parts → foldl (clean_step true) [] parts ≡ reverse parts
passed parts plain =
    sym (reverse-reverse (foldl (clean_step true) [] parts))
    ∙ ap reverse
        (reverse-foldl-kept true parts [] (IsPlain-NoParent parts plain) ∙ kept-IsPlain parts plain)

clean_parts-parent :
    (parts : List Text) (part : Text)
    → All IsPlain (parts ++ part ∷ [])
    → str_eq part (codes "..") ≡ false
    → clean_parts true ([] ∷ (parts ++ part ∷ []) ++ codes ".." ∷ []) ≡ parts
unfolding clean_parts clean_step
clean_parts-parent parts part plain h =
    ap reverse (
      foldl-append (clean_step true) [] (parts ++ part ∷ []) (codes ".." ∷ [])
      ∙ step_up part (reverse parts) _
          (passed (parts ++ part ∷ []) plain ∙ reverse-append parts (part ∷ [])) h)
    ∙ reverse-reverse parts

clean_parent :
    (s : Text) (parts : List Text) (part : Text)
    → split slash s ≡ (parts ++ part ∷ []) ++ codes ".." ∷ []
    → All IsPlain (parts ++ part ∷ [])
    → str_eq part (codes "..") ≡ false
    → clean (slash ∷ s) ≡ absolute_text parts
unfolding clean has_prefix
clean_parent s parts part e plain h =
    rw (split-slash, e) (ap absolute_text (clean_parts-parent parts part plain h))

split_up : split slash (codes "..") ≡ codes ".." ∷ []
unfolding split
split_up = refl

join_path-parent :
    (root : Text) (roots : List Text) (part : Text)
    → All IsPlain (root ∷ roots)
    → IsPlain part
    → join_path (absolute_text ((root ∷ roots) ++ part ∷ []) ∷ codes ".." ∷ [])
      ≡ absolute_text (root ∷ roots)
unfolding join_path
join_path-parent root roots part plain last =
    let whole = All-append (root ∷ roots) (part ∷ []) plain (last, tt) in
    let all_parts : List Text = root ∷ (roots ++ part ∷ []) in
    let parts : split slash (join (codes "/") all_parts ++ (slash ∷ codes ".."))
        ≡ all_parts ++ (codes ".." ∷ []) =
      split-append_any slash (join (codes "/") all_parts) (codes "..")
      ∙ (ap (λ l. split slash (join (codes "/") all_parts) ++ l) split_up
          ∙ ap (λ l. l ++ (codes ".." ∷ []))
              (split-join slash root (roots ++ part ∷ []) (IsPlain-Lacks all_parts whole))) in
    rw join_two (clean_parent _ (root ∷ roots) part parts whole last.not_parent)

-- A name without a slash leads below the directory before the last element at least, also up.
pub below-join_word :
    (root : Text) (roots : List Text) (part name : Text)
    → All IsPlain (root ∷ roots)
    → IsPlain part
    → Lacks slash name
    → below
        (absolute_text (root ∷ roots))
        (join_path (absolute_text ((root ∷ roots) ++ part ∷ []) ∷ name ∷ []))
      ≡ true
below-join_word root roots part name plain last lacks =
    elim (Bool-cases (str_eq name (codes ".."))) [
      | inl h ↦
          let up = (str_eq_iff name (codes "..")).0 h in
          rw (up, join_path-parent root roots part plain last)
            (below_self (absolute_text (root ∷ roots)))
      | inr h ↦ below_trans _ _ _ (below-absolute root roots (part ∷ [])) (
          below-join root (roots ++ part ∷ []) name
            (All-append (root ∷ roots) (part ∷ []) plain (last, tt))
            (subst NoParent (sym (split-Lacks slash name lacks)) (h, tt)))
    ]

-- Two relative paths, one joined after the other.
pub below-join_twice :
    (root : Text) (roots : List Text) (a b : Text)
    → All IsPlain (root ∷ roots)
    → NoParent (split slash a)
    → NoParent (split slash b)
    → below
        (absolute_text (root ∷ roots))
        (join_path (join_path (absolute_text (root ∷ roots) ∷ a ∷ []) ∷ b ∷ []))
      ≡ true
below-join_twice root roots a b plain up up' =
    let more = kept-All-IsPlain (split slash a) (split-All-Lacks slash a) up in
    rw (join_path-below root roots a plain up) (
      below_trans _ _ _ (below-absolute root roots (kept (split slash a))) (
        below-join root (roots ++ kept (split slash a)) b
          (All-append (root ∷ roots) (kept (split slash a)) plain more) up'))
