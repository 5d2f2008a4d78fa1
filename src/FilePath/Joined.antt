-- ===== src/FilePath/Joined.antt =====
-- Where a joined path leads: below its root, if no element of what is joined is `..`.
use mathlib.Core.List.{reverse, reverse-cons, foldl}
use nsbox.Base.{
  List, [], ◌∷◌, ◌++◌, Bool, true, false, ◌||◌, Text, codes, str_eq, has_prefix, split, join,
  split-append_any, is_empty, All, Lacks, ◌≡◌, refl, sym, ◌∙◌, ap, arith, Bool-cases, inl, inr,
  if◌then◌else◌, append_assoc, append-nil, split-join,
}
use nsbox.FilePath.{slash, clean_step, clean_parts, absolute_text, clean, join_path}

-- An element that `Clean` keeps as it stands.
pub record IsPlain (part : Text) : Type 0 where
  pub lacks_slash : Lacks slash part
  pub not_empty : is_empty part ≡ false
  pub not_dot : str_eq part (codes ".") ≡ false
  pub not_parent : str_eq part (codes "..") ≡ false

pub word-IsPlain :
    (s : Text)
    → Lacks slash s
    → is_empty s ≡ false
    → str_eq s (codes ".") ≡ false
    → str_eq s (codes "..") ≡ false
    → IsPlain s
word-IsPlain s l e d n = record { lacks_slash = l; not_empty = e; not_dot = d; not_parent = n }

-- The elements that `Clean` keeps of a path with no `..`.
abbrev pub kept : List Text → List Text
kept [] = []
kept (part ∷ parts) =
    let rest = kept parts in if is_empty part || str_eq part (codes ".") then rest else part ∷ rest

abbrev pub NoParent : List Text → Type 0
NoParent = All (λ part. str_eq part (codes "..") ≡ false)

clean_step-kept :
    (rooted : Bool) (out : List Text) (part : Text)
    → str_eq part (codes "..") ≡ false
    → clean_step rooted out part
      ≡ (if is_empty part || str_eq part (codes ".") then out else part ∷ out)
unfolding clean_step
clean_step-kept rooted [] part h = ground arith
clean_step-kept rooted (last ∷ out) part h = ground arith

pub reverse-foldl-kept :
    (rooted : Bool) (parts out : List Text)
    → NoParent parts
    → reverse (foldl (clean_step rooted) out parts) ≡ reverse out ++ kept parts
reverse-foldl-kept rooted [] out h = sym (append-nil (reverse out))
reverse-foldl-kept rooted (part ∷ parts) out h =
    elim (Bool-cases (is_empty part || str_eq part (codes "."))) [
      | inl p ↦
          rw (clean_step-kept rooted out part h.0, p) (reverse-foldl-kept rooted parts out h.1)
      | inr p ↦
          rw (clean_step-kept rooted out part h.0, p)
            (reverse-foldl-kept rooted parts (part ∷ out) h.1
              ∙ (rw reverse-cons (append_assoc (reverse out) (part ∷ []) (kept parts))))
    ]

clean_parts-kept :
    (rooted : Bool) (parts : List Text) → NoParent parts → clean_parts rooted parts ≡ kept parts
unfolding clean_parts
clean_parts-kept rooted parts h = reverse-foldl-kept rooted parts [] h

pub NoParent-append : (ps qs : List Text) → NoParent ps → NoParent qs → NoParent (ps ++ qs)
NoParent-append [] qs hp hq = hq
NoParent-append (p ∷ ps) qs hp hq = (hp.0, NoParent-append ps qs hp.1 hq)

kept-append : (ps qs : List Text) → kept (ps ++ qs) ≡ kept ps ++ kept qs
kept-append [] qs = refl
kept-append (p ∷ ps) qs = ground (arith, kept-append ps qs)

pub IsPlain-NoParent : (ps : List Text) → All IsPlain ps → NoParent ps
IsPlain-NoParent [] h = tt
IsPlain-NoParent (p ∷ ps) h = (h.0.not_parent, IsPlain-NoParent ps h.1)

pub kept-IsPlain : (ps : List Text) → All IsPlain ps → kept ps ≡ ps
kept-IsPlain [] h = refl
kept-IsPlain (p ∷ ps) h = ground (arith, kept-IsPlain ps h.1, h.0.not_empty, h.0.not_dot)

pub IsPlain-Lacks : (ps : List Text) → All IsPlain ps → All (Lacks slash) ps
IsPlain-Lacks [] h = tt
IsPlain-Lacks (p ∷ ps) h = (h.0.lacks_slash, IsPlain-Lacks ps h.1)

pub split-slash : (s : Text) → split slash (slash ∷ s) ≡ [] ∷ split slash s
unfolding split
split-slash s = refl

pub clean_absolute :
    (s : Text) → NoParent (split slash s) → clean (slash ∷ s) ≡ absolute_text (kept (split slash s))
unfolding clean has_prefix
clean_absolute s h =
    rw split-slash
      (ap absolute_text (clean_parts-kept true ([] ∷ split slash s) (unfold str_eq in (refl, h))))

pub join_two : (p q : Text) → join (codes "/") (p ∷ q ∷ []) ≡ p ++ (slash ∷ q)
unfolding join
join_two p q = refl

-- An absolute path with plain elements, joined with a path in which no element is `..`, leads to a
-- path below it: the elements of the one, then those that count of the other.
pub join_path-below :
    (root : Text) (roots : List Text) (path : Text)
    → All IsPlain (root ∷ roots)
    → NoParent (split slash path)
    → join_path (absolute_text (root ∷ roots) ∷ path ∷ [])
      ≡ absolute_text ((root ∷ roots) ++ kept (split slash path))
unfolding join_path
join_path-below root roots path plain up =
    let parts : split slash (join (codes "/") (root ∷ roots) ++ (slash ∷ path))
        ≡ (root ∷ roots) ++ split slash path =
      split-append_any slash (join (codes "/") (root ∷ roots)) path
      ∙ ap (λ l. l ++ split slash path)
          (split-join slash root roots (IsPlain-Lacks (root ∷ roots) plain)) in
    rw join_two (
      clean_absolute (join (codes "/") (root ∷ roots) ++ (slash ∷ path)) (
        rw parts (
          NoParent-append (root ∷ roots) (split slash path) (IsPlain-NoParent (root ∷ roots) plain)
            up))
      ∙ (ap absolute_text (
          ap kept parts
          ∙ (kept-append (root ∷ roots) (split slash path)
              ∙ ap (λ l. l ++ kept (split slash path)) (kept-IsPlain (root ∷ roots) plain)))))
