-- ===== src/Base/Split.antt =====
-- strings.Split, strings.SplitN and strings.Join, and how they undo one another.
use Prim.Native.Nat.{ℕ}
use mathlib.Core.Path.{◌≡◌, refl, ap, ◌∙◌}
use mathlib.Core.Logic.{◌≢◌, inl, inr}
use mathlib.Core.Option.{Option, none, some}
use mathlib.Core.List.{List, [], ◌∷◌, ◌++◌}
use native.Mathlib.Omega.{arith}
use nsbox.Base.Tests.{◌==◌, if◌then◌else◌, Bool-cases, ==_iff}
use nsbox.Base.Lists.{All}
use nsbox.Base.Strings.{Text}

abbrev pub extend : ℕ → List Text → List Text
extend c [] = (c ∷ []) ∷ []
extend c (p ∷ ps) = (c ∷ p) ∷ ps

-- strings.Split at a separator of one character.
unfoldable pub split : ℕ → Text → List Text
split sep [] = [] ∷ []
split sep (c ∷ s) = let rest = split sep s in if c == sep then [] ∷ rest else extend c rest

-- strings.SplitN(s, sep, 2): what stands before the first separator, and after it if there is one.
unfoldable pub split_once : ℕ → Text → Text × Option Text
split_once sep [] = ([], none)
split_once sep (c ∷ s) =
    let (before, after) = split_once sep s in if c == sep then ([], some s) else (c ∷ before, after)

-- strings.Join
unfoldable pub join : Text → List Text → Text
join sep [] = []
join sep (p ∷ []) = p
join sep (p ∷ q ∷ ps) = p ++ (sep ++ join sep (q ∷ ps))

abbrev pub Lacks : ℕ → Text → Type 0
Lacks sep [] = Unit
Lacks sep (c ∷ s) = (c ≢ sep) × Lacks sep s

pub Lacks-append : (sep : ℕ) (s t : Text) → Lacks sep s → Lacks sep t → Lacks sep (s ++ t)
Lacks-append sep [] t h k = k
Lacks-append sep (c ∷ s) t h k = (h.0, Lacks-append sep s t h.1 k)

pub split-ne-nil : (sep : ℕ) (s : Text) → (p : Text) × (ps : List Text) × (split sep s ≡ p ∷ ps)
unfolding split
split-ne-nil sep [] = ([], [], refl)
split-ne-nil sep (c ∷ s) =
    let (p, ps, e) = split-ne-nil sep s in
    elim (Bool-cases (c == sep)) [
      | inl h ↦ ([], split sep s, rw h refl)
      | inr h ↦ (c ∷ p, ps, rw (h, e) refl)
    ]

join-cons-nil :
    (sep : Text) (p : Text) (ps : List Text) → join sep ([] ∷ p ∷ ps) ≡ sep ++ join sep (p ∷ ps)
unfolding join
join-cons-nil sep p ps = refl

join-extend :
    (sep : Text) (c : ℕ) (ps : List Text) → ps ≢ [] → join sep (extend c ps) ≡ c ∷ join sep ps
unfolding join
join-extend sep c [] h = absurd (h refl)
join-extend sep c (p ∷ []) h = refl
join-extend sep c (p ∷ q ∷ ps) h = refl

-- Joining the parts of a split gives the text back.
pub join-split : (sep : ℕ) (s : Text) → join (sep ∷ []) (split sep s) ≡ s
unfolding split
join-split sep [] = unfold join in refl
join-split sep (c ∷ s) =
    let (p, ps, e) = split-ne-nil sep s in
    elim (Bool-cases (c == sep)) [
      | inl h ↦
          ground (arith, h, e, join-split sep s, join-cons-nil (sep ∷ []) p ps, (==_iff c sep).0 h)
      | inr h ↦ ground (arith, h, e, join-split sep s, join-extend (sep ∷ []) c (split sep s))
    ]

pub split-Lacks : (sep : ℕ) (s : Text) → Lacks sep s → split sep s ≡ s ∷ []
unfolding split
split-Lacks sep [] h = refl
split-Lacks sep (c ∷ s) h = ground (arith, split-Lacks sep s h.1)

pub split-append :
    (sep : ℕ) (s t : Text) → Lacks sep s → split sep (s ++ (sep ∷ t)) ≡ s ∷ split sep t
unfolding split
split-append sep [] t h = ground arith
split-append sep (c ∷ s) t h = ground (arith, split-append sep s t h.1)

pub split-append_any :
    (sep : ℕ) (s t : Text) → split sep (s ++ (sep ∷ t)) ≡ split sep s ++ split sep t
unfolding split
split-append_any sep [] t = ground arith
split-append_any sep (c ∷ s) t =
    let (p, ps, e) = split-ne-nil sep s in
    elim (Bool-cases (c == sep)) [
      | inl h ↦ rw h (ap (λ l. [] ∷ l) (split-append_any sep s t))
      | inr h ↦ rw (h, split-append_any sep s t, e) refl
    ]

-- Splitting a join gives the parts back, if there is a part and none holds the separator.
pub split-join :
    (sep : ℕ) (p : Text) (ps : List Text)
    → All (Lacks sep) (p ∷ ps)
    → split sep (join (sep ∷ []) (p ∷ ps)) ≡ p ∷ ps
unfolding join
split-join sep p [] h = split-Lacks sep p h.0
split-join sep p (q ∷ ps) h =
    split-append sep p (join (sep ∷ []) (q ∷ ps)) h.0 ∙ ap (λ l. p ∷ l) (split-join sep q ps h.1)

All-Lacks-extend :
    (sep c : ℕ) (ps : List Text) → c ≢ sep → All (Lacks sep) ps → All (Lacks sep) (extend c ps)
All-Lacks-extend sep c [] n h = ((n, tt), tt)
All-Lacks-extend sep c (p ∷ ps) n h = ((n, h.0), h.1)

-- No part of a split holds the separator.
pub split-All-Lacks : (sep : ℕ) (s : Text) → All (Lacks sep) (split sep s)
unfolding split
split-All-Lacks sep [] = (tt, tt)
split-All-Lacks sep (c ∷ s) = elim (Bool-cases (c == sep)) [
  | inl h ↦ rw h (tt, split-All-Lacks sep s)
  | inr h ↦ rw h (All-Lacks-extend sep c (split sep s) (ground arith) (split-All-Lacks sep s))
]

-- A text is cut at its first separator: the key before it holds none.
pub split_once-Lacks :
    (sep : ℕ) (s t : Text) → Lacks sep s → split_once sep (s ++ (sep ∷ t)) ≡ (s, some t)
unfolding split_once
split_once-Lacks sep [] t h = ground arith
split_once-Lacks sep (c ∷ s) t h = ground (arith, split_once-Lacks sep s t h.1)
