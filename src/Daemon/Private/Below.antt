-- ===== src/Daemon/Private/Below.antt =====
-- Where the private directories of a container lie, and where they appear inside of it.
use nsbox.Base.{
  ℕ, Text, List, [], ◌∷◌, ◌++◌, codes, true, false, str_eq, str_eq_iff, if◌then◌else◌, ◌||◌, ◌==◌,
  split, join, All, Lacks, split-join, split-ne-nil, extend, ◌≡◌, refl, sym, subst, ◌∙◌, ap, arith,
  is_empty, split-append, Bool-cases, inl, inr, has_prefix, append_assoc,
}
use nsbox.FilePath.{slash, join_path, absolute_text}
use nsbox.FilePath.Children.{All-append}
use nsbox.FilePath.Joined.{
  word-IsPlain, kept-IsPlain, IsPlain-Lacks, IsPlain-NoParent, IsPlain, NoParent, kept,
  join_path-below,
}
use nsbox.Container.Validate.Patterns.{has_dots, has_dots-tail}
use nsbox.Nspawn.{BindMount}
use nsbox.Daemon.Private.{has_substring, private_home_storage, private_home_storage_child}

pub has_substring_dots : (s : Text) → has_substring s (codes "..") ≡ has_dots s
unfolding has_substring has_dots has_prefix
has_substring_dots [] = refl
has_substring_dots (c ∷ []) = ground arith
has_substring_dots (c ∷ d ∷ s) = ground (arith, has_substring_dots (d ∷ s))

dots_dots : has_dots (codes "..") ≡ true
unfolding has_dots
dots_dots = refl

dots_parent : (s : Text) → has_dots s ≡ false → str_eq s (codes "..") ≡ false
dots_parent s h = elim (Bool-cases (str_eq s (codes ".."))) [
  | inl e ↦ absurd (
      ground
        (arith, dots_dots, subst (λ p. has_dots p ≡ false) ((str_eq_iff s (codes "..")).0 e) h))
  | inr e ↦ e
]

-- The first part of a split at a separator that does not stand first.
split-keep :
    (c : ℕ) (s : Text)
    → (c == slash) ≡ false
    → (p : Text) × (ps : List Text) × (split slash s ≡ p ∷ ps)
      × (split slash (c ∷ s) ≡ (c ∷ p) ∷ ps)
unfolding split
split-keep c s n = let (p, ps, e) = split-ne-nil slash s in (p, ps, e, rw (n, e) refl)

abbrev NoDots : List Text → Type 0
NoDots = All (λ part. has_dots part ≡ false)

split-NoDots : (s : Text) → has_dots s ≡ false → NoDots (split slash s)
unfolding has_dots split
split-NoDots [] h = (refl, tt)
split-NoDots (c ∷ []) h = elim (Bool-cases (c == slash)) [
  | inl e ↦ rw e (refl, (refl, tt))
  | inr e ↦ rw e (refl, tt)
]
split-NoDots (c ∷ d ∷ s) h =
    let ih = split-NoDots (d ∷ s) (ground arith) in
    elim (Bool-cases (c == slash)) [
      | inl e ↦ rw e (refl, ih)
      | inr e ↦ elim (Bool-cases (d == slash)) [
        | inl q ↦ rw (e, q) (refl, split-NoDots s (has_dots-tail d s (ground arith)))
        | inr q ↦
            let (p, ps, _, whole) = split-keep d s q in
            let parts : NoDots ((d ∷ p) ∷ ps) = subst NoDots whole ih in
            let first : has_dots (c ∷ d ∷ p) ≡ false = ground (arith, parts.0) in
            subst (λ l. NoDots (if c == slash then [] ∷ l else extend c l)) (sym whole)
              (rw e (first, parts.1))
      ]
    ]

-- A text without two dots in a row has no element `..`.
pub has_dots-NoParent : (s : Text) → has_dots s ≡ false → NoParent (split slash s)
has_dots-NoParent s h = go (split slash s) (split-NoDots s h)
  where
    go : (parts : List Text) → All (λ part. has_dots part ≡ false) parts → NoParent parts
    go [] k = tt
    go (part ∷ parts) k = (dots_parent part k.0, go parts k.1)

pub kept-All :
    (parts : List Text) → All (Lacks slash) parts → NoParent parts → All IsPlain (kept parts)
kept-All [] l n = tt
kept-All (part ∷ parts) l n = elim (Bool-cases (is_empty part || str_eq part (codes "."))) [
  | inl h ↦ rw h (kept-All parts l.1 n.1)
  | inr h ↦ rw h (
    record {
      lacks_slash = l.0;
      not_empty = ground arith;
      not_dot = ground arith;
      not_parent = n.0;
    },
    kept-All parts l.1 n.1,
  )
]

-- The elements of the private directories of a container, and where they appear.
abbrev pub storage : Text → List Text
storage name = codes ".var" ∷ codes "nsbox" ∷ name ∷ []

pub home-IsPlain : IsPlain (codes "home")
unfolding str_eq
home-IsPlain = word-IsPlain (codes "home") (ground arith) refl refl refl

pub storage-IsPlain : (name : Text) → IsPlain name → All IsPlain (storage name)
unfolding str_eq
storage-IsPlain name h = (
  word-IsPlain (codes ".var") (ground arith) refl refl refl,
  (word-IsPlain (codes "nsbox") (ground arith) refl refl refl, (h, tt)),
)

-- What a private directory shares with the container, for a home directory with these elements.
abbrev pub private_mount : List Text → Text → Text → BindMount
private_mount home name private = record {
  host = absolute_text (home ++ (storage name ++ codes "home" ∷ kept (split slash private)));
  dest = absolute_text (home ++ kept (split slash private));
  recursive = false;
}

module _ (root : Text) (roots : List Text) (plain : All IsPlain (root ∷ roots)) where
  storage-eq :
      (name : Text) (uid gid : ℕ)
      → IsPlain name
      → private_home_storage
          (record { home_dir = absolute_text (root ∷ roots); uid = uid; gid = gid })
          name
        ≡ absolute_text ((root ∷ roots) ++ storage name)
  unfolding private_home_storage join_path join
  storage-eq name uid gid h =
      let parts : split slash (join (codes "/") (storage name)) ≡ storage name =
        split-join slash (codes ".var") (codes "nsbox" ∷ name ∷ [])
          (IsPlain-Lacks (storage name) (storage-IsPlain name h)) in
      join_path-below root roots (join (codes "/") (storage name)) plain
        (subst NoParent (sym parts) (IsPlain-NoParent (storage name) (storage-IsPlain name h)))
      ∙ ap (λ l. absolute_text ((root ∷ roots) ++ l))
          (ap kept parts ∙ kept-IsPlain (storage name) (storage-IsPlain name h))

  pub host-eq :
      (name : Text) (uid gid : ℕ) (private : Text)
      → IsPlain name
      → has_dots private ≡ false
      → private_home_storage_child
          (record { home_dir = absolute_text (root ∷ roots); uid = uid; gid = gid })
          name
          (codes "home" ∷ private ∷ [])
        ≡ (private_mount (root ∷ roots) name private).host
  unfolding private_home_storage_child join_path join str_eq
  host-eq name uid gid private h n =
      let parts : split slash (codes "home" ++ (slash ∷ private))
          ≡ codes "home" ∷ split slash private =
        split-append slash (codes "home") private (ground arith) in
      let up : NoParent (split slash (codes "home" ++ (slash ∷ private))) =
        subst NoParent (sym parts) (refl, has_dots-NoParent private n) in
      let all_plain : All IsPlain ((root ∷ roots) ++ storage name) =
        All-append (root ∷ roots) (storage name) plain (storage-IsPlain name h) in
      rw (storage-eq name uid gid h) (
        join_path-below root (roots ++ storage name) (codes "home" ++ (slash ∷ private)) all_plain
          up
        ∙ (ap (λ l. absolute_text (((root ∷ roots) ++ storage name) ++ kept l)) parts
            ∙ ap absolute_text (
                append_assoc (root ∷ roots) (storage name)
                  (codes "home" ∷ kept (split slash private)))))
