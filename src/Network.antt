-- ===== src/Network.antt =====
-- internal/network/network.go, GenerateUniqueLinkName. Names are ASCII, so a character is a byte.
-- `links` are the names that netlink lists, `letter n` is the random letter of the round that has
-- `n` more rounds behind it.
use nsbox.Base.{
  ℕ, zero, suc, ◌+◌, ◌-◌, ◌≤◌, ◌<◌, Text, List, [], ◌∷◌, ◌++◌, codes, true, false, length,
  length-take, take, drop, contains, ltb, has_prefix, str_eq, if◌then◌else◌, Result, ok, err, panic,
  errorf, ◌≡◌, ◌≢◌, refl, ap, subst, arith, Bool-cases, inl, inr,
}

abbrev pub nsbox_prefix : Text
nsbox_prefix = codes "nx-"

-- netlink.IFNAMSIZ, the size of an interface's name with its final zero
abbrev pub ifnamsiz : ℕ
ifnamsiz = 16

unfoldable pub give_up : Text → Result Text
give_up base = err (errorf (codes "could not generate unique interface name for " ++ base))

-- The loop: `rounds` is `i + 1 - len(nsboxPrefix)`.
unfoldable pub search_name : List Text → (ℕ → ℕ) → Text → ℕ → Text → Result Text
search_name links letter base zero name = give_up base
search_name links letter base (suc rounds) name =
    let i = rounds + length nsbox_prefix in
    let other = take i name ++ (letter rounds ∷ drop (suc i) name) in
    let next = search_name links letter base rounds other in
    if contains links name then next else ok name

unfoldable pub first_name : Text → ℕ → Text
first_name base max_base_length =
    nsbox_prefix ++ (if ltb max_base_length (length base) then take max_base_length base else base)

-- With a longer prefix `maxBaseLength` is negative, and slicing by it panics.
unfoldable pub generate_unique_link_name : List Text → (ℕ → ℕ) → Text → Text → Result Text
unfolding search_name first_name give_up
generate_unique_link_name links letter base assumed_prefix =
    if ltb (ifnamsiz - length nsbox_prefix - 1) (length assumed_prefix)
    then panic (codes "slice bounds out of range")
    else let max_base_length = ifnamsiz - length assumed_prefix - length nsbox_prefix - 1 in
      let name = first_name base max_base_length in
      search_name links letter base (length name - length nsbox_prefix) name

-- A letter is put in place of a character behind the prefix.
record IsCandidate (bound : ℕ) (name : Text) : Type 0 where
  prefixed : has_prefix name nsbox_prefix ≡ true
  short : length name ≤ bound

length-replaced :
    (n c : ℕ) (s : Text) → n < length s → length (take n s ++ (c ∷ drop (suc n) s)) ≡ length s
length-replaced n c [] h = absurd (omega arith)
length-replaced zero c (x ∷ s) h = refl
length-replaced (suc n) c (x ∷ s) h = ap suc (length-replaced n c s (omega arith))

prefix-replaced :
    (n c : ℕ) (s : Text)
    → has_prefix s nsbox_prefix ≡ true
    → has_prefix (take (suc (suc (suc n))) s ++ (c ∷ drop (suc (suc (suc (suc n)))) s)) nsbox_prefix
      ≡ true
unfolding has_prefix
prefix-replaced n c [] h = ground (arith, h)
prefix-replaced n c (x ∷ []) h = ground (arith, h)
prefix-replaced n c (x ∷ y ∷ []) h = ground (arith, h)
prefix-replaced n c (x ∷ y ∷ z ∷ s) h = h

replaced-IsCandidate :
    (bound rounds c : ℕ) (name : Text)
    → IsCandidate bound name
    → suc rounds + 3 ≤ length name
    → IsCandidate bound (take (rounds + 3) name ++ (c ∷ drop (suc (rounds + 3)) name))
      × (length (take (rounds + 3) name ++ (c ∷ drop (suc (rounds + 3)) name)) ≡ length name)
replaced-IsCandidate bound rounds c name k l =
    let same = length-replaced (rounds + 3) c name (omega arith) in
    let three : rounds + 3 ≡ suc (suc (suc rounds)) = omega arith in
    (
      record {
        prefixed = rw three (prefix-replaced rounds c name k.prefixed);
        short = rw same k.short;
      },
      same,
    )

search_name-lem :
    (links : List Text) (letter : ℕ → ℕ) (base : Text) (bound rounds : ℕ) (name found : Text)
    → IsCandidate bound name
    → rounds + 3 ≤ length name
    → search_name links letter base rounds name ≡ ok found
    → IsCandidate bound found × (contains links found ≡ false)
unfolding search_name give_up
search_name-lem links letter base bound zero name found c l h = ground (arith, h)
search_name-lem links letter base bound (suc rounds) name found c l h =
    let (c', same) = replaced-IsCandidate bound rounds (letter rounds) name c l in
    elim (Bool-cases (contains links name)) [
      | inl taken ↦
          search_name-lem links letter base bound rounds _ found c' (rw same (omega arith))
            (rw taken at h)
      | inr free ↦
          let e : name ≡ found = ground (arith, h, free) in
          (subst (IsCandidate bound) e c, subst (λ t. contains links t ≡ false) e free)
    ]

length-first_name : (base : Text) (n : ℕ) → length (first_name base n) ≤ n + 3
unfolding first_name
length-first_name base n = ground (arith, length-take n base)

prefix-first_name : (base : Text) (n : ℕ) → has_prefix (first_name base n) nsbox_prefix ≡ true
unfolding first_name has_prefix
prefix-first_name base n = refl

three-le-first_name : (base : Text) (n : ℕ) → 3 ≤ length (first_name base n)
unfolding first_name
three-le-first_name base n = omega arith

-- A name that is found is free among the links, begins with the prefix of nsbox, and fits: behind
-- the assumed prefix it leaves room for the final zero.
pub generate_unique_link_name-lem :
    (links : List Text) (letter : ℕ → ℕ) (base assumed_prefix found : Text)
    → generate_unique_link_name links letter base assumed_prefix ≡ ok found
    → (contains links found ≡ false)
      × (has_prefix found nsbox_prefix ≡ true)
      × (length assumed_prefix + length found < ifnamsiz)
unfolding generate_unique_link_name
generate_unique_link_name-lem links letter base assumed_prefix found h =
    elim (Bool-cases (ltb 12 (length assumed_prefix))) [
      | inl long ↦ absurd (ground (arith, h, long))
      | inr fits ↦
          let n : ℕ = ifnamsiz - length assumed_prefix - length nsbox_prefix - 1 in
          let (c, free) =
            search_name-lem links letter base (n + 3) (length (first_name base n) - 3)
              (first_name base n) found
              (record { prefixed = prefix-first_name base n; short = length-first_name base n })
              (omega (arith, three-le-first_name base n)) (rw fits at h) in
          (free, c.prefixed, ground (arith, c.short, fits))
    ]

search_name_free :
    (links : List Text) (letter : ℕ → ℕ) (base : Text) (rounds : ℕ) (name : Text)
    → 0 < rounds
    → contains links name ≡ false
    → search_name links letter base rounds name ≡ ok name
unfolding search_name
search_name_free links letter base zero name pos free = absurd (omega arith)
search_name_free links letter base (suc rounds) name pos free = rw free refl

three-lt-first_name : (base : Text) → base ≢ [] → 3 < length (first_name base 9)
unfolding first_name
three-lt-first_name [] n = absurd (n refl)
three-lt-first_name (c ∷ base) n = ground (arith, length-take 9 (c ∷ base))

-- If the only link is the interface of the zone with the first name for a base that is not empty,
-- that very name is given again: it is looked up without the prefix of the zones.
pub generate_unique_link_name-zone :
    (letter : ℕ → ℕ) (base : Text)
    → base ≢ []
    → let name = first_name base 9 in
      generate_unique_link_name ((codes "vz-" ++ name) ∷ []) letter base (codes "vz-") ≡ ok name
unfolding generate_unique_link_name
generate_unique_link_name-zone letter base n =
    search_name_free _ letter base _ (first_name base 9) (omega (arith, three-lt-first_name base n))
      (unfold contains str_eq in refl)
