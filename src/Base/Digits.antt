-- ===== src/Base/Digits.antt =====
-- The digits of a number as fmt prints them with %d (fmt.Sprint) and %x.
use Prim.Native.Nat.{ℕ, zero, suc, ◌+◌, ◌-◌, ◌*◌, ◌/◌, ◌%◌, ◌≤◌, ◌<◌}
use native.Mathlib.Nat.{mod-lt, div-add-mod', div-lt_self}
use mathlib.Core.Path.{◌≡◌}
use mathlib.Core.Logic.{inl, inr}
use mathlib.Core.List.{[], ◌∷◌, ◌++◌, foldl, foldl-append}
use native.Mathlib.Omega.{arith}
use nsbox.Base.Tests.{ltb, if◌then◌else◌, Bool-cases}
use nsbox.Base.Strings.{Text}

unfoldable pub digit : ℕ → ℕ
digit d = if ltb d 10 then b'0' + d else b'a' + (d - 10)

-- The fuel bounds the number of digits; `digits_value` shows that `n + 1` is enough.
unfoldable pub digits : ℕ → ℕ → ℕ → Text
unfolding digit
digits base zero n = []
digits base (suc fuel) n =
    let rest = digits base fuel (n / base) in
    if ltb n base then digit n ∷ [] else rest ++ digit (n % base) ∷ []

unfoldable pub decimal : ℕ → Text
unfolding digits
decimal n = digits 10 (suc n) n

unfoldable pub hex : ℕ → Text
unfolding digits
hex n = digits 16 (suc n) n

digit_value : ℕ → ℕ
digit_value c = if ltb c b'a' then c - b'0' else c - b'a' + 10

digit_value-digit : (d : ℕ) → d < 16 → digit_value (digit d) ≡ d
unfolding digit_value digit
digit_value-digit d h = ground arith

read : ℕ → Text → ℕ
read base = foldl (λ n c. n * base + digit_value c) 0

read-digits :
    (base : ℕ) → 1 < base → base ≤ 16 → (fuel n : ℕ) → n < fuel → read base (digits base fuel n) ≡ n
unfolding read digits
read-digits base h k zero n lt = absurd (omega arith)
read-digits base h k (suc fuel) n lt = elim (Bool-cases (ltb n base)) [
  | inl small ↦ rw small (ground (arith, digit_value-digit n))
  | inr big ↦
      let n_pos : 0 < n = ground arith in
      let shorter : n / base < n = div-lt_self n_pos h in
      let last : n % base < base = mod-lt n (omega arith) in
      rw
        (
          big,
          foldl-append,
          read-digits base h k fuel (n / base) (omega arith),
          digit_value-digit (n % base) (omega arith),
        )
        (div-add-mod' n base)
]
