-- ===== src/Os/Yields.antt =====
-- What a program returns, if it returns a value.
use nsbox.Base.{Text, Bool, true, false, Result, ok, err, panic, if◌then◌else◌, wrap_err, ◌≡◌, refl}
use nsbox.Os.{World, Sys, continue, ◌>>=◌, wrapping, trying}

abbrev pub Got {ℓ κ} : {A : Type ℓ} → (A → Type κ) → Result A → Type κ
Got P (ok a) = P a
Got P (err e) = Unit
Got P (panic m) = Unit

abbrev pub Yields {ℓ κ} : {A : Type ℓ} → (A → Type κ) → Sys A → Type κ
Yields P m = (w : World) → Got P (m w).0

module _ {ℓ ℓ' κ κ'} {A : Type ℓ} {B : Type ℓ'} (P : A → Type κ) (Q : B → Type κ') where
  pub Yields->>= :
      (m : Sys A) (f : A → Sys B)
      → Yields P m
      → ((a : A) → P a → Yields Q (f a))
      → Yields Q (m >>= f)
  Yields->>= m f h k w = go (m w).0 (m w).1 (h w)
    where
      go : (r : Result A) (w' : World) → Got P r → Got Q (continue r f w').0
      go (ok a) w' x = k a x w'
      go (err e) w' x = tt
      go (panic m') w' x = tt

module _ {ℓ ℓ' κ'} {A : Type ℓ} {B : Type ℓ'} (Q : B → Type κ') where
  -- A first part whose value does not matter.
  pub Yields-after : (m : Sys A) (f : A → Sys B) → ((a : A) → Yields Q (f a)) → Yields Q (m >>= f)
  Yields-after m f k w = go (m w).0 (m w).1
    where
      go : (r : Result A) (w' : World) → Got Q (continue r f w').0
      go (ok a) w' = k a w'
      go (err e) w' = tt
      go (panic m') w' = tt

module _ {ℓ κ} {A : Type ℓ} (P : A → Type κ) where
  pub Yields-wrapping : (message : Text) (m : Sys A) → Yields P m → Yields P (wrapping message m)
  Yields-wrapping message m h w = go (m w).0 (h w)
    where
      go : (r : Result A) → Got P r → Got P (wrap_err message r)
      go (ok a) x = x
      go (err e) x = tt
      go (panic m') x = tt

  pub Yields-if : (c : Bool) (m n : Sys A) → Yields P m → Yields P n → Yields P (if c then m else n)
  Yields-if true m n h k = h
  Yields-if false m n h k = k

module _ {ℓ ℓ' κ'} {A : Type ℓ} {B : Type ℓ'} (Q : B → Type κ') where
  pub Yields-trying :
      (m : Sys A) (f : Result A → Sys B)
      → ((w : World) (r : Result A) → (m w).0 ≡ r → Yields Q (f r))
      → Yields Q (trying m f)
  Yields-trying m f h w = h w (m w).0 refl (m w).1
