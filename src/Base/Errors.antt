-- ===== src/Base/Errors.antt =====
-- Go's error values and panics.
use Prim.Native.Nat.{ℕ}
use mathlib.Core.Path.{◌≡◌, refl}
use mathlib.Core.Bool.{Bool, true, false}
use nsbox.Base.Strings.{Text}

-- The system errors that the program tells apart.
pub data Errno : Type 0 where
  enoent eexist ewouldblock eperm : Errno
  other : ℕ → Errno

-- `errorf` is errors.New and errors.Errorf, `wrap` is errors.Wrap.
pub data Error : Type 0 where
  errorf : Text → Error
  errno : Errno → Error
  wrap : Error → Text → Error

pub data Result {κ} (T : Type κ) : Type κ where
  panic : Text → Result T
  err : Error → Result T
  ok : T → Result T

-- What comes next, if there was neither a panic nor an error.
module _ {κ ℓ} {T : Type κ} {U : Type ℓ} where
  infixl 5 ◌>>=◌
  abbrev pub ◌>>=◌ : Result T → (T → Result U) → Result U
  panic message >>= next = panic message
  err e >>= next = err e
  ok t >>= next = next t

infixl 5 ◌>>◌
abbrev pub ◌>>◌ {κ} : {U : Type κ} → Result (Unit {0}) → Result U → Result U
first >> second = first >>= λ done. second

-- errors.Wrap on the way out.
abbrev pub wrap_err {κ} : {T : Type κ} → Text → Result T → Result T
wrap_err message (panic m) = panic m
wrap_err message (err e) = err (wrap e message)
wrap_err message (ok t) = ok t

-- `if bad { return errors.New(message) }`
abbrev pub reject : Bool → Text → Result (Unit {0})
reject true message = err (errorf message)
reject false message = ok tt

-- If all went well, the first part went well, and so did what came next.
module _ {κ ℓ} {T : Type κ} {U : Type ℓ} where
  pub >>=-eq-ok :
      (first : Result T) (next : T → Result U) {u : U}
      → (first >>= next) ≡ ok u
      → (t : T) × (first ≡ ok t) × (next t ≡ ok u)
  >>=-eq-ok (panic message) next well = cc
  >>=-eq-ok (err e) next well = cc
  >>=-eq-ok (ok t) next well = (t, refl, well)
