-- ===== src/Desktop/Names.antt =====
-- The names beside one another in the directory of a container: the link, the link that is made
-- first, and the two instances.
use nsbox.Base.{
  ℕ, zero, suc, Text, List, [], ◌∷◌, ◌++◌, codes, decimal, Bool, true, false, ◌||◌, All, str_eq,
  has_prefix, has_suffix, join, Option, none, some, ok, ◌≡◌, refl, ◌∙◌, sym, ap, arith, ◌⊎◌, inl,
  inr, append_assoc, if◌then◌else◌,
}
use nsbox.FilePath.{slash, absolute_text}
use nsbox.FilePath.Joined.{IsPlain, word-IsPlain}
use nsbox.FilePath.Children.{join_path-child}
use nsbox.FilePath.Beside.{below-append}
use nsbox.FilePath.Apart.{Apart}
use nsbox.FilePath.Inside.{join-append}
use nsbox.Os.Calls.{below}
use nsbox.Container.Data.{Container}
use nsbox.Container.Files.{exports_link}
use nsbox.Desktop.Update.{exports_id, new_instance}
use nsbox.Os.{World}
use nsbox.Desktop.Built.{instance_name}

pub link_element : Bool → Text
link_element temp = if temp then codes "exports.tmp" else codes "exports"

link_element-IsPlain : (temp : Bool) → IsPlain (link_element temp)
unfolding link_element str_eq
link_element-IsPlain true = word-IsPlain (codes "exports.tmp") (ground arith) refl refl refl
link_element-IsPlain false = word-IsPlain (codes "exports") (ground arith) refl refl refl

pub zero-IsPlain : IsPlain (instance_name 0)
unfolding decimal str_eq
zero-IsPlain = word-IsPlain (instance_name 0) (ground arith) refl refl refl

pub one-IsPlain : IsPlain (instance_name 1)
unfolding decimal str_eq
one-IsPlain = word-IsPlain (instance_name 1) (ground arith) refl refl refl

pub new_instance-IsPlain : (old : Option ℕ) → IsPlain (instance_name (new_instance old))
unfolding new_instance
new_instance-IsPlain none = zero-IsPlain
new_instance-IsPlain (some zero) = one-IsPlain
new_instance-IsPlain (some (suc n)) = zero-IsPlain

module _ (root : Text) (parents : List Text) where
  abbrev pub beside : Text → Text
  beside name = absolute_text ((root ∷ parents) ++ name ∷ [])

  beside-eq : (name : Text) → beside name ≡ absolute_text (root ∷ parents) ++ (slash ∷ name)
  unfolding join
  beside-eq name = ap (λ t. slash ∷ t) (join-append root parents name [])

  below-beside :
      (x y : Text)
      → below (beside x) (beside y)
        ≡ (str_eq (slash ∷ y) (slash ∷ x) || has_prefix (slash ∷ y) ((slash ∷ x) ++ codes "/"))
  below-beside x y =
      rw (beside-eq x, beside-eq y)
        (below-append (absolute_text (root ∷ parents)) (slash ∷ x) (slash ∷ y))

  beside-Apart :
      (x y : Text)
      → (str_eq (slash ∷ y) (slash ∷ x) || has_prefix (slash ∷ y) ((slash ∷ x) ++ codes "/"))
        ≡ false
      → (str_eq (slash ∷ x) (slash ∷ y) || has_prefix (slash ∷ x) ((slash ∷ y) ++ codes "/"))
        ≡ false
      → Apart (beside x) (beside y)
  beside-Apart x y h k = (below-beside x y ∙ h, below-beside y x ∙ k)

  pub new-Apart-link :
      (old : Option ℕ) (temp : Bool)
      → Apart (beside (instance_name (new_instance old))) (beside (link_element temp))
  unfolding new_instance link_element decimal str_eq has_prefix
  new-Apart-link none true = beside-Apart (instance_name 0) (link_element true) refl refl
  new-Apart-link none false = beside-Apart (instance_name 0) (link_element false) refl refl
  new-Apart-link (some zero) true = beside-Apart (instance_name 1) (link_element true) refl refl
  new-Apart-link (some zero) false = beside-Apart (instance_name 1) (link_element false) refl refl
  new-Apart-link (some (suc n)) true = beside-Apart (instance_name 0) (link_element true) refl refl
  new-Apart-link (some (suc n)) false =
      beside-Apart (instance_name 0) (link_element false) refl refl

  pub links-Apart : Apart (beside (link_element true)) (beside (link_element false))
  unfolding link_element str_eq has_prefix
  links-Apart = beside-Apart (link_element true) (link_element false) refl refl

  -- The instance in use is one of the two.
  abbrev pub IsInstance : ℕ → Type 0
  IsInstance n = (n ≡ 0) ⊎ (n ≡ 1)

  pub instance-Apart-link :
      (n : ℕ) (temp : Bool)
      → IsInstance n
      → Apart (beside (instance_name n)) (beside (link_element temp))
  unfolding new_instance
  instance-Apart-link n temp (inl e) = rw e (new-Apart-link none temp)
  instance-Apart-link n temp (inr e) = rw e (new-Apart-link (some 0) temp)

  pub new-Apart-old :
      (n : ℕ)
      → IsInstance n
      → Apart (beside (instance_name (new_instance (some n)))) (beside (instance_name n))
  unfolding new_instance decimal str_eq has_prefix
  new-Apart-old n (inl e) = rw e (beside-Apart (instance_name 1) (instance_name 0) refl refl)
  new-Apart-old n (inr e) = rw e (beside-Apart (instance_name 0) (instance_name 1) refl refl)

  module _ (plain : All IsPlain (root ∷ parents)) (ct : Container)
      (place : ct.path ≡ absolute_text (root ∷ parents)) where
    pub exports_link-eq : (temp : Bool) → exports_link ct temp ≡ beside (link_element temp)
    unfolding exports_link link_element
    exports_link-eq temp =
        rw place
          (join_path-child (root ∷ parents) (link_element temp) plain (link_element-IsPlain temp))

longer : (x x' y z c d : ℕ) (a : Text) → str_eq (x ∷ x' ∷ (a ++ (y ∷ z ∷ []))) (c ∷ d ∷ []) ≡ false
unfolding str_eq
longer x x' y z c d [] = ground arith
longer x x' y z c d (w ∷ a) = ground arith

-- Whether a text ends in two characters is read off its last two.
has_suffix_two :
    (a : Text) (y z c d : ℕ)
    → has_suffix (a ++ (y ∷ z ∷ [])) (c ∷ d ∷ []) ≡ str_eq (y ∷ z ∷ []) (c ∷ d ∷ [])
unfolding has_suffix
has_suffix_two [] y z c d = unfold str_eq in ground arith
has_suffix_two (x ∷ []) y z c d = rw (has_suffix_two [] y z c d) (unfold str_eq in ground arith)
has_suffix_two (x ∷ x' ∷ a) y z c d = rw (longer x x' y z c d a) (has_suffix_two (x' ∷ a) y z c d)

zero_digit : decimal 0 ≡ b'0' ∷ []
unfolding decimal
zero_digit = refl

one_digit : decimal 1 ≡ b'1' ∷ []
unfolding decimal
one_digit = refl

zero_zero : str_eq (b'.' ∷ b'0' ∷ []) (b'.' ∷ b'0' ∷ []) ≡ true
unfolding str_eq
zero_zero = refl

one_zero : str_eq (b'.' ∷ b'1' ∷ []) (b'.' ∷ b'0' ∷ []) ≡ false
unfolding str_eq
one_zero = refl

one_one : str_eq (b'.' ∷ b'1' ∷ []) (b'.' ∷ b'1' ∷ []) ≡ true
unfolding str_eq
one_one = refl

module _ (root : Text) (parents : List Text) where
  before_id : Text
  before_id = absolute_text (root ∷ parents) ++ codes "/exports"

  instance-eq : (n : ℕ) → beside root parents (instance_name n) ≡ before_id ++ (b'.' ∷ decimal n)
  unfolding before_id
  instance-eq n =
      beside-eq root parents (instance_name n)
      ∙ sym (append_assoc (absolute_text (root ∷ parents)) (codes "/exports") (b'.' ∷ decimal n))

  -- The number of an instance is read off its path.
  pub exports_id-instance :
      (path : Text) (n : ℕ) (w : World)
      → IsInstance root parents n
      → exports_id path (ok (beside root parents (instance_name n))) w ≡ (ok (some n), w)
  exports_id-instance path n w h = rw (instance-eq n) (by_number h)
    where
      by_number :
          (n ≡ 0) ⊎ (n ≡ 1)
          → exports_id path (ok (before_id ++ (b'.' ∷ decimal n))) w ≡ (ok (some n), w)
      by_number (inl e) =
          rw e (rw (zero_digit, has_suffix_two before_id b'.' b'0' b'.' b'0', zero_zero) refl)
      by_number (inr e) = rw e (
          rw
            (
              one_digit,
              has_suffix_two before_id b'.' b'1' b'.' b'0',
              one_zero,
              has_suffix_two before_id b'.' b'1' b'.' b'1',
              one_one,
            )
            refl)
