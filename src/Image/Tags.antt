-- ===== src/Image/Tags.antt =====
-- The tags that an image accepts.
use nsbox.Base.{
  Text, List, [], ◌∷◌, true, any, str_eq, contains, ok, ◌||◌, ◌≡◌, ◌≢◌, ◌↔◌, ◌⊎◌, inl, inr, refl,
  ap, arith,
}
use nsbox.Image.{check_tag}

any-contains : (tags : List Text) (tag : Text) → any (λ t. str_eq t tag) tags ≡ contains tags tag
unfolding contains
any-contains [] tag = refl
any-contains (t ∷ ts) tag = ap (λ b. str_eq t tag || b) (any-contains ts tag)

-- When the tags are checked, a tag is accepted exactly if it is empty and the image has none, or if
-- it is not empty and is one of the image's.
pub check_tag_iff :
    (tag : Text) (valid_tags : List Text)
    → (check_tag true tag valid_tags ≡ ok tt)
      ↔ (((tag ≡ []) × (valid_tags ≡ [])) ⊎ ((tag ≢ []) × (contains valid_tags tag ≡ true)))
unfolding check_tag contains
check_tag_iff [] [] = (λ h. inl (refl, refl), λ k. refl)
check_tag_iff [] (t ∷ ts) = (
  λ h. ground (arith, h),
  λ k. elim k [ inl e ↦ ground (arith, e.1) | inr e ↦ absurd (e.0 refl) ],
)
check_tag_iff (c ∷ tag) [] = (
  λ h. ground (arith, h),
  λ k. elim k [ inl e ↦ ground (arith, e.0) | inr e ↦ ground (arith, e.1) ],
)
check_tag_iff (c ∷ tag) (t ∷ ts) = rw (any-contains ts (c ∷ tag)) (
  λ h. inr (λ e. ground (arith, e), ground (arith, h)),
  λ k. elim k [ inl e ↦ ground (arith, e.0) | inr e ↦ rw e.1 refl ],
)
