-- ===== src/Image/Chain.antt =====
-- What ResolveChain returns, and when it returns.
use nsbox.Base.{
  ℕ, zero, suc, List, [], ◌∷◌, ◌++◌, Bool, true, false, Option, none, some, is_empty, Result, ok,
  err, panic, ◌≡◌, ◌≢◌, ◌↔◌, inl, inr, refl, subst, arith, Bool-cases, ◌<◌,
}
use nsbox.Image.{Image, Files, open_image, append_image, with_parent, resolve_chain}

module _ (files : Files) (validate_tag : Bool) where
  -- A list of images, each the opened parent of the next, from one without a parent to the one given.
  pub data IsChain : List Image → Image → Type 0 where
    root : {img : Image} → is_empty img.parent ≡ true → IsChain (img ∷ []) img
    child :
        {img parent : Image} {chain : List Image}
        → is_empty img.parent ≡ false
        → open_image files img.parent validate_tag ≡ ok parent
        → IsChain chain parent
        → IsChain (chain ++ img ∷ []) img

  resolve_chain-child :
      (fuel : ℕ) (img : Image) {parent : Image} {chain : List Image}
      → is_empty img.parent ≡ false
      → open_image files img.parent validate_tag ≡ ok parent
      → resolve_chain files validate_tag fuel parent ≡ some (ok chain)
      → resolve_chain files validate_tag (suc fuel) img ≡ some (ok (chain ++ img ∷ []))
  unfolding resolve_chain
  resolve_chain-child fuel img p o h = rw (p, o, h) refl

  chain-resolves :
      {chain : List Image} {img : Image}
      → IsChain chain img
      → (fuel : ℕ) × (resolve_chain files validate_tag fuel img ≡ some (ok chain))
  unfolding resolve_chain
  chain-resolves (root p) = (1, rw p refl)
  chain-resolves (child {img} p o c) =
      let (fuel, h) = chain-resolves c in (suc fuel, resolve_chain-child fuel img p o h)

  append_image-inv :
      (img : Image) (r : Option (Result (List Image))) (chain : List Image)
      → append_image img r ≡ some (ok chain)
      → (before : List Image) × (r ≡ some (ok before)) × (before ++ img ∷ [] ≡ chain)
  append_image-inv img none chain h = ground (arith, h)
  append_image-inv img (some (ok before)) chain h = (before, refl, ground (arith, h))
  append_image-inv img (some (err e)) chain h = ground (arith, h)
  append_image-inv img (some (panic m)) chain h = ground (arith, h)

  resolves-IsChain :
      (fuel : ℕ) (img : Image) (chain : List Image)
      → resolve_chain files validate_tag fuel img ≡ some (ok chain)
      → IsChain chain img
  unfolding resolve_chain
  resolves-IsChain zero img chain h = ground (arith, h)
  resolves-IsChain (suc fuel) img chain h = elim (Bool-cases (is_empty img.parent)) [
    | inl p ↦ subst (λ l. IsChain l img) (ground (arith, h, p)) (root p)
    | inr p ↦
        parent-chain (λ parent before. resolves-IsChain fuel parent before) p
          (open_image files img.parent validate_tag) refl (ground (arith, h, p))
  ]
    where
      parent-chain :
          ((parent : Image) (before : List Image)
            → resolve_chain files validate_tag fuel parent ≡ some (ok before)
            → IsChain before parent)
          → is_empty img.parent ≡ false
          → (r : Result Image) → open_image files img.parent validate_tag ≡ r
          → with_parent img r (resolve_chain files validate_tag fuel) ≡ some (ok chain)
          → IsChain chain img
      parent-chain ih p (ok parent) o k =
          let (before, q, e) =
            append_image-inv img (resolve_chain files validate_tag fuel parent) chain k in
          subst (λ l. IsChain l img) e (child p o (ih parent before q))
      parent-chain ih p (err e) o k = ground (arith, k)
      parent-chain ih p (panic m) o k = ground (arith, k)

  -- ResolveChain returns a list of images, with enough fuel, exactly if the list starts at an image
  -- without a parent, each image in it is the opened parent of the next, and it ends at the image.
  pub resolve_chain_iff :
      (img : Image) (chain : List Image)
      → ((fuel : ℕ) × (resolve_chain files validate_tag fuel img ≡ some (ok chain)))
        ↔ IsChain chain img
  resolve_chain_iff img chain = (λ h. resolves-IsChain h.0 img chain h.1, chain-resolves)

  append_image-returns :
      (img : Image) (r : Option (Result (List Image))) → r ≢ none → append_image img r ≢ none
  append_image-returns img none n h = n refl
  append_image-returns img (some (ok before)) n h = ground (arith, h)
  append_image-returns img (some (err e)) n h = ground (arith, h)
  append_image-returns img (some (panic m)) n h = ground (arith, h)

  -- If a number of each image decreases from it to its parent, more fuel than that number is enough:
  -- ResolveChain returns, with a chain or an error.
  pub resolve_chain-returns :
      (rank : Image → ℕ)
      → ((img parent : Image)
          → is_empty img.parent ≡ false
          → open_image files img.parent validate_tag ≡ ok parent
          → rank parent < rank img)
      → (fuel : ℕ) (img : Image) → rank img < fuel
      → resolve_chain files validate_tag fuel img ≢ none
  unfolding resolve_chain
  resolve_chain-returns rank down zero img enough h = omega arith
  resolve_chain-returns rank down (suc fuel) img enough h =
      elim (Bool-cases (is_empty img.parent)) [
        | inl p ↦ ground (arith, h, p)
        | inr p ↦
            parent-returns p
              (λ parent o.
                resolve_chain-returns rank down fuel parent
                  (let less = down img parent p o in omega arith))
              (open_image files img.parent validate_tag) refl (ground (arith, h, p))
      ]
    where
      parent-returns :
          is_empty img.parent ≡ false
          → ((parent : Image)
              → open_image files img.parent validate_tag ≡ ok parent
              → resolve_chain files validate_tag fuel parent ≢ none)
          → (r : Result Image) → open_image files img.parent validate_tag ≡ r
          → with_parent img r (resolve_chain files validate_tag fuel) ≢ none
      parent-returns p ih (ok parent) o k =
          append_image-returns img (resolve_chain files validate_tag fuel parent) (ih parent o) k
      parent-returns p ih (err e) o k = ground (arith, k)
      parent-returns p ih (panic m) o k = ground (arith, k)

  -- ResolveChain does not return, whatever the fuel, on an image that is its own opened parent.
  pub resolve_chain-own_parent :
      (img : Image)
      → is_empty img.parent ≡ false
      → open_image files img.parent validate_tag ≡ ok img
      → (fuel : ℕ) → resolve_chain files validate_tag fuel img ≡ none
  unfolding resolve_chain
  resolve_chain-own_parent img p o zero = refl
  resolve_chain-own_parent img p o (suc fuel) =
      rw (p, o, resolve_chain-own_parent img p o fuel) refl
