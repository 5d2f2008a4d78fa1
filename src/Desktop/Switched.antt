-- ===== src/Desktop/Switched.antt =====
-- The exports of a container are exchanged as a whole: until the link leads to the new ones, the link
-- and the old ones are as they were.
use nsbox.Base.{
  Bool, ℕ, Text, List, ◌∷◌, true, false, All, Option, none, some, Result, ok, err, panic, ◌≡◌, ◌⊎◌,
  inl, inr, refl, ◌∙◌, sym, subst, str_eq,
}
use nsbox.FilePath.{absolute_text}
use nsbox.FilePath.Joined.{IsPlain}
use nsbox.FilePath.Apart.{Apart, Apart-sym, Apart-below, Apart-str_eq}
use nsbox.Os.{World, Sys, continue, ◌>>◌}
use nsbox.Os.Calls.{below}
use nsbox.Os.Frame.{Leaves, Leaves-remove_all}
use nsbox.Os.Results.{Fails}
use nsbox.Os.Yields.{Got}
use nsbox.Daemon.Direct.SudoFile.{IsHonest}
use nsbox.Inventory.Default.{IsLinkTo}
use nsbox.Container.Data.{Container}
use nsbox.Container.Files.{exports_link, exports_instance}
use nsbox.Icons.{Gtk}
use nsbox.Desktop.Gather.{Visit}
use nsbox.Desktop.Update.{
  read_exports_id, new_instance, build_exports, delete_old, switch_exports, update_exports,
}
use nsbox.Desktop.Placed.{PlacesIcons}
use nsbox.Desktop.Built.{instance_name, exports_instance-eq, Leaves-build_exports}
use nsbox.Desktop.Names.{
  link_element, beside, new_instance-IsPlain, zero-IsPlain, one-IsPlain, new-Apart-link,
  links-Apart, IsInstance, instance-Apart-link, new-Apart-old, exports_link-eq, exports_id-instance,
}
use nsbox.Desktop.Turned.{Turned, turned, read_id, Leaves-read_exports_id}

module _ (root : Text) (parents : List Text) (plain : All IsPlain (root ∷ parents)) (ct : Container)
    (place : ct.path ≡ absolute_text (root ∷ parents)) where
  -- The exports in use: none, or one of the two instances, to which the link leads.
  abbrev pub InUse : Option ℕ → World → Type 0
  InUse none w = w.at (exports_link ct false) ≡ none
  InUse (some n) w =
      IsInstance root parents n × IsLinkTo (exports_instance ct n) (w.at (exports_link ct false))

  abbrev pub IsOld : Option ℕ → Text → Type 0
  IsOld none p = ⊥
  IsOld (some n) p = below (exports_instance ct n) p ≡ true

  -- The link leads to the new instance, or the program failed and the link and the exports that it
  -- leads to are as they were.
  abbrev pub Switched : Option ℕ → World → Result (Unit {0}) × World → Type 0
  Switched old w r =
      IsLinkTo (exports_instance ct (new_instance old)) (r.1.at (exports_link ct false))
      ⊎ (Fails r.0
          × (r.1.at (exports_link ct false) ≡ w.at (exports_link ct false))
          × ((p : Text) → IsOld old p → r.1.at p ≡ w.at p))

  instance-at :
      (n : ℕ)
      → IsInstance root parents n
      → exports_instance ct n ≡ beside root parents (instance_name n)
  instance-at n (inl e) = rw e (exports_instance-eq ct root parents 0 plain place zero-IsPlain)
  instance-at n (inr e) = rw e (exports_instance-eq ct root parents 1 plain place one-IsPlain)

  new-at :
      (old : Option ℕ)
      → exports_instance ct (new_instance old)
        ≡ beside root parents (instance_name (new_instance old))
  new-at old =
      exports_instance-eq ct root parents (new_instance old) plain place (new_instance-IsPlain old)

  link-at : (temp : Bool) → exports_link ct temp ≡ beside root parents (link_element temp)
  link-at temp = exports_link-eq root parents plain ct place temp

  read_exports_id-InUse :
      (old : Option ℕ) (w : World)
      → InUse old w
      → IsHonest w.faults
      → Got (λ o. o ≡ old) (read_exports_id (exports_link ct false) w).0
  read_exports_id-InUse none w e h = read_id (exports_link ct false) none w h (λ w'. rw e refl)
  read_exports_id-InUse (some n) w (is, (i, e, k)) h =
      read_id (exports_link ct false) (some n) w h (λ w'.
        rw
          (e, k, instance-at n is, exports_id-instance root parents (exports_link ct false) n w' is)
          refl)

  pub new_link-Apart :
      (old : Option ℕ) (temp : Bool)
      → Apart (exports_instance ct (new_instance old)) (exports_link ct temp)
  new_link-Apart old temp = rw (new-at old, link-at temp) (new-Apart-link root parents old temp)

  old_link-Apart :
      (n : ℕ) (temp : Bool)
      → IsInstance root parents n
      → Apart (exports_instance ct n) (exports_link ct temp)
  old_link-Apart n temp is =
      rw (instance-at n is, link-at temp) (instance-Apart-link root parents n temp is)

  pub temp_active : str_eq (exports_link ct true) (exports_link ct false) ≡ false
  temp_active = rw (link-at true, link-at false) (Apart-str_eq _ _ (links-Apart root parents))

  -- The old exports are apart from the new ones and from the first link.
  old_new-Apart :
      (old : Option ℕ) (w : World) (p : Text)
      → InUse old w
      → IsOld old p
      → Apart (exports_instance ct (new_instance old)) p
  old_new-Apart none w p use_ h = absurd h
  old_new-Apart (some n) w p (is, l) h =
      Apart-below (exports_instance ct (new_instance (some n))) (exports_instance ct n) p
        (rw (new-at (some n), instance-at n is) (new-Apart-old root parents n is)) h

  old_temp :
      (old : Option ℕ) (w : World) (p : Text)
      → InUse old w
      → IsOld old p
      → str_eq (exports_link ct true) p ≡ false
  old_temp none w p use_ h = absurd h
  old_temp (some n) w p (is, l) h = Apart-str_eq (exports_link ct true) p (
      Apart-below (exports_link ct true) (exports_instance ct n) p
        (Apart-sym _ _ (old_link-Apart n true is)) h)

  module _ (product : Text) (gtk : Gtk) (places : PlacesIcons gtk) (walk : Text → List Visit) where
    Leaves-delete_old :
        (old : Option ℕ) (w : World)
        → InUse old w
        → Leaves (exports_link ct false) (delete_old product gtk walk ct old)
    Leaves-delete_old none w in_use = λ w'. refl
    Leaves-delete_old (some n) w (is, l) =
        Leaves-remove_all (exports_link ct false) (exports_instance ct n)
          (old_link-Apart n false is).0

    pub Leaves-build :
        (old : Option ℕ) (p : Text)
        → Apart (exports_instance ct (new_instance old)) p
        → Leaves p (build_exports product gtk walk ct (new_instance old))
    Leaves-build old p h =
        Leaves-build_exports product gtk places walk ct root parents plain place (new_instance old)
          (new_instance-IsPlain old) p (subst (λ d. Apart d p) (new-at old) h)

    switch-Turned :
        (old : Option ℕ) (w w' : World)
        → InUse old w
        → Turned
            (exports_instance ct (new_instance old))
            (exports_link ct true)
            (exports_link ct false)
            w'
            (switch_exports product gtk walk ct old (new_instance old) w')
    unfolding switch_exports
    switch-Turned old w w' in_use =
        turned (exports_instance ct (new_instance old)) (exports_link ct true)
          (exports_link ct false) temp_active (delete_old product gtk walk ct old)
          (Leaves-delete_old old w in_use) w'

    module _ (old : Option ℕ) (w : World) (in_use : InUse old w) where
      -- What both the link and the old exports are.
      abbrev IsKept : World → Type 0
      IsKept w' =
          (p : Text)
          → Apart (exports_instance ct (new_instance old)) p
          → str_eq (exports_link ct true) p ≡ false
          → w'.at p ≡ w.at p

      kept_both :
          (r : Result (Unit {0})) (w' : World) → Fails r → IsKept w' → Switched old w (r, w')
      kept_both r w' f k = inr (
        f,
        k (exports_link ct false) (new_link-Apart old false) temp_active,
        λ p h. k p (old_new-Apart old w p in_use h) (old_temp old w p in_use h),
      )

      switched :
          (w' : World) (r : Result (Unit {0}) × World)
          → IsKept w'
          → Turned
              (exports_instance ct (new_instance old))
              (exports_link ct true)
              (exports_link ct false)
              w'
              r
          → Switched old w r
      switched w' r k (inl l) = inl l
      switched w' r k (inr (f, same)) = kept_both r.0 r.1 f (λ p a t. same p t ∙ k p a t)

      after_build :
          (r : Result (Unit {0})) (w' : World)
          → IsKept w'
          → Switched old w
              (continue r (λ _. switch_exports product gtk walk ct old (new_instance old)) w')
      after_build (ok a) w' k =
          switched w' (switch_exports product gtk walk ct old (new_instance old) w') k
            (switch-Turned old w w' in_use)
      after_build (err e) w' k = kept_both (err e) w' tt k
      after_build (panic m) w' k = kept_both (panic m) w' tt k

      abbrev build_and_switch : Option ℕ → Sys (Unit {0})
      build_and_switch o =
          build_exports product gtk walk ct (new_instance o)
          >> switch_exports product gtk walk ct o (new_instance o)

      after_read :
          (r : Result (Option ℕ)) (w' : World)
          → Got (λ o. o ≡ old) r
          → ((p : Text) → w'.at p ≡ w.at p)
          → Switched old w (continue r build_and_switch w')
      after_read (ok o) w' e same =
          subst (λ x. Switched old w (build_and_switch x w')) (sym e)
            (after_build (build_exports product gtk walk ct (new_instance old) w').0
              (build_exports product gtk walk ct (new_instance old) w').1
              (λ p a t. Leaves-build old p a w' ∙ same p))
      after_read (err x) w' e same = kept_both (err x) w' tt (λ p a t. same p)
      after_read (panic m) w' e same = kept_both (panic m) w' tt (λ p a t. same p)

    pub update_exports-Switched :
        (old : Option ℕ) (w : World)
        → InUse old w
        → IsHonest w.faults
        → Switched old w (update_exports product gtk walk ct w)
    unfolding update_exports
    update_exports-Switched old w in_use h =
        after_read old w in_use (read_exports_id (exports_link ct false) w).0
          (read_exports_id (exports_link ct false) w).1 (read_exports_id-InUse old w in_use h)
          (λ p. Leaves-read_exports_id p (exports_link ct false) w)
