-- ===== src/Desktop/Stuck.antt =====
-- What a first link that was left behind does to UpdateDesktopFiles.
use nsbox.Base.{
  ℕ, Text, List, Bool, true, false, [], ◌∷◌, codes, All, Option, none, some, Result, Errno, ok, err,
  panic, wrap_err, ◌≡◌, refl, ◌∙◌,
}
use nsbox.FilePath.{absolute_text}
use nsbox.FilePath.Joined.{IsPlain}
use nsbox.Os.{Inode, World, continue, ◌>>◌, wrapping, syscall}
use nsbox.Os.Calls.{symlink, rename}
use nsbox.Os.Results.{Fails}
use nsbox.Container.Data.{Container}
use nsbox.Container.Files.{exports_link, exports_instance}
use nsbox.Icons.{Gtk}
use nsbox.Desktop.Gather.{Visit}
use nsbox.Desktop.Update.{
  read_exports_id, new_instance, build_exports, switch_exports, delete_old, update_exports,
}
use nsbox.Desktop.Placed.{PlacesIcons}
use nsbox.Desktop.Switched.{new_link-Apart, Leaves-build}
use nsbox.Desktop.Turned.{Leaves-read_exports_id}

-- A link is not made where something stands.
symlink_taken :
    (target path : Text) (i : Inode) (w : World)
    → w.at path ≡ some i
    → Fails (symlink target path w).0 × ((p : Text) → (symlink target path w).1.at p ≡ w.at p)
unfolding symlink syscall
symlink_taken target path i w e = go w.faults
  where
    go :
        (faults : List (Option Errno))
        → Fails (symlink target path (record { at = w.at; faults = faults })).0
          × ((p : Text)
              → (symlink target path (record { at = w.at; faults = faults })).1.at p ≡ w.at p)
    go [] = rw e (tt, λ p. refl)
    go (none ∷ faults) = rw e (tt, λ p. refl)
    go (some x ∷ faults) = (tt, λ p. refl)

-- A failure that leaves two paths as they are.
abbrev pub Stays : Text → Text → World → Result (Unit {0}) × World → Type 0
Stays p q w r = Fails r.0 × (r.1.at p ≡ w.at p) × (r.1.at q ≡ w.at q)

module _ (root : Text) (parents : List Text) (plain : All IsPlain (root ∷ parents)) (ct : Container)
    (place : ct.path ≡ absolute_text (root ∷ parents)) (product : Text) (gtk : Gtk)
    (places : PlacesIcons gtk) (walk : Text → List Visit) where
  abbrev Same : World → World → Type 0
  Same w w' =
      (w'.at (exports_link ct true) ≡ w.at (exports_link ct true))
      × (w'.at (exports_link ct false) ≡ w.at (exports_link ct false))

  abbrev Stuck : World → Result (Unit {0}) × World → Type 0
  Stuck w r = Stays (exports_link ct true) (exports_link ct false) w r

  switch-Stuck :
      (o : Option ℕ) (i : Inode) (w w' : World)
      → w.at (exports_link ct true) ≡ some i
      → Same w w'
      → Stuck w (switch_exports product gtk walk ct o (new_instance o) w')
  unfolding switch_exports
  switch-Stuck o i w w' e same =
      let dir = exports_instance ct (new_instance o) in
      let (f, k) = symlink_taken dir (exports_link ct true) i w' (same.0 ∙ e) in
      go (symlink dir (exports_link ct true) w').0 (symlink dir (exports_link ct true) w').1 f k
    where
      go :
          (r : Result (Unit {0})) (w'' : World)
          → Fails r
          → ((p : Text) → w''.at p ≡ w'.at p)
          → Stuck w (
              continue
                (wrap_err (codes "failed to symlink new instance dir") r)
                (λ _.
                  wrapping
                    (codes "failed to rename onto new instance dir")
                    (rename (exports_link ct true) (exports_link ct false))
                  >> delete_old product gtk walk ct o)
                w'')
      go (ok a) w'' f k = absurd f
      go (err x) w'' f k =
          (tt, k (exports_link ct true) ∙ same.0, k (exports_link ct false) ∙ same.1)
      go (panic m) w'' f k =
          (tt, k (exports_link ct true) ∙ same.0, k (exports_link ct false) ∙ same.1)

  module _ (i : Inode) (w : World) (e : w.at (exports_link ct true) ≡ some i) where
    after_build :
        (o : Option ℕ) (r : Result (Unit {0})) (w' : World)
        → Same w w'
        → Stuck w (continue r (λ _. switch_exports product gtk walk ct o (new_instance o)) w')
    after_build o (ok a) w' same = switch-Stuck o i w w' e same
    after_build o (err x) w' same = (tt, same.0, same.1)
    after_build o (panic m) w' same = (tt, same.0, same.1)

    after_read :
        (r : Result (Option ℕ)) (w' : World)
        → Same w w'
        → Stuck w (
            continue r
              (λ o.
                build_exports product gtk walk ct (new_instance o)
                >> switch_exports product gtk walk ct o (new_instance o))
              w')
    after_read (ok o) w' same =
        let keeps = λ (temp : Bool).
          Leaves-build root parents plain ct place product gtk places walk o (exports_link ct temp)
            (new_link-Apart root parents plain ct place o temp) w' in
        after_build o (build_exports product gtk walk ct (new_instance o) w').0
          (build_exports product gtk walk ct (new_instance o) w').1
          (keeps true ∙ same.0, keeps false ∙ same.1)
    after_read (err x) w' same = (tt, same.0, same.1)
    after_read (panic m) w' same = (tt, same.0, same.1)

    -- Where something stands at the path of the link that is made first, UpdateDesktopFiles fails,
    -- whatever else fails, and leaves both that and the link to the exports as they are, so that each
    -- later update fails as well. The container's directory is an absolute path of plain elements and
    -- the icons that GTK finds lie below the directories that it was given.
    pub update_exports-Stays :
        Stays
          (exports_link ct true)
          (exports_link ct false)
          w
          (update_exports product gtk walk ct w)
    unfolding update_exports
    update_exports-Stays =
        after_read (read_exports_id (exports_link ct false) w).0
          (read_exports_id (exports_link ct false) w).1
          (
            Leaves-read_exports_id (exports_link ct true) (exports_link ct false) w,
            Leaves-read_exports_id (exports_link ct false) (exports_link ct false) w,
          )
