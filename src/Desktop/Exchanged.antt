-- ===== src/Desktop/Exchanged.antt =====
-- UpdateDesktopFiles as a whole, with its lock.
use nsbox.Base.{ℕ, Text, List, ◌∷◌, inr, All, Option, Result, ◌≡◌, refl}
use nsbox.FilePath.{absolute_text}
use nsbox.FilePath.Joined.{IsPlain}
use nsbox.Os.{World}
use nsbox.Daemon.Direct.SudoFile.{IsHonest}
use nsbox.Container.Data.{Container}
use nsbox.Container.Lock.{no_wait_for_lock, exports_lock, lower_levels, Table, Outcome, done, lock}
use nsbox.Container.Lock.Taken.{IsWellFormed}
use nsbox.Container.Lock.Whole.{Locked, locked, not_locked, waiting, release-Took}
use nsbox.Container.Lock.Atomic.{lock-Locked}
use nsbox.Icons.{Gtk}
use nsbox.Desktop.Gather.{Visit}
use nsbox.Desktop.Update.{update_exports, under_lock, update_desktop_files}
use nsbox.Desktop.Placed.{PlacesIcons}
use nsbox.Desktop.Switched.{InUse, Switched, update_exports-Switched}

module _ (root : Text) (parents : List Text) (plain : All IsPlain (root ∷ parents)) (ct : Container)
    (place : ct.path ≡ absolute_text (root ∷ parents)) (product : Text) (gtk : Gtk)
    (places : PlacesIcons gtk) (walk : Text → List Visit) where
  -- The update returned, nobody holds another lock than before, and the exports were exchanged or kept.
  pub data Exchanged (old : Option ℕ) (b : Table) (w : World)
      : Outcome (Unit {0}) × Table × World → Type 0 where
    exchanged :
        {r : Result (Unit {0})} {t : Table} {w' : World}
        → ((p : Text) → t.holder p ≡ b.holder p)
        → Switched root parents plain ct place old w (r, w')
        → Exchanged old b w (done r, t, w')

  -- Whatever fails, UpdateDesktopFiles returns, who holds what lock is as before, and the link to the
  -- exports leads to the new ones, or the update failed and the link and all exports that it leads to
  -- are as they were. No lock is held by a descriptor to come, the container's directory is an
  -- absolute path of plain elements, the link is missing or leads to one of the two instances, no call
  -- says that a file is missing which is there, and the icons that GTK finds lie below the directories
  -- that it was given.
  pub update_desktop_files-Exchanged :
      (old : Option ℕ) (b : Table) (w : World)
      → IsWellFormed b
      → InUse root parents plain ct place old w
      → IsHonest w.faults
      → Exchanged old b w (update_desktop_files product gtk walk ct b w)
  unfolding update_desktop_files
  update_desktop_files-Exchanged old b w wf in_use h =
      go (lock ct.path exports_lock no_wait_for_lock b)
        (lock-Locked ct.path exports_lock no_wait_for_lock b wf)
    where
      go :
          (o : Outcome (List ℕ) × Table)
          → Locked no_wait_for_lock ct.path (exports_lock ∷ lower_levels exports_lock) b o
          → Exchanged old b w
              (under_lock product gtk walk ct (update_exports product gtk walk ct) w o)
      go o (locked fds t took hs) = exchanged (release-Took fds b t wf took) (
          update_exports-Switched root parents plain ct place product gtk places walk old w in_use
            h)
      go o (not_locked s) = exchanged s (inr (tt, refl, λ p h. refl))
      go o (waiting e) = absurd (cc e)
