-- ===== src/Desktop/Turned.antt =====
-- The steps of the exchange: reading the link, and turning it to another directory.
use nsbox.Base.{
  arith, eexist, ewouldblock, eperm, other, ℕ, Text, List, [], ◌∷◌, codes, false, Option, none,
  some, Result, Errno, enoent, ok, err, panic, errno, wrap_err, ◌≡◌, ◌≢◌, ◌⊎◌, inl, inr, refl, ◌∙◌,
  str_eq,
}
use nsbox.Os.{World, Sys, continue, ◌>>◌, wrapping, syscall}
use nsbox.Os.Calls.{readlink, read_link, symlink, rename}
use nsbox.Os.Frame.{Leaves, Leaves-readlink, Leaves-symlink}
use nsbox.Os.Results.{Fails, Renamed, rename-Renamed}
use nsbox.Os.Yields.{Got}
use nsbox.Daemon.Direct.SudoFile.{IsHonest}
use nsbox.Inventory.Default.{IsLinkTo, symlink-IsLinkTo}
use nsbox.Desktop.Update.{exports_id, read_exports_id}

-- The link leads to the directory, or the program failed and each path but the first link is as it was.
abbrev pub Turned : Text → Text → Text → World → Result (Unit {0}) × World → Type 0
Turned dir temp active w r =
    IsLinkTo dir (r.1.at active)
    ⊎ (Fails r.0 × ((p : Text) → str_eq temp p ≡ false → r.1.at p ≡ w.at p))

module _ (dir temp active : Text) (apart : str_eq temp active ≡ false) (last : Sys (Unit {0}))
    (kept : Leaves active last) where
  abbrev renaming : Sys (Unit {0})
  renaming = wrapping (codes "failed to rename onto new instance dir") (rename temp active)

  after_rename :
      (r : Result (Unit {0})) (w w' : World)
      → Renamed temp active w (r, w')
      → IsLinkTo dir (w.at temp)
      → Turned dir temp active w
          (continue (wrap_err (codes "failed to rename onto new instance dir") r) (λ _. last) w')
  after_rename (ok a) w w' (inl (o, there)) (i, e, k) = inl (i, kept w' ∙ there ∙ e, k)
  after_rename (ok a) w w' (inr (f, same)) l = absurd f
  after_rename (err x) w w' (inl (o, there)) l = cc
  after_rename (err x) w w' (inr (f, same)) l = inr (tt, λ p h. same p)
  after_rename (panic m) w w' (inl (o, there)) l = cc
  after_rename (panic m) w w' (inr (f, same)) l = inr (tt, λ p h. same p)

  after_symlink :
      (r : Result (Unit {0})) (w w' : World)
      → IsLinkTo dir (w'.at temp) ⊎ Fails r
      → ((p : Text) → str_eq temp p ≡ false → w'.at p ≡ w.at p)
      → Turned dir temp active w (
          continue
            (wrap_err (codes "failed to symlink new instance dir") r)
            (λ _. renaming >> last)
            w')
  after_symlink (ok a) w w' (inl l) same =
      elim (after_rename (rename temp active w').0 w' (rename temp active w').1
        (rename-Renamed temp active w') l) [
          | inl done ↦ inl done
          | inr (f, k) ↦ inr (f, λ p h. k p h ∙ same p h)
        ]
  after_symlink (ok a) w w' (inr f) same = absurd f
  after_symlink (err x) w w' h same = inr (tt, same)
  after_symlink (panic m) w w' h same = inr (tt, same)

  pub turned :
      (w : World)
      → Turned dir temp active w (
          (wrapping (codes "failed to symlink new instance dir") (symlink dir temp)
              >> (renaming >> last))
            w)
  turned w =
      after_symlink (symlink dir temp w).0 w (symlink dir temp w).1 (symlink-IsLinkTo dir temp w)
        (λ p h. Leaves-symlink p temp h dir w)

-- What reading the link answers, if it does.
module _ (path : Text) (old : Option ℕ) where
  honest_error :
      (x : Errno) (w : World)
      → some x ≢ some enoent
      → Got (λ o. o ≡ old) (exports_id path (err (errno x)) w).0
  honest_error enoent w h = absurd (h refl)
  honest_error eexist w h = tt
  honest_error ewouldblock w h = tt
  honest_error eperm w h = tt
  honest_error (other n) w h = tt

  pub read_id :
      (w : World)
      → IsHonest w.faults
      → ((w' : World)
          → Got
              (λ o. o ≡ old)
              (exports_id path (read_link (w.at path) w').0 (read_link (w.at path) w').1).0)
      → Got (λ o. o ≡ old) (read_exports_id path w).0
  unfolding read_exports_id readlink syscall
  read_id w h known = go w.faults h
    where
      go :
          (faults : List (Option Errno))
          → IsHonest faults
          → Got (λ o. o ≡ old) (read_exports_id path (record { at = w.at; faults = faults })).0
      go [] h = known (record { at = w.at; faults = [] })
      go (none ∷ faults) h = known (record { at = w.at; faults = faults })
      go (some x ∷ faults) h = honest_error x (record { at = w.at; faults = faults }) h.0

exports_id-keeps : (p path : Text) (r : Result Text) → Leaves p (exports_id path r)
exports_id-keeps p path (ok target) w = ground arith
exports_id-keeps p path (err e) w = ground arith
exports_id-keeps p path (panic m) w = refl

pub Leaves-read_exports_id : (p path : Text) → Leaves p (read_exports_id path)
unfolding read_exports_id
Leaves-read_exports_id p path w =
    exports_id-keeps p path (readlink path w).0 (readlink path w).1 ∙ Leaves-readlink p path w
