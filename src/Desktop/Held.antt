-- ===== src/Desktop/Held.antt =====
-- What an exported desktop file holds when its export succeeds.
use nsbox.Base.{
  Text, List, [], All, Result, err, panic, ◌∙◌, ◌∷◌, ◌++◌, codes, false, map, Option, none, some,
  ok, ◌≡◌, refl, sym, ap, subst, append_assoc, append-nil, str_eq, str_eq_refl,
}
use nsbox.FilePath.{join_path}
use nsbox.FilePath.Rel.{rel}
use nsbox.Os.{file, Inode, World, continue, pure, syscall, update}
use nsbox.Os.Calls.{resolve, create, cut, write}
use nsbox.Os.Results.{Holds}
use nsbox.Icons.{Icon, Gtk}
use nsbox.Desktop.Entry.{
  rewrite_line, write_lines, scan_lines, read_opened, dashed, export_desktop_file, stopped_error,
}
use nsbox.Desktop.Lines.{RunsInside}

-- A line break behind each line.
pub unlines : List Text → Text
unlines [] = []
unlines (line ∷ lines) = line ++ (codes "\n" ++ unlines lines)

unlines_nil : unlines [] ≡ []
unfolding unlines
unlines_nil = refl

unlines-concat :
    (lines : List Text) (line : Text)
    → unlines (lines ++ line ∷ []) ≡ unlines lines ++ (line ++ codes "\n")
unfolding unlines
unlines-concat [] line = refl
unlines-concat (l ∷ lines) line =
    ap (λ t. l ++ (codes "\n" ++ t)) (unlines-concat lines line)
    ∙ sym (append_assoc l (codes "\n" ++ unlines lines) (line ++ codes "\n"))

-- A program that ends in a value made of another's leaves the same world.
world-continue {ℓ κ} :
    {A : Type ℓ} {B : Type κ} (g : A → B) (r : Result A) (w : World)
    → (continue r (λ a. pure (g a)) w).1 ≡ w
world-continue g (ok a) w = refl
world-continue g (err e) w = refl
world-continue g (panic m) w = refl

module _ (product name : Text) (gtk : Gtk) (roots : List Text) where
  abbrev line_of : Text → Text
  line_of raw = (rewrite_line product name gtk roots raw).0

  write_lines-Holds :
      (target : Text) (lines done : List Text) (at : Text → Option Inode)
      → Holds (unlines done) (at target)
      → Holds (unlines (done ++ map line_of lines)) (
          (write_lines product name gtk roots target lines (record { at = at; faults = [] })).1.at
            target)
  unfolding write_lines write cut syscall
  write_lines-Holds target [] done at h = rw append-nil h
  write_lines-Holds target (raw ∷ lines) done at (i, e, n) =
      let text = unlines done ++ (line_of raw ++ codes "\n") in
      let here = some (record i { node = file text }) in
      let rest =
        write_lines product name gtk roots target lines
          (record { at = update at target here; faults = [] }) in
      rw (e, n)
        (subst
          (λ (v : World). Holds (unlines (done ++ line_of raw ∷ map line_of lines)) (v.at target))
          (sym (
            world-continue (λ more. (rewrite_line product name gtk roots raw).1 ++ more) rest.0
              rest.1))
          (subst (λ ls. Holds (unlines ls) (rest.1.at target))
            (append_assoc done (line_of raw ∷ []) (map line_of lines))
            (write_lines-Holds target lines (done ++ line_of raw ∷ []) (update at target here) (
              record i { node = file text },
              rw str_eq_refl refl,
              ap file (sym (unlines-concat done (line_of raw))),
            ))))

  read_opened-file :
      (path text : Text) (at : Text → Option Inode)
      → Holds text (at path)
      → read_opened path (record { at = at; faults = [] })
        ≡ (ok text, record { at = at; faults = [] })
  unfolding read_opened syscall resolve
  read_opened-file path text at (i, e, n) = rw (e, n, e, n) refl

  -- If no call fails for a reason of its own and no exported file of the name is there yet, the
  -- exported file holds each line of the desktop file that the scanner comes to, rewritten, in order.
  -- The desktop file is a regular one at a path of its own.
  pub export_desktop_file-Holds :
      (applications source path relative text : Text) (at : Text → Option Inode)
      → rel source path ≡ ok relative
      → at (join_path (applications ∷ dashed relative ∷ [])) ≡ none
      → Holds text (at path)
      → str_eq (join_path (applications ∷ dashed relative ∷ [])) path ≡ false
      → Holds (unlines (map line_of (scan_lines text).0)) (
          (export_desktop_file product name gtk roots applications source path
              (record { at = at; faults = [] })).1.at
            (join_path (applications ∷ dashed relative ∷ [])))
  unfolding export_desktop_file create syscall
  export_desktop_file-Holds applications source path relative text at e absent (i, f, n) other =
      let target = join_path (applications ∷ dashed relative ∷ []) in
      let fresh : Inode = record { node = file []; uid = 0; gid = 0; mode = 438 } in
      let at' = update at target (some fresh) in
      let written =
        write_lines product name gtk roots target (scan_lines text).0
          (record { at = at'; faults = [] }) in
      rw (e, absent, read_opened-file path text at' (i, rw other f, n))
        (subst (λ (v : World). Holds (unlines (map line_of (scan_lines text).0)) (v.at target))
          (sym (
            world-continue
              (λ (icons : List Icon).
                (icons, stopped_error product name gtk roots path (scan_lines text).1))
              written.0 written.1))
          (write_lines-Holds target (scan_lines text).0 [] at'
            (fresh, rw str_eq_refl refl, ap file (sym unlines_nil))))

  -- A file of lines whose commands run in the container.
  abbrev pub IsMade : Option Inode → Type 0
  IsMade o =
      (lines : List Text) × All (RunsInside product name gtk roots) lines × Holds (unlines lines) o
