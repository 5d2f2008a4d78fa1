-- ===== src/Desktop/Frame.antt =====
-- Building the exports touches nothing outside of their directory.
use nsbox.Base.{
  ℕ, Text, List, [], ◌∷◌, ◌++◌, codes, Bool, true, false, not, Lacks, All, has_suffix, Option, none,
  some, Result, Error, ok, err, panic, ◌≡◌, refl, ◌∙◌, arith,
}
use nsbox.FilePath.{slash, join_path, absolute_text}
use nsbox.FilePath.Rel.{rel}
use nsbox.FilePath.Joined.{IsPlain}
use nsbox.FilePath.Apart.{Apart, Apart-inside, Apart-str_eq, below_trans}
use nsbox.FilePath.Inside.{below-join_word}
use nsbox.Os.{Sys, Inode, pure, ◌>>=◌, wrapping, trying}
use nsbox.Os.Calls.{below, resolve, stat, create, write, mkdir_all, symlink}
use nsbox.Os.Frame.{
  Leaves, Leaves-syscall, Leaves->>=, Leaves-if, Leaves-stat, Leaves-create, Leaves-write,
  Leaves-mkdir_all, Leaves-symlink, read_file-keeps,
}
use nsbox.Icons.{Gtk}
use nsbox.Desktop.Entry.{
  dashed, read_opened, rewrite_line, write_lines, copy_text, copy_into, copy_named, scan_lines,
  export_desktop_file,
}
use nsbox.Desktop.Gather.{
  stem, stem, Visit, opened_or, try_patterns, add_if, visit_files, gathered, gather_desktop_files,
  export_files, export_desktop_files,
}

module _ (p path : Text) where
  pub Leaves-read_opened : Leaves p (read_opened path)
  unfolding read_opened
  Leaves-read_opened = Leaves-syscall p _ (λ w. read_file-keeps p path (w.at (resolve w path)) w)

-- Calls on a path below the directory.
module _ (dir p q : Text) (apart : Apart dir p) (inside : below dir q ≡ true) where
  pub mkdir_inside : (perm : ℕ) → Leaves p (mkdir_all q perm)
  mkdir_inside perm = Leaves-mkdir_all p q perm (Apart-inside dir p q apart inside).1

  pub create_inside : (perm : ℕ) → Leaves p (create q perm)
  create_inside perm = Leaves-create p q (Apart-str_eq q p (Apart-inside dir p q apart inside)) perm

  pub write_inside : (text : Text) → Leaves p (write q text)
  write_inside text = Leaves-write p q (Apart-str_eq q p (Apart-inside dir p q apart inside)) text

  pub symlink_inside : (target : Text) → Leaves p (symlink target q)
  symlink_inside target =
      Leaves-symlink p q (Apart-str_eq q p (Apart-inside dir p q apart inside)) target

dashed-Lacks : (s : Text) → Lacks slash (dashed s)
unfolding dashed
dashed-Lacks [] = tt
dashed-Lacks (c ∷ s) = (ground arith, dashed-Lacks s)

-- What gathering the files leaves: everything.
module _ (p : Text) where
  Leaves-try_patterns :
      (path name : Text) (patterns : List Text) → Leaves p (try_patterns path name patterns)
  unfolding try_patterns
  Leaves-try_patterns path name [] = λ w. refl
  Leaves-try_patterns path name (pattern_text ∷ patterns) =
      let later = Leaves-try_patterns path name patterns in
      Leaves-if p _ (trying (stat path) (opened_or (try_patterns path name patterns)))
        (try_patterns path name patterns)
        (λ w. after later (stat path w).0 (stat path w).1 ∙ Leaves-stat p path w) later
    where
      after :
          Leaves p (try_patterns path name patterns)
          → (r : Result Inode) → Leaves p (opened_or (try_patterns path name patterns) r)
      after later (ok i) w = refl
      after later (err e) w = later w
      after later (panic m) w = refl

  Leaves-add_if :
      (path : Text) (rest : Sys (List Text)) (taken : Bool)
      → Leaves p rest
      → Leaves p (add_if path rest taken)
  Leaves-add_if path rest true h =
      Leaves->>= p rest (λ files. pure (path ∷ files)) h (λ files w. refl)
  Leaves-add_if path rest false h = h

  Leaves-visit_files :
      (patterns : List Text) (visits : List Visit) → Leaves p (visit_files patterns visits)
  unfolding visit_files
  Leaves-visit_files patterns [] = λ w. refl
  Leaves-visit_files patterns (visit ∷ visits) = go visit.error (Leaves-visit_files patterns visits)
    where
      go :
          (e : Option Error)
          → Leaves p (visit_files patterns visits)
          → Leaves p (visit_files patterns (record visit { error = e } ∷ visits))
      go (some e) later = λ w. refl
      go none later =
          let taken_first = try_patterns visit.path (stem visit.name) patterns in
          let later_files = visit_files patterns visits in
          Leaves-if p (not (has_suffix visit.name (codes ".desktop"))) later_files
            (taken_first >>= add_if visit.path later_files) later
            (Leaves->>= p taken_first (add_if visit.path later_files)
              (Leaves-try_patterns visit.path (stem visit.name) patterns)
              (λ taken. Leaves-add_if visit.path later_files taken later))

  pub Leaves-gather :
      (walk : Text → List Visit) (patterns : List Text) (dir : Text)
      → Leaves p (gather_desktop_files walk patterns dir)
  unfolding gather_desktop_files
  Leaves-gather walk patterns dir w =
      after (visit_files patterns (walk dir) w).0 (visit_files patterns (walk dir) w).1
      ∙ Leaves-visit_files patterns (walk dir) w
    where
      after : (r : Result (List Text)) → Leaves p (gathered r)
      after (ok files) w' = refl
      after (err e) w' = ground arith
      after (panic m) w' = refl

module _ (product name : Text) (gtk : Gtk) (roots : List Text) (dir p : Text)
    (apart : Apart dir p) where
  Leaves-write_lines :
      (target : Text) (lines : List Text)
      → below dir target ≡ true
      → Leaves p (write_lines product name gtk roots target lines)
  unfolding write_lines
  Leaves-write_lines target [] inside w = refl
  Leaves-write_lines target (raw ∷ lines) inside w =
      let line = (rewrite_line product name gtk roots raw).0 ++ codes "\n" in
      Leaves->>= p (write_lines product name gtk roots target lines)
        (λ more. pure ((rewrite_line product name gtk roots raw).1 ++ more))
        (Leaves-write_lines target lines inside) (λ more v. refl) (write target line w).1
      ∙ write_inside dir p target apart inside line w

  copy_text-keeps :
      (path target : Text) (r : Result Text)
      → below dir target ≡ true
      → Leaves p (copy_text product name gtk roots path target r)
  copy_text-keeps path target (ok text) inside =
      Leaves->>= p (write_lines product name gtk roots target (scan_lines text).0) _
        (Leaves-write_lines target (scan_lines text).0 inside) (λ icons w. refl)
  copy_text-keeps path target (err e) inside = λ w. refl
  copy_text-keeps path target (panic m) inside = λ w. refl

  copy_into-keeps :
      (path target : Text) (r : Result (Unit {0}))
      → below dir target ≡ true
      → Leaves p (copy_into product name gtk roots path target r)
  copy_into-keeps path target (ok created) inside w =
      copy_text-keeps path target (read_opened path w).0 inside (read_opened path w).1
      ∙ Leaves-read_opened p path w
  copy_into-keeps path target (err e) inside w = refl
  copy_into-keeps path target (panic m) inside w = refl

-- The applications directory is the second one below the directory of the exports.
module _ (product name : Text) (gtk : Gtk) (roots : List Text) (root : Text) (parents : List Text)
    (plain : All IsPlain (root ∷ parents)) (last : Text) (last_plain : IsPlain last) (dir p : Text)
    (apart : Apart dir p) (around : below dir (absolute_text (root ∷ parents)) ≡ true) where
  abbrev pub applications_text : Text
  applications_text = absolute_text ((root ∷ parents) ++ last ∷ [])

  copy_named-keeps :
      (path : Text) (r : Result Text)
      → Leaves p (copy_named product name gtk roots applications_text path r)
  copy_named-keeps path (ok relative) w =
      let target = join_path (applications_text ∷ dashed relative ∷ []) in
      let inside = below_trans dir (absolute_text (root ∷ parents)) target around (
        below-join_word root parents last (dashed relative) plain last_plain
          (dashed-Lacks relative)) in
      copy_into-keeps product name gtk roots dir p apart path target (create target 438 w).0 inside
        (create target 438 w).1
      ∙ create_inside dir p target apart inside 438 w
  copy_named-keeps path (err e) w = refl
  copy_named-keeps path (panic m) w = refl

  Leaves-export_files :
      (source : Text) (paths : List Text)
      → Leaves p (export_files product name gtk roots applications_text source paths)
  unfolding export_files export_desktop_file
  Leaves-export_files source [] = λ w. refl
  Leaves-export_files source (path ∷ paths) =
      Leaves->>= p (export_desktop_file product name gtk roots applications_text source path)
        (λ exported. export_files product name gtk roots applications_text source paths >>= λ more.
          pure (exported.0 ++ more))
        (copy_named-keeps path (rel source path))
        (λ exported.
          Leaves->>= p (export_files product name gtk roots applications_text source paths)
            (λ more. pure (exported.0 ++ more)) (Leaves-export_files source paths) (λ more w. refl))

  pub Leaves-export_desktop_files :
      (walk : Text → List Visit) (patterns : List Text) (source : Text)
      → Leaves p
          (export_desktop_files product name gtk roots applications_text walk patterns source)
  unfolding export_desktop_files
  Leaves-export_desktop_files walk patterns source =
      Leaves->>= p (wrapping (codes "gathering files") (gather_desktop_files walk patterns source))
        (export_files product name gtk roots applications_text source)
        (Leaves-gather p walk patterns source) (λ paths. Leaves-export_files source paths)
