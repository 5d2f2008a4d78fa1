-- ===== src/Desktop/Gather.antt =====
-- internal/integration/xdgdesktop.go, gatherDesktopFiles and exportDesktopFiles. The files that
-- filepath.Walk visits are a parameter.
use nsbox.Base.{
  Text, List, [], ◌∷◌, ◌++◌, codes, Bool, true, false, not, ◌-◌, take, length, has_suffix,
  if◌then◌else◌, Option, none, some, Result, Error, ok, err, panic, wrap,
}
use nsbox.FilePath.Glob.{match_path}
use nsbox.Os.{Inode, Sys, pure, raise, crash, ◌>>=◌, wrapping, trying, is_not_exist}
use nsbox.Os.Calls.{stat}
use nsbox.Icons.{Icon, Gtk}
use nsbox.Desktop.Entry.{export_desktop_file}

-- A call of the function that filepath.Walk is given, in their order.
pub record Visit : Type 0 where
  pub path : Text
  pub name : Text
  pub error : Option Error

abbrev desktop_suffix : Text
desktop_suffix = codes ".desktop"

-- The name without the suffix.
abbrev pub stem : Text → Text
stem name = take (length name - length desktop_suffix) name

-- os.Open: a file that cannot be opened is tried again with the next pattern.
abbrev pub opened_or : Sys Bool → Result Inode → Sys Bool
opened_or rest (ok i) = pure true
opened_or rest (err e) = rest
opened_or rest (panic m) = crash m

-- Whether a pattern matches, and the file was opened for it.
unfoldable pub try_patterns : Text → Text → List Text → Sys Bool
try_patterns path name [] = pure false
try_patterns path name (pattern_text ∷ patterns) =
    let rest = try_patterns path name patterns in
    if match_path pattern_text name then trying (stat path) (opened_or rest) else rest

abbrev pub add_if : Text → Sys (List Text) → Bool → Sys (List Text)
add_if path rest true = rest >>= λ files. pure (path ∷ files)
add_if path rest false = rest

unfoldable pub visit_files : List Text → List Visit → Sys (List Text)
unfolding try_patterns
visit_files patterns [] = pure []
visit_files patterns (visit ∷ visits) =
    let rest = visit_files patterns visits in
    elim visit.error [
      | some e ↦ raise e
      | none ↦
          if not (has_suffix visit.name desktop_suffix)
          then rest
          else (try_patterns visit.path (stem visit.name) patterns >>= add_if visit.path rest)
    ]

-- A directory that is not there has no files.
abbrev pub gathered : Result (List Text) → Sys (List Text)
gathered (ok files) = pure files
gathered (err e) =
    if is_not_exist e then pure [] else raise (wrap e (codes "walking desktop files"))
gathered (panic m) = crash m

unfoldable pub gather_desktop_files : (Text → List Visit) → List Text → Text → Sys (List Text)
unfolding visit_files
gather_desktop_files walk patterns dir = trying (visit_files patterns (walk dir)) gathered

-- Each file in turn; an error of one is logged.
module _ (product name : Text) (gtk : Gtk) (roots : List Text) (applications : Text) where
  unfoldable pub export_files : Text → List Text → Sys (List Icon)
  export_files dir [] = pure []
  export_files dir (path ∷ paths) =
      let rest = export_files dir paths in
      export_desktop_file product name gtk roots applications dir path
      >>= λ (exported : List Icon × Result (Unit {0})). rest >>= λ more. pure (exported.0 ++ more)

  unfoldable pub export_desktop_files : (Text → List Visit) → List Text → Text → Sys (List Icon)
  unfolding export_files gather_desktop_files
  export_desktop_files walk patterns dir =
      wrapping (codes "gathering files") (gather_desktop_files walk patterns dir)
      >>= export_files dir
