-- ===== src/Desktop/Entry.antt =====
-- internal/integration/xdgdesktop.go, exportDesktopFile: one desktop file, line by line.
use nsbox.Base.{
  ℕ, ◌+◌, Text, List, [], ◌∷◌, ◌++◌, codes, Bool, true, false, ◌||◌, ◌==◌, ltb, leb, is_empty, map,
  has_prefix, str_eq, split, split_once, if◌then◌else◌, Option, none, some, Result, ok, err, panic,
  errorf, wrap,
}
use mathlib.Core.List.{reverse}
use nsbox.FilePath.{slash, join_path}
use nsbox.FilePath.Rel.{rel}
use nsbox.Os.{Sys, pure, crash, ◌>>=◌, trying, syscall}
use nsbox.Os.Calls.{content, resolve, create, write}
use nsbox.Userdata.Account.{trim_space}
use nsbox.Icons.{scalable, pixels, Icon, Gtk, find_icon}

-- The bytes of a character.
abbrev utf8_width : ℕ → ℕ
utf8_width c = if ltb c 128 then 1 else if ltb c 2048 then 2 else if ltb c 65536 then 3 else 4

unfoldable pub byte_length : Text → ℕ
byte_length [] = 0
byte_length (c ∷ s) = utf8_width c + byte_length s

-- A line that fills the buffer of a bufio.Scanner.
unfoldable pub too_long : Text → Bool
unfolding byte_length
too_long line = leb 65536 (byte_length line)

abbrev drop_first_cr : Text → Text
drop_first_cr [] = []
drop_first_cr (c ∷ s) = if c == b'\r' then s else c ∷ s

unfoldable pub drop_cr : Text → Text
drop_cr line = reverse (drop_first_cr (reverse line))

-- bufio.Scanner over lines: the lines, and whether it stopped at one that is too long.
unfoldable pub scan_parts : List Text → List Text × Bool
scan_parts [] = ([], false)
scan_parts (part ∷ []) =
    if is_empty part
    then ([], false)
    else if too_long part
    then ([], true)
    else (drop_cr part ∷ [], false)
scan_parts (part ∷ later ∷ parts) =
    let (lines, stopped) = scan_parts (later ∷ parts) in
    if too_long part then ([], true) else (drop_cr part ∷ lines, stopped)

unfoldable pub scan_lines : Text → List Text × Bool
unfolding scan_parts too_long drop_cr
scan_lines text = scan_parts (split b'\n' text)

-- strings.ReplaceAll(s, "/", "-")
unfoldable pub dashed : Text → Text
dashed s = map (λ c. if c == slash then b'-' else c) s

-- What the file holds that is opened at the path, through a link.
unfoldable pub read_opened : Text → Sys Text
unfolding syscall
read_opened path = syscall (λ w. content (w.at (resolve w path)) w)

-- The path of the only icon, if it has the size 0.
unfoldable pub unthemed : List Icon → Option Text
unthemed [] = none
unthemed (icon ∷ []) = elim icon.size [
  | scalable ↦ none
  | pixels n ↦ if n == 0 then some icon.path else none
]
unthemed (icon ∷ other ∷ icons) = none

-- The line of a file and the icons that it adds.
abbrev pub Rewritten : Type 0
Rewritten = Text × List Icon

abbrev pub or_themed : Option Text → List Icon → Rewritten → Rewritten
or_themed (some path) icons rest = (codes "Icon=" ++ path, [])
or_themed none icons (line, more) = (line, icons ++ more)

module _ (product name : Text) (gtk : Gtk) (roots : List Text) where
  -- The command runs in the container of this name.
  unfoldable pub exec_line : Text → Text
  exec_line value =
      codes "Exec=" ++ (product ++ (codes " run -no-replay -- " ++ (name ++ (codes " " ++ value))))

  unfoldable pub icon_line : List Text → Text → Text → Rewritten
  unfolding unthemed
  icon_line [] value line = (line, [])
  icon_line (root ∷ later) value line =
      let icons = find_icon gtk root value in
      or_themed (unthemed icons) icons (icon_line later value line)

  unfoldable pub rewrite_entry : Text → Text × Option Text → Rewritten
  unfolding exec_line icon_line
  rewrite_entry line (key, none) = (line, [])
  rewrite_entry line (key, some value) =
      if str_eq key (codes "Exec")
      then (exec_line value, [])
      else if str_eq key (codes "Icon")
      then icon_line roots value line
      else (line, [])

  unfoldable pub rewrite_line : Text → Rewritten
  unfolding rewrite_entry
  rewrite_line raw =
      let line = trim_space raw in
      if has_prefix line (codes "[") || (has_prefix line (codes "#") || is_empty line)
      then (line, [])
      else rewrite_entry line (split_once b'=' line)

  -- The loop of the scanner. What a write returns is not looked at.
  unfoldable pub write_lines : Text → List Text → Sys (List Icon)
  unfolding rewrite_line
  write_lines target [] = pure []
  write_lines target (raw ∷ lines) =
      let (line, icons) = rewrite_line raw in
      let rest = write_lines target lines in
      trying (write target (line ++ codes "\n")) (λ r. rest >>= λ more. pure (icons ++ more))

  -- The icons that were found, and the error, which the caller logs.
  abbrev pub Exported : Type 0
  Exported = List Icon × Result (Unit {0})

  abbrev pub stopped_error : Text → Bool → Result (Unit {0})
  stopped_error path true =
      err (wrap (errorf (codes "bufio.Scanner: token too long")) (codes "failed to read " ++ path))
  stopped_error path false = ok tt

  abbrev pub copy_text : Text → Text → Result Text → Sys Exported
  copy_text path target (ok text) =
      let (lines, stopped) = scan_lines text in
      write_lines target lines >>= λ icons. pure (icons, stopped_error path stopped)
  copy_text path target (err e) = pure ([], err (wrap e (codes "failed to read " ++ path)))
  copy_text path target (panic m) = crash m

  abbrev pub copy_into : Text → Text → Result (Unit {0}) → Sys Exported
  copy_into path target (ok created) = trying (read_opened path) (copy_text path target)
  copy_into path target (err e) =
      pure ([], err (wrap e (codes "failed to create exported desktop file of " ++ path)))
  copy_into path target (panic m) = crash m

  abbrev pub copy_named : Text → Text → Result Text → Sys Exported
  copy_named applications path (ok relative) =
      let target = join_path (applications ∷ dashed relative ∷ []) in
      trying (create target 438) (copy_into path target)
  copy_named applications path (err e) = pure ([], err (wrap e (codes "making path relative")))
  copy_named applications path (panic m) = crash m

  -- A read that fails is taken to fail before the first line.
  unfoldable pub export_desktop_file : Text → Text → Text → Sys Exported
  unfolding write_lines
  export_desktop_file applications dir path = copy_named applications path (rel dir path)
