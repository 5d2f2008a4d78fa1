-- ===== src/Desktop/ExportIcons.antt =====
-- internal/integration/xdgdesktop.go, exportIcons: links to the icons and to the index of their theme.
-- A step that fails is logged, and the next icon follows.
use nsbox.Base.{Text, List, [], ◌∷◌, codes, split, Result, ok, err, panic}
use nsbox.FilePath.{slash, join_path, dir_name, base_name}
use nsbox.FilePath.Rel.{rel}
use nsbox.Os.{Sys, pure, crash, ignoring, trying, is_exist}
use nsbox.Os.Calls.{mkdir_all, symlink}
use nsbox.Icons.{Icon}

abbrev pub first_part : List Text → Text
first_part [] = []
first_part (part ∷ parts) = part

-- What comes next if the step succeeded.
abbrev pub if_done : Sys (Unit {0}) → Result (Unit {0}) → Sys (Unit {0})
if_done rest (ok done) = rest
if_done rest (err e) = pure tt
if_done rest (panic m) = crash m

abbrev pub step : Sys (Unit {0}) → Sys (Unit {0}) → Sys (Unit {0})
step first rest = trying first (if_done rest)

module _ (target_icons_dir : Text) where
  unfoldable pub link_icon : Icon → Text → Sys (Unit {0})
  link_icon icon subdir =
      let theme_name = first_part (split slash subdir) in
      let target_theme_dir = join_path (target_icons_dir ∷ theme_name ∷ []) in
      let source_index = join_path (icon.root ∷ theme_name ∷ codes "index.theme" ∷ []) in
      let target_index = join_path (target_theme_dir ∷ codes "index.theme" ∷ []) in
      let target_icon_dir = join_path (target_icons_dir ∷ subdir ∷ []) in
      let target_icon = join_path (target_icon_dir ∷ base_name icon.path ∷ []) in
      step (mkdir_all target_theme_dir 493) (
        step (ignoring is_exist (symlink source_index target_index))
          (step (mkdir_all target_icon_dir 493) (step (symlink icon.path target_icon) (pure tt))))

  abbrev pub link_below : Icon → Result Text → Sys (Unit {0})
  link_below icon (ok subdir) = link_icon icon subdir
  link_below icon (err e) = pure tt
  link_below icon (panic m) = crash m

  unfoldable pub export_icon : Icon → Sys (Unit {0})
  unfolding link_icon
  export_icon icon = link_below icon (rel icon.root (dir_name icon.path))

  unfoldable pub export_icons : List Icon → Sys (Unit {0})
  unfolding export_icon
  export_icons [] = pure tt
  export_icons (icon ∷ icons) = trying (export_icon icon) (if_done (export_icons icons))
