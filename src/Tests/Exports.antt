-- ===== src/Tests/Exports.antt =====
-- Runs of the theorems about desktop files, each at a value of its own.
use nsbox.Base.{
  Text, List, [], ◌∷◌, codes, map, true, false, All, Option, none, some, str_eq, str_eq_iff,
  str_eq_refl, eperm, if◌then◌else◌, ok, split, join, has_prefix, ◌≡◌, inl, inr, refl, sym, ap, ◌∙◌,
  subst, Bool-cases, arith,
}
use nsbox.FilePath.{
  absolute_text, join_path, dir_name, base_name, clean, clean_parts, clean_step, is_abs, split_last,
}
use nsbox.FilePath.Rel.{rel}
use nsbox.FilePath.Joined.{IsPlain, word-IsPlain}
use nsbox.Os.{file, link, Inode, World}
use nsbox.Os.Results.{Holds}
use nsbox.Container.Data.{Container}
use nsbox.Container.Files.{exports_link, exports_instance}
use nsbox.Icons.{pixels, Gtk}
use nsbox.Desktop.Entry.{dashed, rewrite_line, scan_lines, export_desktop_file}
use nsbox.Desktop.Gather.{Visit}
use nsbox.Desktop.Update.{update_exports, update_desktop_files}
use nsbox.Desktop.Placed.{IsPlaced, PlacesIcons}
use nsbox.Desktop.Switched.{InUse}
use nsbox.Desktop.Exchanged.{Exchanged, update_desktop_files-Exchanged}
use nsbox.Desktop.Stuck.{Stays, update_exports-Stays}
use nsbox.Desktop.Held.{unlines, export_desktop_file-Holds}
use nsbox.Tests.Files.{config, inv-IsPlain}
use nsbox.Tests.Locks.{free_with, free-IsWellFormed}

abbrev icons_dir : Text
icons_dir = codes "/inv/box/storage/usr/share/icons"

abbrev icon_file : Text
icon_file = codes "/inv/box/storage/usr/share/icons/hicolor/48x48/app.png"

-- One icon, in one theme.
abbrev gtk : Gtk
gtk = record {
  create_context = λ root. ok tt;
  get_icon_sizes = λ root icon. pixels 48 ∷ [];
  lookup_icon = λ root icon size. if str_eq root icons_dir then some icon_file else none;
}

sub_dir : rel icons_dir (dir_name icon_file) ≡ ok (codes "hicolor/48x48")
unfolding rel dir_name clean clean_parts clean_step is_abs split join split_last has_prefix str_eq
sub_dir = refl

ok-eq : {a b : Text} → ok a ≡ ok b → a ≡ b
ok-eq e = cc e

icon-IsPlaced : IsPlaced icons_dir icon_file
unfolding base_name split_last split str_eq
icon-IsPlaced = record {
  no_parent = λ sub e.
      subst (λ s. All (λ part. str_eq part (codes "..") ≡ false) (split b'/' s))
        (ok-eq (sym sub_dir ∙ e)) (refl, (refl, tt));
  plain_name = word-IsPlain (codes "app.png") (ground arith) refl refl refl;
}

some-eq : {a b : Text} → some a ≡ some b → a ≡ b
some-eq e = cc e

gtk-PlacesIcons : PlacesIcons gtk
gtk-PlacesIcons root icon size path e = elim (Bool-cases (str_eq root icons_dir)) [
  | inl h ↦
      let found : icon_file ≡ path =
        some-eq (sym (ap (λ c. if c then some icon_file else none) h) ∙ e) in
      subst (IsPlaced root) found
        (subst (λ r. IsPlaced r icon_file) (sym ((str_eq_iff root icons_dir).0 h)) icon-IsPlaced)
  | inr h ↦
      let gone : none ≡ some path = sym (ap (λ c. if c then some icon_file else none) h) ∙ e in
      cc gone
]

abbrev box : Container
box = record {
  name = codes "box";
  path = codes "/inv/box";
  config = record config { xdg_desktop_exports = codes "*" ∷ [] };
}

box_word-IsPlain : IsPlain (codes "box")
unfolding str_eq
box_word-IsPlain = word-IsPlain (codes "box") (ground arith) refl refl refl

box-place : box.path ≡ absolute_text (codes "inv" ∷ codes "box" ∷ [])
unfolding join
box-place = refl

abbrev source : Text
source = codes "/inv/box/storage/usr/share/applications"

abbrev desktop_path : Text
desktop_path = codes "/inv/box/storage/usr/share/applications/app.desktop"

abbrev walk : Text → List Visit
walk dir =
    if str_eq dir source
    then record { path = desktop_path; name = codes "app.desktop"; error = none } ∷ []
    else []

abbrev desktop_text : Text
desktop_text = codes "[Desktop Entry]\nExec=app %U\nIcon=app\n"

abbrev link_to : Text → Inode
link_to target = record { node = link target; uid = 0; gid = 0; mode = 511 }

-- The first exports are in use, and the third call fails.
abbrev in_use : World
in_use = record {
  at = λ p.
      if str_eq p (exports_link box false) then some (link_to (exports_instance box 0)) else none;
  faults = none ∷ none ∷ some eperm ∷ [];
}

in_use-InUse :
    InUse
      (codes "inv")
      (codes "box" ∷ [])
      (inv-IsPlain, (box_word-IsPlain, tt))
      box
      box-place
      (some 0)
      in_use
in_use-InUse = (inl refl, (link_to (exports_instance box 0), rw str_eq_refl refl, refl))

update_desktop_files-Exchanged_example :
    Exchanged
      (codes "inv")
      (codes "box" ∷ [])
      (inv-IsPlain, (box_word-IsPlain, tt))
      box
      box-place
      (codes "nsbox")
      gtk
      gtk-PlacesIcons
      walk
      (some 0)
      (free_with [])
      in_use
      (update_desktop_files (codes "nsbox") gtk walk box (free_with []) in_use)
update_desktop_files-Exchanged_example =
    update_desktop_files-Exchanged (codes "inv") (codes "box" ∷ [])
      (inv-IsPlain, (box_word-IsPlain, tt)) box box-place (codes "nsbox") gtk gtk-PlacesIcons walk
      (some 0) (free_with []) in_use (free-IsWellFormed []) in_use-InUse
      (λ e. cc e, (λ e. cc e, (λ e. cc e, tt)))

-- A link that an update left behind when its rename failed.
abbrev left_behind : World
left_behind = record {
  at = λ p.
      if str_eq p (exports_link box true) then some (link_to (exports_instance box 1)) else none;
  faults = [];
}

left_behind-some : left_behind.at (exports_link box true) ≡ some (link_to (exports_instance box 1))
left_behind-some = rw str_eq_refl refl

update_exports-Stays_example :
    Stays
      (exports_link box true)
      (exports_link box false)
      left_behind
      (update_exports (codes "nsbox") gtk walk box left_behind)
update_exports-Stays_example =
    update_exports-Stays (codes "inv") (codes "box" ∷ []) (inv-IsPlain, (box_word-IsPlain, tt)) box
      box-place (codes "nsbox") gtk gtk-PlacesIcons walk (link_to (exports_instance box 1))
      left_behind left_behind-some

abbrev applications : Text
applications = codes "/inv/box/exports.1/share/applications"

abbrev target : Text
target = join_path (applications ∷ dashed (codes "app.desktop") ∷ [])

app-rel : rel source desktop_path ≡ ok (codes "app.desktop")
unfolding rel clean clean_parts clean_step is_abs split join has_prefix str_eq
app-rel = refl

abbrev files : Text → Option Inode
files p =
    if str_eq p desktop_path
    then some (record { node = file desktop_text; uid = 0; gid = 0; mode = 420 })
    else none

target-none : files target ≡ none
unfolding join_path dashed clean clean_parts clean_step is_abs split join has_prefix str_eq
target-none = refl

target-other : str_eq target desktop_path ≡ false
unfolding join_path dashed clean clean_parts clean_step is_abs split join has_prefix str_eq
target-other = refl

files-Holds : Holds desktop_text (files desktop_path)
unfolding str_eq
files-Holds = (record { node = file desktop_text; uid = 0; gid = 0; mode = 420 }, refl, refl)

export_desktop_file-Holds_example :
    Holds
      (unlines (
        map
          (λ raw. (rewrite_line (codes "nsbox") (codes "box") gtk (icons_dir ∷ []) raw).0)
          (scan_lines desktop_text).0))
      ((export_desktop_file
          (codes "nsbox")
          (codes "box")
          gtk
          (icons_dir ∷ [])
          applications
          source
          desktop_path
          (record { at = files; faults = [] })).1.at
        target)
export_desktop_file-Holds_example =
    export_desktop_file-Holds (codes "nsbox") (codes "box") gtk (icons_dir ∷ []) applications source
      desktop_path (codes "app.desktop") desktop_text files app-rel target-none files-Holds
      target-other
