-- ===== src/Desktop/Placed.antt =====
-- The icons that the desktop files name lie below the directories that GTK was given.
use nsbox.Base.{
  Text, List, [], ◌∷◌, ◌++◌, codes, true, false, is_empty, has_prefix, str_eq, split, split_once,
  if◌then◌else◌, ◌||◌, All, Option, none, some, Result, ok, err, panic, ◌≡◌, Option-cases, inl, inr,
}
use nsbox.FilePath.{slash, dir_name, base_name, join_path}
use nsbox.FilePath.Rel.{rel}
use nsbox.FilePath.Joined.{IsPlain, NoParent}
use nsbox.Os.{World, pure, ◌>>=◌, wrapping}
use nsbox.Os.Calls.{create, write}
use nsbox.Os.Yields.{Got, Yields, Yields->>=, Yields-after}
use nsbox.Userdata.Account.{trim_space}
use nsbox.Icons.{
  IconSize, pixels, Icon, Gtk, find_icon, lookup_icon_by_size, lookup_sizes, sizes_or_none,
}
use nsbox.Desktop.Entry.{
  unthemed, exec_line, copy_text, copy_into, copy_named, export_desktop_file, scan_lines,
  read_opened, dashed, stopped_error, icon_line, rewrite_entry, rewrite_line, write_lines,
}
use nsbox.Desktop.Gather.{Visit, export_files, gather_desktop_files, export_desktop_files}
use nsbox.Desktop.Update.{export_dirs, add_icons}
use nsbox.Container.Data.{Container}
use nsbox.Container.Files.{storage_child}

-- The directory of the icon, seen from the root, has no `..`, and the file has a plain name.
pub record IsPlaced (root path : Text) : Type 0 where
  pub no_parent : (sub : Text) → rel root (dir_name path) ≡ ok sub → NoParent (split slash sub)
  pub plain_name : IsPlain (base_name path)

abbrev pub AllPlaced : List Icon → Type 0
AllPlaced = All (λ (icon : Icon). IsPlaced icon.root icon.path)

-- What GTK finds is placed.
abbrev pub PlacesIcons : Gtk → Type 0
PlacesIcons gtk =
    (root name : Text) (size : IconSize) (path : Text)
    → gtk.lookup_icon root name size ≡ some path
    → IsPlaced root path

pub AllPlaced-append : (is js : List Icon) → AllPlaced is → AllPlaced js → AllPlaced (is ++ js)
AllPlaced-append [] js h k = k
AllPlaced-append (i ∷ is) js h k = (h.0, AllPlaced-append is js h.1 k)

module _ (gtk : Gtk) (places : PlacesIcons gtk) where
  lookup-AllPlaced :
      (root icon : Text) (size : IconSize) → AllPlaced (lookup_icon_by_size gtk root icon size)
  unfolding lookup_icon_by_size
  lookup-AllPlaced root icon size = elim (Option-cases (gtk.lookup_icon root icon size)) [
    | inl e ↦ rw e tt
    | inr (path, e) ↦ let at = places root icon size path e in rw e (at, tt)
  ]

  sizes-AllPlaced :
      (root icon : Text) (sizes : List IconSize) → AllPlaced (lookup_sizes gtk root icon sizes)
  unfolding lookup_sizes
  sizes-AllPlaced root icon [] = tt
  sizes-AllPlaced root icon (size ∷ sizes) =
      AllPlaced-append _ _ (lookup-AllPlaced root icon size) (sizes-AllPlaced root icon sizes)

  find_icon-AllPlaced : (root icon : Text) → AllPlaced (find_icon gtk root icon)
  unfolding find_icon
  find_icon-AllPlaced root icon =
      elim (gtk.get_icon_sizes root icon)
        as (λ sizes. AllPlaced (sizes_or_none gtk root icon sizes)) [
          | [] ↦ lookup-AllPlaced root icon (pixels 0)
          | size ∷ sizes ↦ sizes-AllPlaced root icon (size ∷ sizes)
        ]

  module _ (product name : Text) (roots : List Text) where
    icon_line-AllPlaced :
        (later : List Text) (value line : Text)
        → AllPlaced (icon_line product name gtk roots later value line).1
    unfolding icon_line
    icon_line-AllPlaced [] value line = tt
    icon_line-AllPlaced (root ∷ later) value line =
        elim (Option-cases (unthemed (find_icon gtk root value))) [
          | inl e ↦ rw e (
              AllPlaced-append (find_icon gtk root value) _ (find_icon-AllPlaced root value)
                (icon_line-AllPlaced later value line))
          | inr (path, e) ↦ rw e tt
        ]

    entry-AllPlaced :
        (line : Text) (parts : Text × Option Text)
        → AllPlaced (rewrite_entry product name gtk roots line parts).1
    unfolding rewrite_entry
    entry-AllPlaced line (key, none) = tt
    entry-AllPlaced line (key, some value) =
        elim (str_eq key (codes "Exec"))
          as (λ b.
            AllPlaced
              (if b
                then (exec_line product name gtk roots value, [])
                else if str_eq key (codes "Icon")
                then icon_line product name gtk roots roots value line
                else (line, [])).1) [
                  | true ↦ tt
                  | false ↦
                      elim (str_eq key (codes "Icon"))
                        as (λ b.
                          AllPlaced
                            (if b
                              then icon_line product name gtk roots roots value line
                              else (line, [])).1) [
                                | true ↦ icon_line-AllPlaced roots value line
                                | false ↦ tt
                              ]
                ]

    line-AllPlaced : (raw : Text) → AllPlaced (rewrite_line product name gtk roots raw).1
    unfolding rewrite_line
    line-AllPlaced raw =
        let line = trim_space raw in
        elim (has_prefix line (codes "[") || (has_prefix line (codes "#") || is_empty line))
          as (λ b.
            AllPlaced
              (if b
                then (line, [])
                else rewrite_entry product name gtk roots line (split_once b'=' line)).1) [
                  | true ↦ tt
                  | false ↦ entry-AllPlaced line (split_once b'=' line)
                ]

    pub Yields-write_lines :
        (target : Text) (lines : List Text)
        → Yields AllPlaced (write_lines product name gtk roots target lines)
    unfolding write_lines
    Yields-write_lines target [] w = tt
    Yields-write_lines target (raw ∷ lines) w =
        let line = (rewrite_line product name gtk roots raw).0 in
        Yields->>= AllPlaced AllPlaced (write_lines product name gtk roots target lines)
          (λ more. pure ((rewrite_line product name gtk roots raw).1 ++ more))
          (Yields-write_lines target lines)
          (λ more h w'. AllPlaced-append _ more (line-AllPlaced raw) h)
          (write target (line ++ codes "\n") w).1

    abbrev pub Exports : Type 0
    Exports = List Icon × Result (Unit {0})

    copy_text-AllPlaced :
        (path target : Text) (r : Result Text)
        → Yields (λ (e : Exports). AllPlaced e.0) (copy_text product name gtk roots path target r)
    copy_text-AllPlaced path target (ok text) =
        Yields->>= AllPlaced (λ (e : Exports). AllPlaced e.0)
          (write_lines product name gtk roots target (scan_lines text).0)
          (λ icons. pure (icons, stopped_error product name gtk roots path (scan_lines text).1))
          (Yields-write_lines target (scan_lines text).0) (λ icons h w. h)
    copy_text-AllPlaced path target (err e) = λ w. tt
    copy_text-AllPlaced path target (panic m) = λ w. tt

    copy_into-AllPlaced :
        (path target : Text) (r : Result (Unit {0}))
        → Yields (λ (e : Exports). AllPlaced e.0) (copy_into product name gtk roots path target r)
    copy_into-AllPlaced path target (ok created) w =
        copy_text-AllPlaced path target (read_opened path w).0 (read_opened path w).1
    copy_into-AllPlaced path target (err e) w = tt
    copy_into-AllPlaced path target (panic m) w = tt

    module _ (applications : Text) where
      copy_named-AllPlaced :
          (path : Text) (r : Result Text)
          → Yields
              (λ (e : Exports). AllPlaced e.0)
              (copy_named product name gtk roots applications path r)
      copy_named-AllPlaced path (ok relative) w =
          let target = join_path (applications ∷ dashed relative ∷ []) in
          copy_into-AllPlaced path target (create target 438 w).0 (create target 438 w).1
      copy_named-AllPlaced path (err e) w = tt
      copy_named-AllPlaced path (panic m) w = tt

      Yields-export_files :
          (dir : Text) (paths : List Text)
          → Yields AllPlaced (export_files product name gtk roots applications dir paths)
      unfolding export_files export_desktop_file
      Yields-export_files dir [] = λ w. tt
      Yields-export_files dir (path ∷ paths) =
          Yields->>= (λ (e : Exports). AllPlaced e.0) AllPlaced
            (export_desktop_file product name gtk roots applications dir path)
            (λ exported. export_files product name gtk roots applications dir paths >>= λ more.
              pure (exported.0 ++ more))
            (copy_named-AllPlaced path (rel dir path))
            (λ e h.
              Yields->>= AllPlaced AllPlaced
                (export_files product name gtk roots applications dir paths)
                (λ more. pure (e.0 ++ more)) (Yields-export_files dir paths)
                (λ more k w. AllPlaced-append e.0 more h k))

      pub Yields-export_desktop_files :
          (walk : Text → List Visit) (patterns : List Text) (dir : Text)
          → Yields AllPlaced
              (export_desktop_files product name gtk roots applications walk patterns dir)
      unfolding export_desktop_files
      Yields-export_desktop_files walk patterns dir =
          Yields-after AllPlaced
            (wrapping (codes "gathering files") (gather_desktop_files walk patterns dir)) _
            (λ paths. Yields-export_files dir paths)

module _ (product : Text) (gtk : Gtk) (places : PlacesIcons gtk) (walk : Text → List Visit)
    (ct : Container) (roots : List Text) (applications : Text) where
  pub Yields-export_dirs :
      (dirs : List Text)
      → Yields AllPlaced (export_dirs product gtk walk ct roots applications dirs)
  unfolding export_dirs
  Yields-export_dirs [] w = tt
  Yields-export_dirs (dir ∷ dirs) w =
      let m =
        export_desktop_files product ct.name gtk roots applications walk
          ct.config.xdg_desktop_exports (storage_child ct (dir ∷ [])) in
      after (m w).0 (m w).1
        (Yields-export_desktop_files gtk places product ct.name roots applications walk
          ct.config.xdg_desktop_exports (storage_child ct (dir ∷ [])) w)
        (Yields-export_dirs dirs)
    where
      after :
          (r : Result (List Icon)) (w' : World)
          → Got AllPlaced r
          → Yields AllPlaced (export_dirs product gtk walk ct roots applications dirs)
          → Got AllPlaced
              (add_icons product gtk walk ct
                (export_dirs product gtk walk ct roots applications dirs)
                r
                w').0
      after (ok icons) w' h later =
          Yields->>= AllPlaced AllPlaced (export_dirs product gtk walk ct roots applications dirs)
            (λ more. pure (icons ++ more)) later (λ more k v. AllPlaced-append icons more h k) w'
      after (err x) w' h later = later w'
      after (panic m) w' h later = tt
