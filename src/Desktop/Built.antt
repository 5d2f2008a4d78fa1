-- ===== src/Desktop/Built.antt =====
-- The exports are built in the directory of one instance: no path apart from it changes.
use nsbox.Base.{ℕ, Text, List, [], ◌∷◌, ◌++◌, codes, str_eq, decimal, arith, true, All, ◌≡◌, refl}
use nsbox.FilePath.{join_path, absolute_text}
use nsbox.FilePath.Joined.{IsPlain, word-IsPlain}
use nsbox.FilePath.Children.{All-append, join_path-child}
use nsbox.FilePath.Apart.{Apart, below_trans}
use nsbox.FilePath.Inside.{below-absolute}
use nsbox.Os.{◌>>=◌, ◌>>◌, wrapping, ignoring, is_not_exist}
use nsbox.Os.Calls.{below, remove_all}
use nsbox.Os.Frame.{Leaves, Leaves->>=, Leaves-remove_all}
use nsbox.Container.Data.{Container}
use nsbox.Container.Files.{exports_instance}
use nsbox.Icons.{Icon, Gtk}
use nsbox.Desktop.Gather.{Visit}
use nsbox.Desktop.ExportIcons.{export_icons}
use nsbox.Desktop.Update.{icon_roots, create_dirs, desktop_files_dirs, export_dirs, build_exports}
use nsbox.Desktop.Placed.{PlacesIcons, AllPlaced, Yields-export_dirs}
use nsbox.Desktop.Frame.{mkdir_inside, Leaves-export_desktop_files}
use nsbox.Desktop.IconFrame.{Leaves-export_icons}
use nsbox.Desktop.Parts.{
  Leaves-icon_roots, Leaves-create_dirs, exports-then_icons, Leaves-export_dirs,
}

abbrev pub instance_name : ℕ → Text
instance_name n = codes "exports." ++ decimal n

share-IsPlain : IsPlain (codes "share")
unfolding str_eq
share-IsPlain = word-IsPlain (codes "share") (ground arith) refl refl refl

applications-IsPlain : IsPlain (codes "applications")
unfolding str_eq
applications-IsPlain = word-IsPlain (codes "applications") (ground arith) refl refl refl

icons-IsPlain : IsPlain (codes "icons")
unfolding str_eq
icons-IsPlain = word-IsPlain (codes "icons") (ground arith) refl refl refl

-- The directory of an instance, where that of the container is an absolute path of plain elements.
pub exports_instance-eq :
    (ct : Container) (root : Text) (parents : List Text) (n : ℕ)
    → All IsPlain (root ∷ parents)
    → ct.path ≡ absolute_text (root ∷ parents)
    → IsPlain (instance_name n)
    → exports_instance ct n ≡ absolute_text ((root ∷ parents) ++ instance_name n ∷ [])
unfolding exports_instance
exports_instance-eq ct root parents n plain place n_plain =
    rw place (join_path-child (root ∷ parents) (instance_name n) plain n_plain)

module _ (product : Text) (gtk : Gtk) (places : PlacesIcons gtk) (walk : Text → List Visit)
    (ct : Container) (root : Text) (parents : List Text) (plain : All IsPlain (root ∷ parents))
    (place : ct.path ≡ absolute_text (root ∷ parents)) (n : ℕ)
    (n_plain : IsPlain (instance_name n)) where
  abbrev pub instance_parents : List Text
  instance_parents = parents ++ instance_name n ∷ []

  abbrev pub instance_text : Text
  instance_text = absolute_text (root ∷ instance_parents)

  instance_plain : All IsPlain (root ∷ instance_parents)
  instance_plain = All-append (root ∷ parents) (instance_name n ∷ []) plain (n_plain, tt)

  abbrev share_parents : List Text
  share_parents = instance_parents ++ codes "share" ∷ []

  share_plain : All IsPlain (root ∷ share_parents)
  share_plain =
      All-append (root ∷ instance_parents) (codes "share" ∷ []) instance_plain (share-IsPlain, tt)

  around : below instance_text (absolute_text (root ∷ share_parents)) ≡ true
  around = below-absolute root instance_parents (codes "share" ∷ [])

  abbrev child : Text → Text
  child name = absolute_text ((root ∷ share_parents) ++ name ∷ [])

  child_inside : (name : Text) → below instance_text (child name) ≡ true
  child_inside name =
      below_trans instance_text (absolute_text (root ∷ share_parents)) (child name) around
        (below-absolute root share_parents (name ∷ []))

  share_eq : join_path (instance_text ∷ codes "share" ∷ []) ≡ absolute_text (root ∷ share_parents)
  share_eq = join_path-child (root ∷ instance_parents) (codes "share") instance_plain share-IsPlain

  child_eq :
      (name : Text)
      → IsPlain name
      → join_path (absolute_text (root ∷ share_parents) ∷ name ∷ []) ≡ child name
  child_eq name h = join_path-child (root ∷ share_parents) name share_plain h

  module _ (p : Text) (apart : Apart instance_text p) where
    Leaves-icons :
        (icons : List Icon)
        → AllPlaced icons
        → Leaves p (export_icons (child (codes "icons")) icons)
    Leaves-icons icons h =
        Leaves-export_icons root (share_parents ++ codes "icons" ∷ [])
          (All-append (root ∷ share_parents) (codes "icons" ∷ []) share_plain (icons-IsPlain, tt))
          instance_text p apart (child_inside (codes "icons")) icons h

    Leaves-exports :
        (roots : List Text)
        → Leaves p (
            export_dirs product gtk walk ct roots
              (child (codes "applications"))
              (desktop_files_dirs product gtk walk ct)
            >>= export_icons (child (codes "icons")))
    Leaves-exports roots =
        exports-then_icons product gtk walk ct p
          (export_dirs product gtk walk ct roots (child (codes "applications"))
            (desktop_files_dirs product gtk walk ct))
          (child (codes "icons"))
          (Leaves-export_dirs product gtk walk ct p roots (child (codes "applications"))
            (desktop_files_dirs product gtk walk ct)
            (λ source.
              Leaves-export_desktop_files product ct.name gtk roots root share_parents share_plain
                (codes "applications") applications-IsPlain instance_text p apart around walk
                ct.config.xdg_desktop_exports source))
          (Yields-export_dirs product gtk places walk ct roots (child (codes "applications"))
            (desktop_files_dirs product gtk walk ct))
          Leaves-icons

    -- The filled directory.
    Leaves-filled :
        (roots : List Text)
        → Leaves p (
            create_dirs product gtk walk ct
              (child (codes "applications") ∷ child (codes "icons") ∷ [])
            >> (export_dirs product gtk walk ct roots
                  (child (codes "applications"))
                  (desktop_files_dirs product gtk walk ct)
                >>= export_icons (child (codes "icons"))))
    Leaves-filled roots =
        let inside = λ (name : Text) (perm : ℕ).
          mkdir_inside instance_text p (child name) apart (child_inside name) perm in
        Leaves->>= p
          (create_dirs product gtk walk ct
            (child (codes "applications") ∷ child (codes "icons") ∷ []))
          (λ _.
            export_dirs product gtk walk ct roots (child (codes "applications"))
              (desktop_files_dirs product gtk walk ct)
            >>= export_icons (child (codes "icons")))
          (Leaves-create_dirs product gtk walk ct p
            (child (codes "applications") ∷ child (codes "icons") ∷ [])
            (inside (codes "applications"), (inside (codes "icons"), tt)))
          (λ _. Leaves-exports roots)

    pub Leaves-build_exports : Leaves p (build_exports product gtk walk ct n)
    unfolding build_exports
    Leaves-build_exports =
        rw
          (
            exports_instance-eq ct root parents n plain place n_plain,
            share_eq,
            child_eq (codes "applications") applications-IsPlain,
            child_eq (codes "icons") icons-IsPlain,
          )
          (Leaves->>= p
            (wrapping (codes "failed to reset new exports instance dir " ++ decimal n)
              (ignoring is_not_exist (remove_all instance_text)))
            _ (Leaves-remove_all p instance_text apart.0)
            (λ _.
              Leaves->>= p (icon_roots product gtk walk ct) _
                (Leaves-icon_roots product gtk walk ct p) Leaves-filled))
