-- ===== src/Desktop/Parts.antt =====
-- What the parts of UpdateDesktopFiles leave alone: the contexts of the icons, the directories that it
-- creates and those that it goes through.
use nsbox.Base.{ℕ, Text, List, [], ◌∷◌, ◌++◌, codes, All, Result, ok, err, panic, ◌≡◌, refl, ◌∙◌}
use nsbox.FilePath.{join_path}
use nsbox.Os.{continue, World, Sys, Inode, pure, ◌>>=◌, ◌>>◌, wrapping, trying}
use nsbox.Os.Calls.{stat, mkdir_all}
use nsbox.Os.Frame.{Leaves, Leaves->>=, Leaves-stat}
use nsbox.Os.Yields.{Got}
use nsbox.Container.Data.{Container}
use nsbox.Container.Files.{lifted, storage_child}
use nsbox.Icons.{Icon, Gtk}
use nsbox.Desktop.Gather.{Visit, export_desktop_files}
use nsbox.Desktop.ExportIcons.{export_icons}
use nsbox.Desktop.Update.{
  xdg_data_dirs, add_icon_loader_context, add_contexts, add_pixmaps, icon_roots, create_dirs,
  add_icons, export_dirs,
}
use nsbox.Desktop.Placed.{AllPlaced}

module _ (product : Text) (gtk : Gtk) (walk : Text → List Visit) (ct : Container) (p : Text) where
  one_context :
      (root : Text) (r : Result (Unit {0}))
      → Leaves p (wrapping (codes "failed to create icon context") (lifted r) >> pure root)
  one_context root (ok done) = λ w. refl
  one_context root (err e) = λ w. refl
  one_context root (panic m) = λ w. refl

  Leaves-context : (root : Text) → Leaves p (add_icon_loader_context product gtk walk ct root)
  unfolding add_icon_loader_context
  Leaves-context root = one_context root (gtk.create_context root)

  Leaves-add_contexts : (dirs : List Text) → Leaves p (add_contexts product gtk walk ct dirs)
  unfolding add_contexts add_icon_loader_context
  Leaves-add_contexts [] = λ w. refl
  Leaves-add_contexts (dir ∷ dirs) =
      let root = storage_child ct (join_path (dir ∷ codes "icons" ∷ []) ∷ []) in
      Leaves->>= p (add_icon_loader_context product gtk walk ct root)
        (λ r. add_contexts product gtk walk ct dirs >>= λ roots. pure (r ∷ roots))
        (Leaves-context root)
        (λ r.
          Leaves->>= p (add_contexts product gtk walk ct dirs) (λ roots. pure (r ∷ roots))
            (Leaves-add_contexts dirs) (λ roots w. refl))

  pub Leaves-icon_roots : Leaves p (icon_roots product gtk walk ct)
  unfolding icon_roots
  Leaves-icon_roots =
      let pixmaps = storage_child ct (codes "usr/share/pixmaps" ∷ []) in
      Leaves->>= p (add_contexts product gtk walk ct xdg_data_dirs)
        (λ roots. trying (stat pixmaps) (add_pixmaps product gtk walk ct pixmaps roots))
        (Leaves-add_contexts xdg_data_dirs)
        (λ roots w.
          with_pixmaps pixmaps roots (stat pixmaps w).0 (stat pixmaps w).1
          ∙ Leaves-stat p pixmaps w)
    where
      with_pixmaps :
          (pixmaps : Text) (roots : List Text) (r : Result Inode)
          → Leaves p (add_pixmaps product gtk walk ct pixmaps roots r)
      with_pixmaps pixmaps roots (ok i) =
          Leaves->>= p (add_icon_loader_context product gtk walk ct pixmaps)
            (λ root. pure (roots ++ root ∷ [])) (Leaves-context pixmaps) (λ root w. refl)
      with_pixmaps pixmaps roots (err e) = λ w. refl
      with_pixmaps pixmaps roots (panic m) = λ w. refl

  pub Leaves-create_dirs :
      (dirs : List Text)
      → All (λ dir. (perm : ℕ) → Leaves p (mkdir_all dir perm)) dirs
      → Leaves p (create_dirs product gtk walk ct dirs)
  unfolding create_dirs
  Leaves-create_dirs [] h = λ w. refl
  Leaves-create_dirs (dir ∷ dirs) h =
      Leaves->>= p (wrapping (codes "failed to create " ++ dir) (mkdir_all dir 493))
        (λ _. create_dirs product gtk walk ct dirs) (h.0 493) (λ _. Leaves-create_dirs dirs h.1)

  -- Icons that are placed are linked inside.
  pub exports-then_icons :
      (m : Sys (List Icon)) (icons_dir : Text)
      → Leaves p m
      → ((w : World) → Got AllPlaced (m w).0)
      → ((icons : List Icon) → AllPlaced icons → Leaves p (export_icons icons_dir icons))
      → Leaves p (m >>= export_icons icons_dir)
  exports-then_icons m icons_dir h placed k w = go (m w).0 (m w).1 (placed w) ∙ h w
    where
      go :
          (r : Result (List Icon)) (w' : World)
          → Got AllPlaced r
          → (continue r (export_icons icons_dir) w').1.at p ≡ w'.at p
      go (ok icons) w' a = k icons a w'
      go (err e) w' a = refl
      go (panic m') w' a = refl

  pub Leaves-export_dirs :
      (roots : List Text) (applications : Text) (dirs : List Text)
      → ((source : Text)
          → Leaves p (
              export_desktop_files product ct.name gtk roots applications walk
                ct.config.xdg_desktop_exports source))
      → Leaves p (export_dirs product gtk walk ct roots applications dirs)
  unfolding export_dirs
  Leaves-export_dirs roots applications [] h = λ w. refl
  Leaves-export_dirs roots applications (dir ∷ dirs) h =
      let source = storage_child ct (dir ∷ []) in
      let m =
        export_desktop_files product ct.name gtk roots applications walk
          ct.config.xdg_desktop_exports source in
      let later = Leaves-export_dirs roots applications dirs h in
      λ w. go later (m w).0 (m w).1 ∙ h source w
    where
      go :
          Leaves p (export_dirs product gtk walk ct roots applications dirs)
          → (r : Result (List Icon))
          → Leaves p (
              add_icons product gtk walk ct
                (export_dirs product gtk walk ct roots applications dirs)
                r)
      go later (ok icons) =
          Leaves->>= p (export_dirs product gtk walk ct roots applications dirs)
            (λ more. pure (icons ++ more)) later (λ more w. refl)
      go later (err e) = later
      go later (panic m) = λ w. refl
