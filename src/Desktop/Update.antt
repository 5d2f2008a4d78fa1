-- ===== src/Desktop/Update.antt =====
-- internal/integration/xdgdesktop.go, UpdateDesktopFiles: the exports are built in the directory that
-- is not in use, to which the link is then turned.
use nsbox.Base.{
  ℕ, zero, suc, Text, List, [], ◌∷◌, ◌++◌, codes, true, false, decimal, has_suffix, if◌then◌else◌,
  map, Option, none, some, Result, ok, err, panic, errorf, wrap,
}
use nsbox.FilePath.{join_path}
use nsbox.Os.{
  Inode, World, Sys, pure, raise, crash, ◌>>=◌, ◌>>◌, wrapping, ignoring, trying, is_not_exist,
}
use nsbox.Os.Calls.{stat, readlink, remove_all, mkdir_all, symlink, rename}
use nsbox.Container.Data.{Container}
use nsbox.Container.Files.{lifted, storage_child, exports_link, exports_instance}
use nsbox.Container.Lock.{
  no_wait_for_lock, exports_lock, Table, Outcome, done, waits, lock, release,
}
use nsbox.Icons.{Icon, Gtk}
use nsbox.Desktop.Gather.{Visit, export_desktop_files}
use nsbox.Desktop.ExportIcons.{export_icons}

abbrev pub xdg_data_dirs : List Text
xdg_data_dirs = codes "/usr/share" ∷ codes "/usr/local/share" ∷ []

-- readExportsId; the -1 of a missing link is `none`.
abbrev pub exports_id : Text → Result Text → Sys (Option ℕ)
exports_id path (ok target) =
    if has_suffix target (codes ".0")
    then pure (some 0)
    else if has_suffix target (codes ".1")
    then pure (some 1)
    else raise (errorf (path ++ codes " does not have a valid export ID"))
exports_id path (err e) = if is_not_exist e then pure none else raise e
exports_id path (panic m) = crash m

unfoldable pub read_exports_id : Text → Sys (Option ℕ)
read_exports_id path = trying (readlink path) (exports_id path)

unfoldable pub new_instance : Option ℕ → ℕ
new_instance none = 0
new_instance (some zero) = 1
new_instance (some (suc n)) = 0

module _ (product : Text) (gtk : Gtk) (walk : Text → List Visit) (ct : Container) where
  -- addIconLoaderContext
  unfoldable pub add_icon_loader_context : Text → Sys Text
  add_icon_loader_context dir =
      wrapping (codes "failed to create icon context") (lifted (gtk.create_context dir)) >> pure dir

  unfoldable pub add_contexts : List Text → Sys (List Text)
  unfolding add_icon_loader_context
  add_contexts [] = pure []
  add_contexts (dir ∷ dirs) =
      add_icon_loader_context (storage_child ct (join_path (dir ∷ codes "icons" ∷ []) ∷ []))
      >>= λ root. add_contexts dirs >>= λ roots. pure (root ∷ roots)

  abbrev pub add_pixmaps : Text → List Text → Result Inode → Sys (List Text)
  add_pixmaps pixmaps roots (ok i) =
      add_icon_loader_context pixmaps >>= λ root. pure (roots ++ root ∷ [])
  add_pixmaps pixmaps roots (err e) = pure roots
  add_pixmaps pixmaps roots (panic m) = crash m

  -- The directories that icons are looked for in.
  unfoldable pub icon_roots : Sys (List Text)
  unfolding add_contexts
  icon_roots =
      let pixmaps = storage_child ct (codes "usr/share/pixmaps" ∷ []) in
      add_contexts xdg_data_dirs >>= λ roots. trying (stat pixmaps) (add_pixmaps pixmaps roots)

  unfoldable pub create_dirs : List Text → Sys (Unit {0})
  create_dirs [] = pure tt
  create_dirs (dir ∷ dirs) =
      wrapping (codes "failed to create " ++ dir) (mkdir_all dir 493) >> create_dirs dirs

  unfoldable pub desktop_files_dirs : List Text
  desktop_files_dirs =
      map (λ dir. join_path (dir ∷ codes "applications" ∷ [])) xdg_data_dirs
      ++ ct.config.xdg_desktop_extra

  abbrev pub add_icons : Sys (List Icon) → Result (List Icon) → Sys (List Icon)
  add_icons rest (ok icons) = rest >>= λ more. pure (icons ++ more)
  add_icons rest (err e) = rest
  add_icons rest (panic m) = crash m

  -- The icons of the files that are exported; an error of a directory is logged.
  unfoldable pub export_dirs : List Text → Text → List Text → Sys (List Icon)
  export_dirs roots applications [] = pure []
  export_dirs roots applications (dir ∷ dirs) =
      trying
        (export_desktop_files product ct.name gtk roots applications walk
          ct.config.xdg_desktop_exports (storage_child ct (dir ∷ [])))
        (add_icons (export_dirs roots applications dirs))

  -- A fresh directory with the exports.
  unfoldable pub build_exports : ℕ → Sys (Unit {0})
  build_exports n =
      let dir = exports_instance ct n in
      let target_root = join_path (dir ∷ codes "share" ∷ []) in
      let applications = join_path (target_root ∷ codes "applications" ∷ []) in
      let icons_dir = join_path (target_root ∷ codes "icons" ∷ []) in
      wrapping (codes "failed to reset new exports instance dir " ++ decimal n)
        (ignoring is_not_exist (remove_all dir))
      >> (icon_roots >>= λ roots.
          create_dirs (applications ∷ icons_dir ∷ [])
          >> (export_dirs roots applications desktop_files_dirs >>= export_icons icons_dir))

  abbrev pub delete_old : Option ℕ → Sys (Unit {0})
  delete_old none = pure tt
  delete_old (some n) =
      wrapping (codes "failed to delete old instance dir") (remove_all (exports_instance ct n))

  -- The link is made beside the old one and renamed onto it.
  unfoldable pub switch_exports : Option ℕ → ℕ → Sys (Unit {0})
  switch_exports old n =
      wrapping (codes "failed to symlink new instance dir")
        (symlink (exports_instance ct n) (exports_link ct true))
      >> (wrapping (codes "failed to rename onto new instance dir")
            (rename (exports_link ct true) (exports_link ct false))
          >> delete_old old)

  unfoldable pub update_exports : Sys (Unit {0})
  update_exports = read_exports_id (exports_link ct false) >>= λ old.
      build_exports (new_instance old) >> switch_exports old (new_instance old)

  abbrev pub under_lock :
      Sys (Unit {0}) → World → Outcome (List ℕ) × Table → Outcome (Unit {0}) × Table × World
  under_lock m w (done (ok fds), t) = let (r, w') = m w in (done r, release fds t, w')
  under_lock m w (done (err e), t) = (done (err (wrap e (codes "acquire exports lock"))), t, w)
  under_lock m w (done (panic x), t) = (done (panic x), t, w)
  under_lock m w (waits, t) = (waits, t, w)

  -- UpdateDesktopFiles
  unfoldable pub update_desktop_files : Table → World → Outcome (Unit {0}) × Table × World
  update_desktop_files t w =
      under_lock update_exports w (lock ct.path exports_lock no_wait_for_lock t)
