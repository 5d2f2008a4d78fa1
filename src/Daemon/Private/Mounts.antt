-- ===== src/Daemon/Private/Mounts.antt =====
-- What bindPrivate shares with the container.
use nsbox.Base.{
  ℕ, Text, List, [], ◌∷◌, ◌++◌, codes, true, false, Option, none, some, map, split, split-All-Lacks,
  All, ok, ◌≡◌, ◌≢◌, refl, ap, ◌∙◌, append_assoc, append-nil,
}
use nsbox.FilePath.{slash, is_abs, absolute_text}
use nsbox.FilePath.Joined.{IsPlain, kept, join_path-below}
use nsbox.FilePath.Children.{All-append}
use nsbox.Container.Data.{Config}
use nsbox.Container.Name.{validate_name, validate_name-IsPlain}
use nsbox.Container.Validate.{check_config}
use nsbox.Container.Validate.Accepted.{check_config_iff}
use nsbox.Container.Validate.Patterns.{has_dots}
use nsbox.Os.{Inode, World}
use nsbox.Nspawn.{Builder, add_bind_to}
use nsbox.Daemon.Mkdir.{mkdir_all_owned_by_user}
use nsbox.Daemon.Mkdir.OnePart.{or_owned}
use nsbox.Daemon.Mkdir.Ownership.{mkdir_all-runs}
use nsbox.Daemon.Mkdir.Reached.{made_directory}
use nsbox.Daemon.Private.{Owner, is_there, exists, bind_one, bind_private}
use nsbox.Daemon.Private.Below.{
  has_substring_dots, has_dots-NoParent, kept-All, home-IsPlain, storage, storage-IsPlain,
  private_mount, host-eq,
}

is_there-owned :
    (o : Option Inode) (uid gid perm : ℕ) → is_there (or_owned o true uid gid perm) ≡ true
is_there-owned none uid gid perm = refl
is_there-owned (some i) uid gid perm = refl

made-exists :
    (part : Text) (parts : List Text) (uid gid perm : ℕ) (w : World)
    → All IsPlain (part ∷ parts)
    → w.faults ≡ []
    → exists
        (mkdir_all_owned_by_user (absolute_text (part ∷ parts)) uid gid perm w).1
        (absolute_text (part ∷ parts))
      ≡ true
made-exists part parts uid gid perm w h none_fails =
    ap is_there (made_directory part parts uid gid perm w h none_fails)
    ∙ is_there-owned (w.at (absolute_text (part ∷ parts))) uid gid perm

-- Relative, with no two dots in a row.
abbrev pub IsInside : Text → Type 0
IsInside private = (is_abs private ≡ false) × (has_dots private ≡ false)

module _ (root : Text) (roots : List Text) (name : Text) (uid gid : ℕ)
    (plain : All IsPlain (root ∷ roots)) (named : IsPlain name) where
  -- The user whose home directory has these elements.
  abbrev pub owner : Owner
  owner = record { home_dir = absolute_text (root ∷ roots); uid = uid; gid = gid }

  bind_one-adds :
      (private : Text) (builder : Builder) (w : World)
      → IsInside private
      → w.faults ≡ []
      → ((bind_one owner name private builder w).0
          ≡ ok (record builder {
            binds = builder.binds ++ private_mount (root ∷ roots) name private ∷ [];
          }))
        × ((bind_one owner name private builder w).1.faults ≡ [])
  unfolding bind_one add_bind_to
  bind_one-adds private builder w inside none_fails =
      let mount = private_mount (root ∷ roots) name private in
      let host = host-eq root roots plain name uid gid private named inside.1 in
      let dest = join_path-below root roots private plain (has_dots-NoParent private inside.1) in
      let (fine, no_more, _) = mkdir_all-runs mount.host uid gid 448 w [] none_fails in
      let there : exists (mkdir_all_owned_by_user mount.host uid gid 448 w).1 mount.host ≡ true =
        made-exists root (roots ++ (storage name ++ codes "home" ∷ kept (split slash private))) uid
          gid 448 w
          (All-append (root ∷ roots) (storage name ++ codes "home" ∷ kept (split slash private))
            plain
            (All-append (storage name) (codes "home" ∷ kept (split slash private))
              (storage-IsPlain name named)
              (
                home-IsPlain,
                kept-All (split slash private) (split-All-Lacks slash private)
                    (has_dots-NoParent private inside.1),
              )))
          none_fails in
      rw (inside.0, has_substring_dots, inside.1)
        (rw host (rw fine (rw (dest, there) (refl, no_more))))

  bind_private-adds :
      (dirs : List Text) (builder : Builder) (w : World)
      → All IsInside dirs
      → w.faults ≡ []
      → (bind_private owner name dirs builder w).0
        ≡ ok (record builder {
          binds = builder.binds ++ map (private_mount (root ∷ roots) name) dirs;
        })
  unfolding bind_private
  bind_private-adds [] builder w inside none_fails = rw append-nil refl
  bind_private-adds (private ∷ dirs) builder w inside none_fails =
      let mount = private_mount (root ∷ roots) name private in
      let (added, no_more) = bind_one-adds private builder w inside.0 none_fails in
      rw added (
        bind_private-adds dirs (record builder { binds = builder.binds ++ mount ∷ [] })
          (bind_one owner name private builder w).1 inside.1 no_more
        ∙ ap (λ l. ok (record builder { binds = l }))
            (append_assoc builder.binds (mount ∷ [])
              (map (private_mount (root ∷ roots) name) dirs)))

All-IsInside :
    (dirs : List Text)
    → All (λ s. (s ≢ []) × (is_abs s ≡ false)) dirs
    → All (λ s. (s ≢ []) × (has_dots s ≡ false)) dirs
    → All IsInside dirs
All-IsInside [] r n = tt
All-IsInside (dir ∷ dirs) r n = ((r.0.1, n.0.1), All-IsInside dirs r.1 n.1)

-- For a configuration that UpdateConfig accepts, a container name that ValidateName accepts and an
-- absolute home directory with plain elements, and if no call of the system fails for a reason of
-- its own: no private directory makes bindPrivate panic or fail, and each is shared, in order, from
-- its own place below the container's storage in the home directory, to its place below the home
-- directory inside of the container.
pub bind_private-below :
    (root : Text) (roots : List Text) (name : Text) (uid gid : ℕ) (config : Config)
    (builder : Builder) (w : World)
    → All IsPlain (root ∷ roots)
    → validate_name name ≡ ok tt
    → check_config config ≡ ok tt
    → w.faults ≡ []
    → (bind_private
        (record { home_dir = absolute_text (root ∷ roots); uid = uid; gid = gid })
        name
        config.private_dirs
        builder
        w).0
      ≡ ok (record builder {
        binds = builder.binds ++ map (private_mount (root ∷ roots) name) config.private_dirs;
      })
bind_private-below root roots name uid gid config builder w plain named accepted none_fails =
    let fine = (check_config_iff config).0 accepted in
    bind_private-adds root roots name uid gid plain (validate_name-IsPlain name named)
      config.private_dirs builder w (All-IsInside config.private_dirs fine.relative fine.no_parent)
      none_fails
