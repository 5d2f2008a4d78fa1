-- ===== src/Inventory/Default.antt =====
-- The default container is replaced as a whole.
use nsbox.Base.{
  Text, List, [], ◌∷◌, ◌++◌, codes, false, Option, none, some, str_eq, str_eq_refl, Result, Errno,
  ok, err, panic, wrap_err, ◌≡◌, ◌⊎◌, inl, inr, refl, ◌∙◌, ap, subst, is_empty, ◌||◌, arith,
}
use nsbox.Os.{link, Inode, World, continue, ◌>>◌, wrapping, ignoring, is_not_exist, syscall}
use nsbox.Os.Calls.{remove, symlink, symlink_at, rename, read_file}
use nsbox.Os.Frame.{Leaves, Leaves-remove, Leaves-symlink, Leaves->>=, Leaves-read_file}
use nsbox.Os.Results.{Fails, Fails-wrap, rename-Renamed}
use nsbox.Container.Data.{Config, Container}
use nsbox.Container.Name.{validate_name}
use nsbox.Container.Files.{lifted, config_json, decoded, open_path, open_container}
use nsbox.FilePath.{join_path}
use nsbox.Os.Yields.{Got, Yields, Yields-after}
use nsbox.Inventory.{replace_default, set_default_container}

-- A link to the target.
abbrev pub IsLinkTo : Text → Option Inode → Type 0
IsLinkTo target o = (i : Inode) × (o ≡ some i) × (i.node ≡ link target)

symlink_at-IsLinkTo :
    (o : Option Inode) (target path : Text) (w : World)
    → IsLinkTo target ((symlink_at o target path w).1.at path)
      ⊎ Fails (symlink_at o target path w).0
symlink_at-IsLinkTo none target path w =
    inl (record { node = link target; uid = 0; gid = 0; mode = 511 }, rw str_eq_refl refl, refl)
symlink_at-IsLinkTo (some i) target path w = inr tt

pub symlink-IsLinkTo :
    (target path : Text) (w : World)
    → IsLinkTo target ((symlink target path w).1.at path) ⊎ Fails (symlink target path w).0
unfolding symlink syscall
symlink-IsLinkTo target path w = go w.faults
  where
    go :
        (faults : List (Option Errno))
        → IsLinkTo target ((symlink target path (record { at = w.at; faults = faults })).1.at path)
          ⊎ Fails (symlink target path (record { at = w.at; faults = faults })).0
    go [] = symlink_at-IsLinkTo (w.at path) target path (record { at = w.at; faults = [] })
    go (none ∷ faults) =
        symlink_at-IsLinkTo (w.at path) target path (record { at = w.at; faults = faults })
    go (some e ∷ faults) = inr tt

-- What a program leaves at the path of the default link: the new link, or what stood there.
abbrev pub Relinked : Text → Text → World → Result (Unit {0}) × World → Type 0
Relinked path target w r =
    ((r.0 ≡ ok tt) × IsLinkTo target (r.1.at path)) ⊎ (Fails r.0 × (r.1.at path ≡ w.at path))

tmp_differs : (path : Text) → str_eq (path ++ codes ".tmp") path ≡ false
unfolding str_eq
tmp_differs [] = refl
tmp_differs (x ∷ path) = ground (arith, tmp_differs path)

module _ (path target : Text) where
  rename-Relinked :
      (w : World)
      → IsLinkTo target (w.at (path ++ codes ".tmp"))
      → Relinked path target w (
          wrapping (codes "failed to rename temporary link") (rename (path ++ codes ".tmp") path) w)
  rename-Relinked w (i, e, k) = elim (rename-Renamed (path ++ codes ".tmp") path w) [
    | inl (o, there) ↦
        inl (ap (wrap_err (codes "failed to rename temporary link")) o, (i, there ∙ e, k))
    | inr (f, same) ↦ inr (
      Fails-wrap (codes "failed to rename temporary link") (rename (path ++ codes ".tmp") path w).0
          f,
      same path,
    )
  ]

  symlink-Relinked :
      (w : World)
      → Relinked path target w (
          (wrapping
                (codes "failed to symlink new temporary default container")
                (symlink target (path ++ codes ".tmp"))
              >> wrapping
                  (codes "failed to rename temporary link")
                  (rename (path ++ codes ".tmp") path))
            w)
  symlink-Relinked w =
      go (symlink target (path ++ codes ".tmp") w).0 (symlink target (path ++ codes ".tmp") w).1
        (symlink-IsLinkTo target (path ++ codes ".tmp") w)
        (Leaves-symlink path (path ++ codes ".tmp") (tmp_differs path) target w)
    where
      go :
          (r : Result (Unit {0})) (w' : World)
          → IsLinkTo target (w'.at (path ++ codes ".tmp")) ⊎ Fails r
          → w'.at path ≡ w.at path
          → Relinked path target w (
              continue
                (wrap_err (codes "failed to symlink new temporary default container") r)
                (λ _.
                  wrapping
                    (codes "failed to rename temporary link")
                    (rename (path ++ codes ".tmp") path))
                w')
      go (ok a) w' (inl h) kept = elim (rename-Relinked w' h) [
        | inl done ↦ inl done
        | inr (f, same) ↦ inr (f, same ∙ kept)
      ]
      go (ok a) w' (inr f) kept = absurd f
      go (err e) w' h kept = inr (tt, kept)
      go (panic m) w' h kept = inr (tt, kept)

replace_default-Relinked :
    (path : Text) (ct : Container) (w : World) → Relinked path ct.path w (replace_default path ct w)
unfolding replace_default
replace_default-Relinked path ct w =
    go (ignoring is_not_exist (remove (path ++ codes ".tmp")) w).0
      (ignoring is_not_exist (remove (path ++ codes ".tmp")) w).1
      (Leaves-remove path (path ++ codes ".tmp") (tmp_differs path) w)
  where
    go :
        (r : Result (Unit {0})) (w' : World)
        → w'.at path ≡ w.at path
        → Relinked path ct.path w (
            continue
              (wrap_err (codes "failed to unlink old temporary default link") r)
              (λ _.
                wrapping
                  (codes "failed to symlink new temporary default container")
                  (symlink ct.path (path ++ codes ".tmp"))
                >> wrapping
                    (codes "failed to rename temporary link")
                    (rename (path ++ codes ".tmp") path))
              w')
    go (ok a) w' kept = elim (symlink-Relinked path ct.path w') [
      | inl done ↦ inl done
      | inr (f, same) ↦ inr (f, same ∙ kept)
    ]
    go (err e) w' kept = inr (tt, kept)
    go (panic m) w' kept = inr (tt, kept)

module _ (decode : Text → Option Config) (data_path : Text → Text) where
  -- Opening a container reads its file and names its directory.
  Yields-open_container :
      (name : Text)
      → Yields
          (λ ct. (ct.name ≡ name) × (ct.path ≡ data_path name))
          (open_container decode data_path name)
  unfolding open_container open_path
  Yields-open_container name =
      Yields-after (λ ct. (ct.name ≡ name) × (ct.path ≡ data_path name))
        (lifted (validate_name name)) _
        (λ _.
          Yields-after (λ ct. (ct.name ≡ name) × (ct.path ≡ data_path name))
            (wrapping (codes "failed to read container config")
              (read_file (join_path (data_path name ∷ config_json ∷ []))))
            _ (λ text. by_config (decode text)))
    where
      by_config :
          (c : Option Config)
          → Yields
              (λ ct. (ct.name ≡ name) × (ct.path ≡ data_path name))
              (decoded decode (data_path name) name c)
      by_config none w = tt
      by_config (some config) w = (refl, refl)

  Leaves-open_container : (p name : Text) → Leaves p (open_container decode data_path name)
  unfolding open_container open_path
  Leaves-open_container p name =
      Leaves->>= p (lifted (validate_name name)) _ (λ w. refl)
        (λ _.
          Leaves->>= p
            (wrapping (codes "failed to read container config")
              (read_file (join_path (data_path name ∷ config_json ∷ []))))
            _ (Leaves-read_file p (join_path (data_path name ∷ config_json ∷ [])))
            (λ text. by_config (decode text)))
    where
      by_config : (c : Option Config) → Leaves p (decoded decode (data_path name) name c)
      by_config none = λ w. refl
      by_config (some config) = λ w. refl

  -- For a name that is neither empty nor a dash, SetDefaultContainer replaces the link to the default
  -- container as a whole, whatever fails: with success it leads to the directory of the container of
  -- that name, otherwise what stands at its path is what stood there before.
  pub set_default_container-Relinked :
      (path name : Text) (w : World)
      → (is_empty name || str_eq name (codes "-")) ≡ false
      → Relinked path (data_path name) w (set_default_container decode data_path path name w)
  unfolding set_default_container
  set_default_container-Relinked path name w named = rw named (
      go (open_container decode data_path name w).0 (open_container decode data_path name w).1
        (Yields-open_container name w) (Leaves-open_container path name w))
    where
      go :
          (r : Result Container) (w' : World)
          → Got (λ ct. (ct.name ≡ name) × (ct.path ≡ data_path name)) r
          → w'.at path ≡ w.at path
          → Relinked path (data_path name) w (continue r (replace_default path) w')
      go (ok ct) w' (n, q) kept =
          subst (λ t. Relinked path t w (replace_default path ct w')) q
            (elim (replace_default-Relinked path ct w') [
              | inl done ↦ inl done
              | inr (f, same) ↦ inr (f, same ∙ kept)
            ])
      go (err e) w' h kept = inr (tt, kept)
      go (panic m) w' h kept = inr (tt, kept)
