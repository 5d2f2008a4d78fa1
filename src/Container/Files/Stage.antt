-- ===== src/Container/Files/Stage.antt =====
-- CreateStaged works beside the container, not in it.
use nsbox.Base.{
  Text, [], ◌∷◌, ◌++◌, codes, true, false, str_eq, Result, ok, err, panic, ◌≡◌, refl, sym, ◌∙◌,
  subst, arith, append_assoc,
}
use nsbox.FilePath.{slash, join_path}
use nsbox.FilePath.Joined.{IsPlain, word-IsPlain}
use nsbox.FilePath.Beside.{beside_from, beside_to, beside_eq}
use nsbox.Os.{Inode, Sys, ◌>>◌, wrapping, ignoring, is_not_exist}
use nsbox.Os.Calls.{below, stat, create, remove_all, mkdir_all}
use nsbox.Os.Frame.{
  Leaves, Leaves-create, Leaves-write, Leaves->>=, Leaves-remove_all, Leaves-mkdir_all, Leaves-stat,
  Leaves-trying,
}
use nsbox.Os.Yields.{Yields, Yields-after, Yields-trying}
use nsbox.Container.Data.{Config, Container}
use nsbox.Container.Name.{validate_name}
use nsbox.Container.Files.{
  lifted, config_json, stage_suffix, write_config_to_new_file, stage_at, if_absent, create_staged,
}

-- Joining one more element to the path means writing it behind a slash.
abbrev pub IsClean : Text → Type 0
IsClean path = (part : Text) → IsPlain part → join_path (path ∷ part ∷ []) ≡ path ++ (slash ∷ part)

pub storage-IsPlain : IsPlain (codes "storage")
unfolding str_eq
storage-IsPlain = word-IsPlain (codes "storage") (ground arith) refl refl refl

config_json-IsPlain : IsPlain config_json
unfolding str_eq
config_json-IsPlain = word-IsPlain config_json (ground arith) refl refl refl

module _ (encode : Config → Text) (path p : Text) (inside : below path p ≡ true)
    (clean : IsClean (path ++ stage_suffix)) where
  -- A file or directory in the staged container.
  pub child_path :
      (part : Text)
      → IsPlain part
      → join_path ((path ++ stage_suffix) ∷ part ∷ [])
        ≡ path ++ (b'.' ∷ codes "stage" ++ (slash ∷ part))
  child_path part plain = clean part plain ∙ append_assoc path stage_suffix (slash ∷ part)

  Leaves-staged_config :
      (config : Config)
      → Leaves p (
          write_config_to_new_file encode config
            (join_path ((path ++ stage_suffix) ∷ config_json ∷ [])))
  unfolding write_config_to_new_file
  Leaves-staged_config config =
      let away : str_eq (join_path ((path ++ stage_suffix) ∷ config_json ∷ [])) p ≡ false =
        subst (λ q. str_eq q p ≡ false) (sym (child_path config_json config_json-IsPlain))
          (beside_eq path p b'.' (codes "stage" ++ (slash ∷ config_json)) inside (ground arith)) in
      Leaves->>= p (create (join_path ((path ++ stage_suffix) ∷ config_json ∷ [])) 438) _
        (Leaves-create p (join_path ((path ++ stage_suffix) ∷ config_json ∷ [])) away 438)
        (λ _.
          Leaves-write p (join_path ((path ++ stage_suffix) ∷ config_json ∷ [])) away
            (encode config))

  stage_at-keeps : (name : Text) (config : Config) → Leaves p (stage_at encode path name config)
  unfolding stage_at
  stage_at-keeps name config =
      let staged = path ++ stage_suffix in
      Leaves->>= p
        (wrapping (codes "failed to remove old staged container")
          (ignoring is_not_exist (remove_all staged)))
        _
        (Leaves-remove_all p staged (beside_from path p b'.' (codes "stage") inside (ground arith)))
        (λ _.
          Leaves->>= p
            (wrapping (codes "failed to create container directory") (mkdir_all staged 493)) _
            (Leaves-mkdir_all p staged 493
              (beside_to path p b'.' (codes "stage") inside (ground arith)))
            (λ _.
              Leaves->>= p
                (wrapping (codes "failed to create container storage directory")
                  (mkdir_all (join_path (staged ∷ codes "storage" ∷ [])) 493))
                _
                (Leaves-mkdir_all p (join_path (staged ∷ codes "storage" ∷ [])) 493 (
                  subst (λ q. below p q ≡ false)
                    (sym (child_path (codes "storage") storage-IsPlain))
                    (beside_to path p b'.' (codes "stage" ++ (slash ∷ codes "storage")) inside
                      (ground arith))))
                (λ _.
                  Leaves->>= p
                    (wrapping (codes "failed to write container config") (
                      write_config_to_new_file encode config
                        (join_path (staged ∷ config_json ∷ []))))
                    _ (Leaves-staged_config config) (λ _ w. refl))))

  if_absent-keeps :
      (name : Text) (config : Config) (r : Result Inode)
      → Leaves p (if_absent encode path name config r)
  if_absent-keeps name config (ok i) w = refl
  if_absent-keeps name config (err e) w = stage_at-keeps name config w
  if_absent-keeps name config (panic m) w = refl

  checked-keeps :
      {A : Type 0} (r : Result (Unit {0})) (m : Sys A) → Leaves p m → Leaves p (lifted r >> m)
  checked-keeps r m h = Leaves->>= p (lifted r) (λ _. m) (λ w. refl) (λ _. h)

-- CreateStaged changes nothing at the path of the container itself nor below it, whatever fails, where
-- joining one more element to the staged path means writing it behind a slash.
pub create_staged-keeps :
    (encode : Config → Text) (data_path : Text → Text) (name : Text) (config : Config) (p : Text)
    → IsClean (data_path name ++ stage_suffix)
    → below (data_path name) p ≡ true
    → Leaves p (create_staged encode data_path name config)
unfolding create_staged
create_staged-keeps encode data_path name config p clean inside =
    let here = join_path (data_path name ∷ config_json ∷ []) in
    checked-keeps encode (data_path name) p inside clean (validate_name name) _ (
      Leaves-trying p (stat here) (if_absent encode (data_path name) name config)
        (Leaves-stat p here) (if_absent-keeps encode (data_path name) p inside clean name config))

-- What CreateStaged returns is the staged container.
abbrev pub IsStaged : Text → Container → Type 0
IsStaged path ct = ct.path ≡ path ++ stage_suffix

stage_at-path :
    (encode : Config → Text) (path name : Text) (config : Config)
    → Yields (IsStaged path) (stage_at encode path name config)
unfolding stage_at
stage_at-path encode path name config =
    let staged = path ++ stage_suffix in
    Yields-after (IsStaged path)
      (wrapping (codes "failed to remove old staged container")
        (ignoring is_not_exist (remove_all staged)))
      _
      (λ _.
        Yields-after (IsStaged path)
          (wrapping (codes "failed to create container directory") (mkdir_all staged 493)) _
          (λ _.
            Yields-after (IsStaged path)
              (wrapping (codes "failed to create container storage directory")
                (mkdir_all (join_path (staged ∷ codes "storage" ∷ [])) 493))
              _
              (λ _.
                Yields-after (IsStaged path)
                  (wrapping (codes "failed to write container config") (
                    write_config_to_new_file encode config (join_path (staged ∷ config_json ∷ []))))
                  _ (λ _ w. refl))))

pub create_staged-path :
    (encode : Config → Text) (data_path : Text → Text) (name : Text) (config : Config)
    → Yields (IsStaged (data_path name)) (create_staged encode data_path name config)
unfolding create_staged
create_staged-path encode data_path name config =
    let path = data_path name in
    Yields-after (IsStaged path) (lifted (validate_name name)) _ (λ a.
      Yields-trying (IsStaged path) (stat (join_path (path ∷ config_json ∷ [])))
        (if_absent encode path name config) (λ w r e. absent r))
  where
    absent :
        (r : Result Inode)
        → Yields (IsStaged (data_path name)) (if_absent encode (data_path name) name config r)
    absent (ok i) = λ w. tt
    absent (err x) = stage_at-path encode (data_path name) name config
    absent (panic m) = λ w. tt
