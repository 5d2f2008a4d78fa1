-- ===== src/Container/Files/Update.antt =====
-- UpdateConfig replaces the configuration file at once.
use nsbox.Base.{
  ℕ, Text, [], ◌∷◌, ◌++◌, codes, false, str_eq, Result, ok, err, panic, wrap_err, ◌≡◌, ◌⊎◌, inl,
  inr, refl, ◌∙◌, ap, arith,
}
use nsbox.FilePath.{join_path}
use nsbox.Os.{World, Sys, continue, ◌>>◌, wrapping}
use nsbox.Os.Calls.{create, write, rename}
use nsbox.Os.Results.{Fails, Fails-wrap, Holds, Written, create-write-Written, rename-Renamed}
use nsbox.Os.Frame.{Leaves-create, Leaves-write, Leaves->>=}
use nsbox.Container.Data.{Config, Container}
use nsbox.Container.Validate.{check_config}
use nsbox.Container.Files.{config_json, write_config_to_new_file, update_config}

str_eq_longer : (s : Text) (c : ℕ) (t : Text) → str_eq (s ++ (c ∷ t)) s ≡ false
unfolding str_eq
str_eq_longer [] c t = refl
str_eq_longer (x ∷ s) c t = ground (arith, str_eq_longer s c t)

-- At the path stands the new file, or what stood there before, by the result.
abbrev pub Replaced : Text → Text → World → Result (Unit {0}) × World → Type 0
Replaced path text w r =
    ((r.0 ≡ ok tt) × Holds text (r.1.at path)) ⊎ (Fails r.0 × (r.1.at path ≡ w.at path))

module _ (path : Text) (c : ℕ) (suffix text : Text) where
  abbrev pub temp : Text
  temp = path ++ (c ∷ suffix)

  abbrev pub replace_file : Text → Text → ℕ → Sys (Unit {0})
  replace_file m n perm =
      wrapping m (create temp perm >> write temp text) >> wrapping n (rename temp path)

  rename-Replaced :
      (n : Text) (w : World)
      → Holds text (w.at temp)
      → Replaced path text w (wrapping n (rename temp path) w)
  rename-Replaced n w (i, e, k) = elim (rename-Renamed temp path w) [
    | inl (o, there) ↦ inl (ap (wrap_err n) o, (i, there ∙ e, k))
    | inr (f, same) ↦ inr (Fails-wrap n (rename temp path w).0 f, same path)
  ]

  pub replace_file-Replaced :
      (m n : Text) (perm : ℕ) (w : World) → Replaced path text w (replace_file m n perm w)
  replace_file-Replaced m n perm w =
      go (((create temp perm >> write temp text) w).0) (((create temp perm >> write temp text) w).1)
        (create-write-Written temp perm text w)
        (Leaves->>= path (create temp perm) (λ _. write temp text)
          (Leaves-create path temp (str_eq_longer path c suffix) perm)
          (λ _. Leaves-write path temp (str_eq_longer path c suffix) text) w)
    where
      go :
          (r : Result (Unit {0})) (w' : World)
          → Written temp text (r, w')
          → w'.at path ≡ w.at path
          → Replaced path text w (continue (wrap_err m r) (λ _. wrapping n (rename temp path)) w')
      go (ok a) w' (inl (e, h)) same = elim (rename-Replaced n w' h) [
        | inl done ↦ inl done
        | inr (f, kept) ↦ inr (f, kept ∙ same)
      ]
      go (ok a) w' (inr f) same = absurd f
      go (err e) w' h same = inr (tt, same)
      go (panic p) w' h same = inr (tt, same)

module _ (encode : Config → Text) where
  abbrev pub config_path : Container → Text
  config_path ct = join_path (ct.path ∷ config_json ∷ [])

  -- UpdateConfig replaces the configuration as a whole, whatever fails. With success it was accepted and
  -- the file has the text that it is written as; otherwise what stands at the path of the file is what
  -- stood there before.
  pub update_config-Replaced :
      (ct : Container) (w : World)
      → (((update_config encode ct w).0 ≡ ok tt)
          × (check_config ct.config ≡ ok tt)
          × Holds (encode ct.config) ((update_config encode ct w).1.at (config_path ct)))
        ⊎ (Fails (update_config encode ct w).0
            × ((update_config encode ct w).1.at (config_path ct) ≡ w.at (config_path ct)))
  unfolding update_config write_config_to_new_file
  update_config-Replaced ct w = go (check_config ct.config) refl
    where
      go :
          (r : Result (Unit {0}))
          → check_config ct.config ≡ r
          → (((update_config encode ct w).0 ≡ ok tt)
              × (check_config ct.config ≡ ok tt)
              × Holds (encode ct.config) ((update_config encode ct w).1.at (config_path ct)))
            ⊎ (Fails (update_config encode ct w).0
                × ((update_config encode ct w).1.at (config_path ct) ≡ w.at (config_path ct)))
      go (ok a) e =
          rw e
            (elim (replace_file-Replaced (config_path ct) b'.' (codes "tmp") (encode ct.config)
              (codes "failed to write temporary config") (codes "failed to overwrite config") 438
              w) [ inl (o, h) ↦ inl (o, refl, h) | inr f ↦ inr f ])
      go (err x) e = rw e (inr (tt, refl))
      go (panic m) e = rw e (inr (tt, refl))
