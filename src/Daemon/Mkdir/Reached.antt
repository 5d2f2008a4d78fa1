-- ===== src/Daemon/Mkdir/Reached.antt =====
-- An absolute path with plain elements is the last of the directories that are made on the way to it.
use nsbox.Base.{
  Text, List, [], ◌∷◌, ◌++◌, true, any, str_eq, str_eq_refl, join, All, ◌≡◌, refl, ap, subst, ◌∙◌,
  arith, append_assoc, ℕ, has_prefix,
}
use nsbox.FilePath.{absolute_text, is_abs}
use nsbox.FilePath.Joined.{IsPlain}
use nsbox.FilePath.Children.{join_path-child, split-absolute, All-append}
use nsbox.Os.{World}
use nsbox.Daemon.Mkdir.{mkdir_all_owned_by_user}
use nsbox.Daemon.Mkdir.OnePart.{or_owned}
use nsbox.Daemon.Mkdir.Ownership.{prefixes, directories, mkdir_all-owned}

prefixes-reach :
    (done : List Text) (part : Text) (parts : List Text)
    → All IsPlain done
    → All IsPlain (part ∷ parts)
    → any
        (λ q. str_eq q (absolute_text (done ++ part ∷ parts)))
        (prefixes (absolute_text done) (part ∷ parts))
      ≡ true
prefixes-reach done part [] d h =
    rw (join_path-child done part d h.0, str_eq_refl (absolute_text (done ++ part ∷ []))) refl
prefixes-reach done part (next ∷ parts) d h =
    let there : any (λ q. str_eq q (absolute_text (done ++ part ∷ next ∷ parts)))
          (prefixes (absolute_text (done ++ part ∷ [])) (next ∷ parts))
        ≡ true =
      subst
        (λ l.
          any (λ q. str_eq q (absolute_text l))
            (prefixes (absolute_text (done ++ part ∷ [])) (next ∷ parts))
          ≡ true)
        (append_assoc done (part ∷ []) (next ∷ parts))
        (prefixes-reach (done ++ part ∷ []) next parts (All-append done (part ∷ []) d (h.0, tt))
          h.1) in
    rw (join_path-child done part d h.0) (ground (arith, there))

directories-reach :
    (part : Text) (parts : List Text)
    → All IsPlain (part ∷ parts)
    → any
        (λ q. str_eq q (absolute_text (part ∷ parts)))
        (directories (absolute_text (part ∷ parts)))
      ≡ true
unfolding is_abs has_prefix join
directories-reach part parts h =
    rw (split-absolute part parts h) (prefixes-reach [] part parts tt h)

-- With no failure, the directory asked for stands afterwards.
pub made_directory :
    (part : Text) (parts : List Text) (uid gid perm : ℕ) (w : World)
    → All IsPlain (part ∷ parts)
    → w.faults ≡ []
    → (mkdir_all_owned_by_user (absolute_text (part ∷ parts)) uid gid perm w).1.at
        (absolute_text (part ∷ parts))
      ≡ or_owned (w.at (absolute_text (part ∷ parts))) true uid gid perm
made_directory part parts uid gid perm w h none_fails =
    (mkdir_all-owned (absolute_text (part ∷ parts)) uid gid perm w (absolute_text (part ∷ parts))
      none_fails).1
    ∙ ap (λ b. or_owned (w.at (absolute_text (part ∷ parts))) b uid gid perm)
        (directories-reach part parts h)
