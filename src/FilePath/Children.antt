-- ===== src/FilePath/Children.antt =====
-- Joining plain elements to a path, and the directories that are passed on the way to it.
use nsbox.Base.{
  Text, List, [], ◌∷◌, ◌++◌, str_eq, split, split-join, split-Lacks, join, All, ◌≡◌, refl, sym, ap,
  subst, ◌∙◌,
}
use nsbox.FilePath.{slash, join_path, absolute_text}
use nsbox.FilePath.Joined.{
  IsPlain, kept, NoParent, clean_absolute, kept-IsPlain, split-slash, IsPlain-NoParent,
  IsPlain-Lacks, join_path-below,
}

pub All-append : (ps qs : List Text) → All IsPlain ps → All IsPlain qs → All IsPlain (ps ++ qs)
All-append [] qs hp hq = hq
All-append (p ∷ ps) qs hp hq = (hp.0, All-append ps qs hp.1 hq)

split-plain : (part : Text) → IsPlain part → split slash part ≡ part ∷ []
split-plain part h = split-Lacks slash part h.lacks_slash

-- The elements of an absolute path with plain elements.
pub split-absolute :
    (part : Text) (parts : List Text)
    → All IsPlain (part ∷ parts)
    → split slash (absolute_text (part ∷ parts)) ≡ [] ∷ part ∷ parts
split-absolute part parts h =
    split-slash _ ∙ ap (λ l. [] ∷ l) (split-join slash part parts (IsPlain-Lacks (part ∷ parts) h))

pub join_path-child :
    (done : List Text) (part : Text)
    → All IsPlain done
    → IsPlain part
    → join_path (absolute_text done ∷ part ∷ []) ≡ absolute_text (done ++ part ∷ [])
unfolding join_path join
join_path-child [] part d h =
    let two : split slash (slash ∷ part) ≡ [] ∷ part ∷ [] =
      split-slash part ∙ ap (λ l. [] ∷ l) (split-plain part h) in
    clean_absolute (slash ∷ part)
      (subst NoParent (sym two) (unfold str_eq in refl, IsPlain-NoParent (part ∷ []) (h, tt)))
    ∙ ap absolute_text (ap kept two ∙ kept-IsPlain (part ∷ []) (h, tt))
join_path-child (root ∷ roots) part d h =
    join_path-below root roots part d
      (subst NoParent (sym (split-plain part h)) (IsPlain-NoParent (part ∷ []) (h, tt)))
    ∙ ap (λ l. absolute_text ((root ∷ roots) ++ l))
        (ap kept (split-plain part h) ∙ kept-IsPlain (part ∷ []) (h, tt))
