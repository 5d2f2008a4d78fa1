-- ===== src/Desktop/IconFrame.antt =====
-- Linking the icons touches nothing outside of the directory of the exports.
use nsbox.Base.{
  Text, List, [], ◌∷◌, codes, true, str_eq, split, split-Lacks, split-All-Lacks, Lacks, All, Result,
  ok, err, panic, ◌≡◌, refl, ◌∙◌, sym, subst,
}
use nsbox.FilePath.{slash, join_path, absolute_text, dir_name, base_name}
use nsbox.FilePath.Rel.{rel}
use nsbox.FilePath.Joined.{IsPlain, NoParent}
use nsbox.FilePath.Apart.{Apart, below_trans}
use nsbox.FilePath.Inside.{below-join, below-join_twice}
use nsbox.Os.{Sys, pure, ignoring, is_exist}
use nsbox.Os.Calls.{below, mkdir_all, symlink}
use nsbox.Os.Frame.{Leaves}
use nsbox.Icons.{Icon}
use nsbox.Desktop.ExportIcons.{
  first_part, if_done, step, link_icon, link_below, export_icon, export_icons,
}
use nsbox.Desktop.Placed.{AllPlaced}
use nsbox.Desktop.Frame.{mkdir_inside, symlink_inside}

-- A step and what follows if it succeeded.
Leaves-step :
    (p : Text) (first rest : Sys (Unit {0}))
    → Leaves p first
    → Leaves p rest
    → Leaves p (step first rest)
Leaves-step p first rest h k w = go (first w).0 (first w).1 ∙ h w
  where
    go : (r : Result (Unit {0})) → Leaves p (if_done rest r)
    go (ok done) v = k v
    go (err e) v = refl
    go (panic m) v = refl

first_part-NoParent :
    (parts : List Text)
    → All (Lacks slash) parts
    → NoParent parts
    → NoParent (split slash (first_part parts))
first_part-NoParent [] l n = unfold split str_eq in (refl, tt)
first_part-NoParent (part ∷ parts) l n = subst NoParent (sym (split-Lacks slash part l.0)) (n.0, tt)

plain-NoParent : (part : Text) → IsPlain part → NoParent (split slash part)
plain-NoParent part h =
    subst NoParent (sym (split-Lacks slash part h.lacks_slash)) (h.not_parent, tt)

index_theme-NoParent : NoParent (split slash (codes "index.theme"))
unfolding split str_eq
index_theme-NoParent = (refl, tt)

module _ (root : Text) (parents : List Text) (plain : All IsPlain (root ∷ parents)) (dir p : Text)
    (apart : Apart dir p) (around : below dir (absolute_text (root ∷ parents)) ≡ true) where
  abbrev pub icons_text : Text
  icons_text = absolute_text (root ∷ parents)

  one_inside :
      (sub : Text)
      → NoParent (split slash sub)
      → below dir (join_path (icons_text ∷ sub ∷ [])) ≡ true
  one_inside sub h = below_trans dir icons_text _ around (below-join root parents sub plain h)

  two_inside :
      (a b : Text)
      → NoParent (split slash a)
      → NoParent (split slash b)
      → below dir (join_path (join_path (icons_text ∷ a ∷ []) ∷ b ∷ [])) ≡ true
  two_inside a b h k =
      below_trans dir icons_text _ around (below-join_twice root parents a b plain h k)

  Leaves-link_icon :
      (icon : Icon) (sub : Text)
      → NoParent (split slash sub)
      → IsPlain (base_name icon.path)
      → Leaves p (link_icon icons_text icon sub)
  unfolding link_icon
  Leaves-link_icon icon sub up name =
      let theme = first_part (split slash sub) in
      let theme_up = first_part-NoParent (split slash sub) (split-All-Lacks slash sub) up in
      let theme_dir = join_path (icons_text ∷ theme ∷ []) in
      let index = join_path (theme_dir ∷ codes "index.theme" ∷ []) in
      let source = join_path (icon.root ∷ theme ∷ codes "index.theme" ∷ []) in
      let icon_dir = join_path (icons_text ∷ sub ∷ []) in
      let target = join_path (icon_dir ∷ base_name icon.path ∷ []) in
      let link_last = step (symlink icon.path target) (pure tt) in
      let from_icon_dir = step (mkdir_all icon_dir 493) link_last in
      let from_index = step (ignoring is_exist (symlink source index)) from_icon_dir in
      Leaves-step p (mkdir_all theme_dir 493) from_index
        (mkdir_inside dir p theme_dir apart (one_inside theme theme_up) 493)
        (Leaves-step p (ignoring is_exist (symlink source index)) from_icon_dir
          (symlink_inside dir p index apart
            (two_inside theme (codes "index.theme") theme_up index_theme-NoParent) source)
          (Leaves-step p (mkdir_all icon_dir 493) link_last
            (mkdir_inside dir p icon_dir apart (one_inside sub up) 493)
            (Leaves-step p (symlink icon.path target) (pure tt)
              (symlink_inside dir p target apart
                (two_inside sub (base_name icon.path) up
                  (plain-NoParent (base_name icon.path) name))
                icon.path)
              (λ w. refl))))

  pub Leaves-export_icons :
      (icons : List Icon) → AllPlaced icons → Leaves p (export_icons icons_text icons)
  unfolding export_icons export_icon
  Leaves-export_icons [] h = λ w. refl
  Leaves-export_icons (icon ∷ icons) h =
      Leaves-step p (export_icon icons_text icon) (export_icons icons_text icons)
        (below_root (rel icon.root (dir_name icon.path)) refl) (Leaves-export_icons icons h.1)
    where
      below_root :
          (r : Result Text)
          → rel icon.root (dir_name icon.path) ≡ r
          → Leaves p (link_below icons_text icon r)
      below_root (ok sub) e = Leaves-link_icon icon sub (h.0.no_parent sub e) h.0.plain_name
      below_root (err x) e = λ w. refl
      below_root (panic m) e = λ w. refl
