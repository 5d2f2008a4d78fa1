-- ===== src/Desktop/Lines.antt =====
-- What the exported desktop files say: every command runs inside of the container.
use nsbox.Base.{
  Text, List, [], ◌∷◌, ◌++◌, codes, true, false, ◌||◌, is_empty, has_prefix, str_eq, str_eq_iff,
  split_once, split_once-Lacks, Option, none, some, ◌≡◌, inl, inr, refl, ◌∙◌, sym, ap, arith,
  Bool-cases, Option-cases,
}
use mathlib.Core.Bool.{true≢false}
use nsbox.FilePath.Beside.{prefix-rest}
use nsbox.Userdata.Account.{trim_space}
use nsbox.Icons.{Gtk, find_icon}
use nsbox.Desktop.Entry.{exec_line, icon_line, unthemed, rewrite_entry, rewrite_line}

starts_exec :
    (line : Text)
    → has_prefix line (codes "Exec=") ≡ true
    → (r : Text) × (split_once b'=' line ≡ (codes "Exec", some r))
starts_exec line q =
    let (r, e) = prefix-rest line (codes "Exec=") q in
    (r, ap (split_once b'=') e ∙ split_once-Lacks b'=' (codes "Exec") r (ground arith))

-- A comment, a group's header or nothing gives no command.
no_comment :
    (line : Text)
    → (has_prefix line (codes "[") || (has_prefix line (codes "#") || is_empty line)) ≡ true
    → has_prefix line (codes "Exec=") ≡ true
    → ⊥
unfolding has_prefix
no_comment [] h q = cc q
no_comment (c ∷ line) h q = ground (arith, h, q)

icon_is_no_exec : (path : Text) → has_prefix (codes "Icon=" ++ path) (codes "Exec=") ≡ true → ⊥
unfolding has_prefix
icon_is_no_exec path q = cc q

module _ (product name : Text) (gtk : Gtk) (roots : List Text) where
  -- If the line gives a command, it is one that runs in the container.
  abbrev pub RunsInside : Text → Type 0
  RunsInside line =
      has_prefix line (codes "Exec=") ≡ true
      → (value : Text) × (line
          ≡ codes "Exec="
            ++ (product ++ (codes " run -no-replay -- " ++ (name ++ (codes " " ++ value)))))

  icon_line-RunsInside :
      (later : List Text) (value line : Text)
      → RunsInside line
      → RunsInside (icon_line product name gtk roots later value line).0
  unfolding icon_line
  icon_line-RunsInside [] value line h = h
  icon_line-RunsInside (root ∷ later) value line h =
      elim (Option-cases (unthemed (find_icon gtk root value))) [
        | inl e ↦ rw e (icon_line-RunsInside later value line h)
        | inr (path, e) ↦ rw e (λ q. absurd (icon_is_no_exec path q))
      ]

  -- The entry is read off the line; a line of another key gives no command.
  entry-RunsInside :
      (line : Text)
      → RunsInside (rewrite_entry product name gtk roots line (split_once b'=' line)).0
  unfolding rewrite_entry exec_line
  entry-RunsInside line = go (split_once b'=' line) refl
    where
      other_key :
          (key value : Text)
          → split_once b'=' line ≡ (key, some value)
          → str_eq key (codes "Exec") ≡ false
          → RunsInside line
      other_key key value e h q =
          let (r, s) = starts_exec line q in
          let same : key ≡ codes "Exec" = ap (λ (x : Text × Option Text). x.0) (sym e ∙ s) in
          absurd (true≢false (sym ((str_eq_iff key (codes "Exec")).1 same) ∙ h))

      go :
          (parts : Text × Option Text)
          → split_once b'=' line ≡ parts
          → RunsInside (rewrite_entry product name gtk roots line parts).0
      go (key, none) e = λ q.
          let (r, s) = starts_exec line q in
          let gone : none ≡ some r = ap (λ (x : Text × Option Text). x.1) (sym e ∙ s) in cc gone
      go (key, some value) e = elim (Bool-cases (str_eq key (codes "Exec"))) [
        | inl h ↦ rw h (λ q. (value, refl))
        | inr h ↦ elim (Bool-cases (str_eq key (codes "Icon"))) [
          | inl k ↦ rw (h, k) (icon_line-RunsInside roots value line (other_key key value e h))
          | inr k ↦ rw (h, k) (other_key key value e h)
        ]
      ]

  pub line-RunsInside : (raw : Text) → RunsInside (rewrite_line product name gtk roots raw).0
  unfolding rewrite_line
  line-RunsInside raw =
      let line = trim_space raw in
      elim (Bool-cases
        (has_prefix line (codes "[") || (has_prefix line (codes "#") || is_empty line))) [
          | inl h ↦ rw h (λ q. absurd (no_comment line h q))
          | inr h ↦ rw h (entry-RunsInside line)
        ]
