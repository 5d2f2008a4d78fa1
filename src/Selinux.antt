-- ===== src/Selinux.antt =====
-- internal/selinux/selinux.go: the label that the container is started with.
use nsbox.Base.{
  Text, List, [], ◌∷◌, codes, length, join, split, split-join, split-All-Lacks, All, Lacks, Result,
  ok, err, panic, errorf, sym, subst, ◌≢◌, arith,
}

abbrev pub system_role : Text
system_role = codes "system_r"

abbrev pub spc_type : Text
spc_type = codes "spc_t"

abbrev pub replaced : List Text → Result Text
replaced (user ∷ role ∷ kind ∷ level ∷ []) =
    ok (join (codes ":") (user ∷ system_role ∷ spc_type ∷ level ∷ []))
replaced (user ∷ role ∷ kind ∷ level ∷ categories ∷ []) =
    ok (join (codes ":") (user ∷ system_role ∷ spc_type ∷ level ∷ categories ∷ []))
replaced parts = err (errorf (codes "invalid SELinux label: %s"))

-- GetExecLabel
unfoldable pub get_exec_label : Text → Result Text
get_exec_label current_label = replaced (split b':' current_label)

-- Four or five fields, of which the second and the third are the container's.
pub data Relabelled : List Text → List Text → Type 0 where
  four :
      (user role kind level : Text)
      → Relabelled (user ∷ role ∷ kind ∷ level ∷ []) (user ∷ system_role ∷ spc_type ∷ level ∷ [])
  five :
      (user role kind level categories : Text)
      → Relabelled
          (user ∷ role ∷ kind ∷ level ∷ categories ∷ [])
          (user ∷ system_role ∷ spc_type ∷ level ∷ categories ∷ [])

-- What a label leads to, by its fields.
abbrev pub Ends : List Text → Result Text → Type 0
Ends parts (ok new) = Relabelled parts (split b':' new)
Ends parts (err e) = (length parts ≢ 4) × (length parts ≢ 5)
Ends parts (panic m) = ⊥

replaced-Ends : (parts : List Text) → All (Lacks b':') parts → Ends parts (replaced parts)
replaced-Ends [] h = (λ e. omega (arith, e), λ e. omega (arith, e))
replaced-Ends (a ∷ []) h = (λ e. omega (arith, e), λ e. omega (arith, e))
replaced-Ends (a ∷ b ∷ []) h = (λ e. omega (arith, e), λ e. omega (arith, e))
replaced-Ends (a ∷ b ∷ c ∷ []) h = (λ e. omega (arith, e), λ e. omega (arith, e))
replaced-Ends (a ∷ b ∷ c ∷ d ∷ []) (ha, (hb, (hc, (hd, h)))) =
    subst (Relabelled (a ∷ b ∷ c ∷ d ∷ []))
      (sym (
        split-join b':' a (system_role ∷ spc_type ∷ d ∷ [])
          (ha, (ground arith, (ground arith, (hd, tt))))))
      (four a b c d)
replaced-Ends (a ∷ b ∷ c ∷ d ∷ e ∷ []) (ha, (hb, (hc, (hd, (he, h))))) =
    subst (Relabelled (a ∷ b ∷ c ∷ d ∷ e ∷ []))
      (sym (
        split-join b':' a (system_role ∷ spc_type ∷ d ∷ e ∷ [])
          (ha, (ground arith, (ground arith, (hd, (he, tt)))))))
      (five a b c d e)
replaced-Ends (a ∷ b ∷ c ∷ d ∷ e ∷ f ∷ parts) h = (λ q. omega (arith, q), λ q. omega (arith, q))

-- A label of four or five fields becomes one with the same fields but for the second and the third,
-- which are those of the container; any other label is an error, and none a panic.
pub get_exec_label-Ends : (label : Text) → Ends (split b':' label) (get_exec_label label)
unfolding get_exec_label
get_exec_label-Ends label = replaced-Ends (split b':' label) (split-All-Lacks b':' label)
