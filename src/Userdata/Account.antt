-- ===== src/Userdata/Account.antt =====
-- internal/userdata/userdata.go: what is asked of the system about the user. The output of getent, the
-- variables of this process and the tables of users are arguments.
use nsbox.Base.{
  ℕ, Text, List, [], ◌∷◌, ◌++◌, codes, Bool, any, ◌==◌, is_empty, if◌then◌else◌, Option, none, some,
  Result, ok, err, panic, errorf, wrap_err, ◌>>=◌,
}
use mathlib.Core.List.{reverse}

-- unicode.IsSpace
unfoldable pub is_space : ℕ → Bool
is_space c =
    any (λ d. d == c)
      (9 ∷ 10 ∷ 11 ∷ 12 ∷ 13 ∷ 32 ∷ 0x85 ∷ 0xa0 ∷ 0x1680 ∷ 0x2000 ∷ 0x2001 ∷ 0x2002 ∷ 0x2003
        ∷ 0x2004 ∷ 0x2005 ∷ 0x2006 ∷ 0x2007 ∷ 0x2008 ∷ 0x2009 ∷ 0x200a ∷ 0x2028 ∷ 0x2029 ∷ 0x202f
        ∷ 0x205f ∷ 0x3000 ∷ [])

unfoldable pub trim_left : Text → Text
trim_left [] = []
trim_left (c ∷ s) = let rest = trim_left s in if is_space c then rest else c ∷ s

-- strings.TrimSpace
unfoldable pub trim_space : Text → Text
unfolding trim_left
trim_space s = reverse (trim_left (reverse (trim_left s)))

-- What stands behind the last separator, by strings.LastIndex.
unfoldable pub after_last : ℕ → Text → Option Text
after_last sep [] = none
after_last sep (c ∷ s) =
    let rest = after_last sep s in
    let here : Option Text = if c == sep then some s else none in
    elim rest [ none ↦ here | some t ↦ some t ]

abbrev shell_of : Option Text → Result Text
shell_of none = err (errorf (codes "failed to split getent output"))
shell_of (some []) = err (errorf (codes "failed to split getent output"))
shell_of (some (c ∷ s)) = ok (trim_space (c ∷ s))

-- getUserShell, given what `getent passwd` prints.
unfoldable pub get_user_shell : Result Text → Result Text
get_user_shell getent = do
  out ← wrap_err (codes "failed to ask getent for shell") getent
  shell_of (after_last b':' out)

abbrev entry_of : Text → Result Text
entry_of [] = err (errorf (codes "shadow entry missing"))
entry_of (c ∷ s) = ok (c ∷ s)

-- ShadowLine, given what `getent shadow` prints.
unfoldable pub shadow_line : Result Text → Result Text
shadow_line getent = do out ← wrap_err (codes "getent") getent; entry_of (trim_space out)

abbrev number_of : Text → Text → Option ℕ → Result ℕ
number_of what value none =
    panic (codes "failed to convert " ++ (what ++ (codes " (" ++ (value ++ codes ") to number"))))
number_of what value (some n) = ok n

-- NumericIds; `parse_int` is strconv.ParseInt for 32 bits.
unfoldable pub numeric_ids : (Text → Option ℕ) → Text → Text → Result (ℕ × ℕ)
numeric_ids parse_int uid gid = do
  u ← number_of (codes "uid") uid (parse_int uid)
  g ← number_of (codes "gid") gid (parse_int gid)
  ok (u, g)

-- The first variable that is set.
unfoldable pub first_set : (Text → Text) → List Text → Text
first_set getenv [] = []
first_set getenv (name ∷ names) =
    let later = first_set getenv names in if is_empty (getenv name) then later else getenv name

-- BeneathSudo up to the lookup of the user.
unfoldable pub calling_uid : Bool → (Text → Text) → Text
unfolding first_set
calling_uid enable_sudo getenv =
    let names = codes "PKEXEC_UID" ∷ (if enable_sudo then codes "SUDO_UID" ∷ [] else []) in
    let uid = first_set getenv names in if is_empty uid then codes "0" else uid

unfoldable pub beneath_sudo {ℓ} :
    {A : Type ℓ} → ℕ → Bool → (Text → Text) → (Text → Result A) → Result A
beneath_sudo uid enable_sudo getenv lookup_id =
    if uid == 0
    then lookup_id (calling_uid enable_sudo getenv)
    else panic (codes "BeneathSudo run as non-root")
