-- ===== src/Container/Auth.antt =====
-- internal/container/container.go: how the user authenticates in the container.
use nsbox.Base.{
  ℕ, false, Text, codes, str_eq, str_eq_iff, map, ◌↔◌, if◌then◌else◌, leb, ◌&&◌, ◌==◌, ◌+◌, Result,
  ok, err, errorf, ◌≡◌, refl, arith,
}

-- strings.ToLower, exact where the result is ASCII: besides the capital letters only U+0130 and the
-- Kelvin sign become ASCII letters. Other characters stand for themselves.
unfoldable pub lower : ℕ → ℕ
lower c =
    if leb b'A' c && leb c b'Z'
    then c + 32
    else if c == 0x130
    then b'i'
    else if c == 0x212a
    then b'k'
    else c

unfoldable pub to_lower : Text → Text
unfolding lower
to_lower s = map lower s

pub data Auth : Type 0 where
  auto manual : Auth

-- authToString
unfoldable pub to_string : Auth → Text
to_string auto = codes "auto"
to_string manual = codes "manual"

-- stringToAuth, behind strings.ToLower
unfoldable pub set_value : Text → Result Auth
set_value value =
    let s = to_lower value in
    if str_eq s (codes "auto")
    then ok auto
    else if str_eq s (codes "manual")
    then ok manual
    else err (errorf (codes "invalid auth value"))

auto-ne-manual : str_eq (codes "auto") (codes "manual") ≡ false
unfolding str_eq
auto-ne-manual = refl

-- A text is accepted as a method exactly if it is the method's name in some mix of capitals.
pub set_value_iff : (s : Text) (a : Auth) → (set_value s ≡ ok a) ↔ (to_lower s ≡ to_string a)
unfolding set_value to_string
set_value_iff s auto =
    ground (arith, str_eq_iff (to_lower s) (codes "auto"), str_eq_iff (to_lower s) (codes "manual"))
set_value_iff s manual = ground (
  arith,
  str_eq_iff (to_lower s) (codes "auto"),
  str_eq_iff (to_lower s) (codes "manual"),
  auto-ne-manual,
)
