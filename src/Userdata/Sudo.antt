-- ===== src/Userdata/Sudo.antt =====
-- internal/userdata/check_privs.go: may the user become root in the container?
pub mod Grants
use nsbox.Base.{
  ℕ, Text, List, [], ◌∷◌, codes, Bool, true, false, not, ◌&&◌, ◌||◌, any, str_eq, str_eq_iff,
  decimal, Option, none, some, if◌then◌else◌, Result, Error, ok, err, panic, errorf, wrap, ◌>>=◌,
  ◌>>◌, ◌≡◌, ◌≢◌, ◌↔◌, refl, sym, ◌∙◌, ap, arith, Bool-cases, inl, inr,
}

pub record CvtsudoersUser : Type 0 where
  pub username : Text
  pub userid : ℕ
  pub usergroup : Text
  pub usergid : ℕ

-- An option is a map from names to JSON values; `none` is a value that is no Boolean.
abbrev pub CvtsudoersOption : Type 0
CvtsudoersOption = List (Text × Option Bool)

pub record CvtsudoersCommandSpec : Type 0 where
  pub commands : List Text
  pub options : List CvtsudoersOption

pub record CvtsudoersUserSpec : Type 0 where
  pub user_list : List CvtsudoersUser
  pub command_specs : List CvtsudoersCommandSpec

pub data SudoAccess : Type 0 where
  no_sudo can_sudo can_sudo_no_passwd : SudoAccess

-- The fields of Userdata that are read here: names and numbers as texts, as os/user has them.
pub record Caller : Type 0 where
  pub username : Text
  pub uid : Text
  pub groups : List (Text × Text)

-- The loop over the entries of one option, up to the first `authenticate`.
unfoldable pub read_option : Bool → CvtsudoersOption → Result Bool
read_option authenticated [] = ok authenticated
read_option authenticated ((k, v) ∷ option) =
    let rest = read_option authenticated option in
    if str_eq k (codes "authenticate")
    then (elim v [ none ↦ panic (codes "interface conversion") | some b ↦ ok b ])
    else rest

unfoldable pub read_options : Bool → List CvtsudoersOption → Result Bool
unfolding read_option
read_options authenticated [] = ok authenticated
read_options authenticated (option ∷ options) = do
  a ← read_option authenticated option
  read_options a options

-- The loop over the command specifications: `authenticated` is carried from one to the next.
unfoldable pub read_commands : Bool → Bool → List CvtsudoersCommandSpec → Result (Bool × Bool)
unfolding read_options
read_commands can_run_any authenticated [] = ok (can_run_any, authenticated)
read_commands can_run_any authenticated (spec ∷ specs) = do
  let runs = can_run_any || any (λ command. str_eq command (codes "ALL")) spec.commands
  a ← read_options authenticated spec.options
  read_commands runs a specs

-- `user.Usergroup == group.Name || fmt.Sprint(user.Usergid) == group.Gid`
unfoldable pub is_group_of : CvtsudoersUser → Text × Text → Bool
is_group_of user (name, gid) = str_eq user.usergroup name || str_eq (decimal user.usergid) gid

unfoldable pub is_user : CvtsudoersUser → Caller → Bool
is_user user caller =
    str_eq user.username caller.username || str_eq (decimal user.userid) caller.uid

-- The loop labelled userSpecSearch.
unfoldable pub search_users : Caller → List CvtsudoersUser → Bool
unfolding is_group_of is_user
search_users caller [] = false
search_users caller (user ∷ users) =
    let rest = search_users caller users in
    if is_user user caller
    then true
    else if any (is_group_of user) caller.groups
    then true
    else rest

-- One round of the loop over the user specifications.
unfoldable pub read_user_spec : Caller → SudoAccess → CvtsudoersUserSpec → Result SudoAccess
unfolding read_commands search_users
read_user_spec caller access spec = do
  (can_run_any, authenticated) ← read_commands false true spec.command_specs
  ok (
      if not can_run_any
      then access
      else if search_users caller spec.user_list
      then (if authenticated then can_sudo else can_sudo_no_passwd)
      else access)

unfoldable pub read_user_specs : Caller → SudoAccess → List CvtsudoersUserSpec → Result SudoAccess
unfolding read_user_spec
read_user_specs caller access [] = ok access
read_user_specs caller access (spec ∷ specs) = do
  a ← read_user_spec caller access spec
  read_user_specs caller a specs

-- checkSudoAccessViaCvtsudoers. `found` is whether the tool is there, `output` what it prints once
-- json.Unmarshal has read it.
unfoldable pub check_sudo_access_via_cvtsudoers :
    Caller → Bool → Result (List CvtsudoersUserSpec) → Result SudoAccess
unfolding read_user_specs
check_sudo_access_via_cvtsudoers caller found output =
    if found then (do specs ← output; read_user_specs caller no_sudo specs) else ok no_sudo

-- checkSudoAccessViaGroupName: `lookup_group` is user.LookupGroupId, a failed one is skipped.
unfoldable pub check_gids : (Text → Option Text) → Text → List Text → SudoAccess
check_gids lookup_group sudo_group [] = no_sudo
check_gids lookup_group sudo_group (gid ∷ gids) =
    let rest = check_gids lookup_group sudo_group gids in
    elim (lookup_group gid) [
      | none ↦ rest
      | some name ↦ if str_eq name sudo_group then can_sudo else rest
    ]

unfoldable pub check_sudo_access_via_group_name :
    (Text → Option Text) → Text → Result (List Text) → Result SudoAccess
unfolding check_gids
check_sudo_access_via_group_name lookup_group sudo_group group_ids = do
  gids ← group_ids
  ok (check_gids lookup_group sudo_group gids)

-- The end of GetSudoAccess: an error grants nothing. A panic is none.
unfoldable pub access_of : Result SudoAccess → Result SudoAccess
access_of (ok access) = ok access
access_of (err e) = ok no_sudo
access_of (panic m) = panic m
