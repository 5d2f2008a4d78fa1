-- ===== src/Userdata/Sudo/Grants.antt =====
-- When check_privs.go grants sudo, said without its loops.
use nsbox.Base.{
  Text, List, [], ◌∷◌, codes, Bool, true, false, ◌&&◌, ◌||◌, any, str_eq, decimal, Error, ok, err,
  >>=-eq-ok, ◌≡◌, refl, sym, ◌∙◌, ap, arith,
}
use nsbox.Userdata.Sudo.{
  CvtsudoersUser, CvtsudoersCommandSpec, CvtsudoersUserSpec, SudoAccess, no_sudo, can_sudo,
  can_sudo_no_passwd, Caller, read_options, read_commands, is_group_of, is_user, search_users,
  read_user_spec, read_user_specs, check_sudo_access_via_cvtsudoers, access_of,
}

-- A command specification that names every command.
abbrev pub runs_all : CvtsudoersCommandSpec → Bool
runs_all spec = any (λ command. str_eq command (codes "ALL")) spec.commands

-- An entry with the caller's name or number, or with the name or number of one of the caller's groups.
abbrev pub stands_for : Caller → CvtsudoersUser → Bool
stands_for caller user =
    str_eq user.username caller.username
    || (str_eq (decimal user.userid) caller.uid
        || any (λ (g : Text × Text). str_eq user.usergroup g.0 || str_eq (decimal user.usergid) g.1)
            caller.groups)

abbrev pub allows : Caller → CvtsudoersUserSpec → Bool
allows caller spec = any runs_all spec.command_specs && any (stands_for caller) spec.user_list

unfoldable pub granted : SudoAccess → Bool
granted no_sudo = false
granted can_sudo = true
granted can_sudo_no_passwd = true

any-groups :
    (user : CvtsudoersUser) (groups : List (Text × Text))
    → any (is_group_of user) groups
      ≡ any
          (λ (g : Text × Text). str_eq user.usergroup g.0 || str_eq (decimal user.usergid) g.1)
          groups
unfolding is_group_of
any-groups user [] = refl
any-groups user ((name, gid) ∷ groups) =
    ap (λ b. (str_eq user.usergroup name || str_eq (decimal user.usergid) gid) || b)
      (any-groups user groups)

search_users-any :
    (caller : Caller) (users : List CvtsudoersUser)
    → search_users caller users ≡ any (stands_for caller) users
unfolding search_users is_user
search_users-any caller [] = refl
search_users-any caller (user ∷ users) =
    rw (search_users-any caller users, any-groups user caller.groups) (ground arith)

read_commands-any :
    (runs auth : Bool) (specs : List CvtsudoersCommandSpec) (r : Bool × Bool)
    → read_commands runs auth specs ≡ ok r
    → r.0 ≡ (runs || any runs_all specs)
unfolding read_commands
read_commands-any runs auth [] r h = ground arith
read_commands-any runs auth (spec ∷ specs) r h =
    let (a, _, k) = >>=-eq-ok (read_options auth spec.options) _ h in
    read_commands-any (runs || runs_all spec) a specs r k ∙ ground arith

read_user_spec-granted :
    (caller : Caller) (access : SudoAccess) (spec : CvtsudoersUserSpec) (a : SudoAccess)
    → read_user_spec caller access spec ≡ ok a
    → granted a ≡ (granted access || allows caller spec)
unfolding read_user_spec granted
read_user_spec-granted caller access spec a h =
    let (r, e, k) = >>=-eq-ok (read_commands false true spec.command_specs) _ h in
    ground (
      arith,
      k,
      read_commands-any false true spec.command_specs r e,
      search_users-any caller spec.user_list,
    )

read_user_specs-granted :
    (caller : Caller) (access : SudoAccess) (specs : List CvtsudoersUserSpec) (a : SudoAccess)
    → read_user_specs caller access specs ≡ ok a
    → granted a ≡ (granted access || any (allows caller) specs)
unfolding read_user_specs
read_user_specs-granted caller access [] a h = ground arith
read_user_specs-granted caller access (spec ∷ specs) a h =
    let (b, e, k) = >>=-eq-ok (read_user_spec caller access spec) _ h in
    ground (
      arith,
      read_user_spec-granted caller access spec b e,
      read_user_specs-granted caller b specs a k,
    )

-- When the sudoers are read without a panic, the caller is granted sudo exactly if one user
-- specification has a command list with ALL in it and an entry whose user name or user number is that
-- of the caller, or whose group name or group number is that of one of the caller's groups. A number
-- that an entry does not have counts as 0 and a name as empty, so that an entry of another user
-- matches a caller who is in group 0.
pub check_sudo_access_iff :
    (caller : Caller) (specs : List CvtsudoersUserSpec) (a : SudoAccess)
    → check_sudo_access_via_cvtsudoers caller true (ok specs) ≡ ok a
    → granted a ≡ any (allows caller) specs
unfolding check_sudo_access_via_cvtsudoers
check_sudo_access_iff caller specs a h =
    read_user_specs-granted caller no_sudo specs a h ∙ unfold granted in refl

-- If cvtsudoers is not there, fails, or prints what cannot be decoded, GetSudoAccess grants
-- nothing.
pub access_of_failure :
    (caller : Caller) (found : Bool) (e : Error)
    → access_of (check_sudo_access_via_cvtsudoers caller found (err e)) ≡ ok no_sudo
unfolding check_sudo_access_via_cvtsudoers access_of
access_of_failure caller found e = ground arith

decimal-zero : decimal 0 ≡ codes "0"
unfolding decimal
decimal-zero = refl

in_group_zero :
    (user : CvtsudoersUser) (groups : List (Text × Text))
    → user.usergid ≡ 0
    → any (λ g. str_eq (codes "0") g.1) groups ≡ true
    → any (is_group_of user) groups ≡ true
unfolding is_group_of
in_group_zero user [] zero h = h
in_group_zero user ((name, gid) ∷ groups) zero h =
    ground (arith, in_group_zero user groups zero, ap decimal zero ∙ decimal-zero)

-- Let the sudoers be read without a panic, and let their first specification name every command
-- and have a first entry with the group number 0, which is what an entry of a user only decodes
-- to. Then a caller in a group with number 0 is granted sudo.
pub group_zero-granted :
    (caller : Caller) (after : List CvtsudoersUserSpec) (spec : CvtsudoersUserSpec)
    (user : CvtsudoersUser) (users : List CvtsudoersUser) (a : SudoAccess)
    → check_sudo_access_via_cvtsudoers caller true (ok (spec ∷ after)) ≡ ok a
    → any runs_all spec.command_specs ≡ true
    → spec.user_list ≡ user ∷ users
    → user.usergid ≡ 0
    → any (λ g. str_eq (codes "0") g.1) caller.groups ≡ true
    → granted a ≡ true
group_zero-granted caller after spec user users a h everything entries zero member =
    let group =
      sym (any-groups user caller.groups) ∙ in_group_zero user caller.groups zero member in
    let listed : any (stands_for caller) spec.user_list ≡ true =
      rw entries (ground (arith, group)) in
    check_sudo_access_iff caller (spec ∷ after) a h ∙ ground (arith, everything, listed)
