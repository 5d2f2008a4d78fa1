-- ===== src/Container/Validate/Accepted.antt =====
-- Which configurations UpdateConfig accepts.
use nsbox.Base.{
  Text, List, [], ◌∷◌, codes, Bool, true, false, not, ◌&&◌, ◌||◌, str_eq, all, All, ◌≡◌, ◌≢◌, ◌↔◌,
  ◌⊎◌, refl, arith, Bool-cases, inl, inr, Result, ok, ◌>>◌, reject,
}
use nsbox.Regexp.{Regexp, match_string}
use nsbox.FilePath.{is_abs}
use nsbox.Container.Data.{Config}
use nsbox.Container.Validate.{
  check_array_items_against_regex, check_devices, check_config, bind_mount_regexp,
  syscall_filter_regexp, relative_regexp, no_parent_regexp,
}
use nsbox.Container.Validate.Patterns.{has_dots}
use nsbox.Container.Validate.Forms.{in_line, bind_mount_iff, relative_iff, no_parent_iff}
use nsbox.Container.Validate.Syscalls.{is_group, ends_in_word, syscall_filter_iff}

>>-ok : (m k : Result (Unit {0})) → ((m >> k) ≡ ok tt) ↔ ((m ≡ ok tt) × (k ≡ ok tt))
>>-ok (ok tt) k = (λ h. (refl, h), λ h. h.1)
>>-ok m k = ground arith

-- One check of a list, against a description of the texts that its pattern accepts.
check_items_iff :
    (P : Text → Type 0) (r : Regexp)
    → ((s : Text) → (match_string r s ≡ true) ↔ P s)
    → (items : List Text) (e : Text)
    → (check_array_items_against_regex items r e ≡ ok tt) ↔ All P items
unfolding check_array_items_against_regex
check_items_iff P r iff [] e = (λ _. tt, λ _. refl)
check_items_iff P r iff (s ∷ items) e =
    let (to, from) = check_items_iff P r iff items e in
    elim (Bool-cases (match_string r s)) [
      | inl h ↦ rw h (λ k. ((iff s).0 h, to k), λ k. from k.1)
      | inr h ↦ rw h (λ k. ground (arith, k), λ k. ground (arith, h, (iff s).1 k.0))
    ]

-- A device that may be shared with a container that boots, or does not boot.
abbrev pub IsShareable : Bool → Text → Type 0
IsShareable boot dev =
    ((str_eq dev (codes "*") ≡ true) × (boot ≡ false))
    ⊎ ((str_eq dev (codes "*") ≡ false) × (is_abs dev ≡ true))

check_devices_iff :
    (boot : Bool) (devs : List Text)
    → (check_devices boot devs ≡ ok tt) ↔ All (IsShareable boot) devs
unfolding check_devices
check_devices_iff boot [] = (λ _. tt, λ _. refl)
check_devices_iff true (dev ∷ devs) =
    let (to, from) = check_devices_iff true devs in
    elim (Bool-cases (str_eq dev (codes "*"))) [
      | inl star ↦ rw star (λ h. ground (arith, h), λ k. absurd (ground (arith, k.0, star)))
      | inr path ↦ elim (Bool-cases (is_abs dev)) [
        | inl a ↦ rw (path, a) (λ h. (inr (refl, refl), to h), λ k. from k.1)
        | inr a ↦ rw (path, a) (λ h. ground (arith, h), λ k. absurd (ground (arith, k.0, path, a)))
      ]
    ]
check_devices_iff false (dev ∷ devs) =
    let (to, from) = check_devices_iff false devs in
    elim (Bool-cases (str_eq dev (codes "*"))) [
      | inl star ↦ rw star (λ h. (inl (refl, refl), to h), λ k. from k.1)
      | inr path ↦ elim (Bool-cases (is_abs dev)) [
        | inl a ↦ rw (path, a) (λ h. (inr (refl, refl), to h), λ k. from k.1)
        | inr a ↦ rw (path, a) (λ h. ground (arith, h), λ k. absurd (ground (arith, k.0, path, a)))
      ]
    ]

-- Said without patterns and without an order of checks.
pub record IsAcceptable (config : Config) : Type 0 where
  -- a bind mount is any text of one line
  pub binds : All (λ s. (s ≢ []) × (all in_line s ≡ true)) config.extra_bind_mounts
  -- only the last character of a filter counts, unless it is the name of a group
  pub filters : All (λ s. (is_group s || ends_in_word s) ≡ true) config.syscall_filters
  pub relative : All (λ s. (s ≢ []) × (is_abs s ≡ false)) config.private_dirs
  pub no_parent : All (λ s. (s ≢ []) × (has_dots s ≡ false)) config.private_dirs
  pub network : (config.virtual_network && not config.boot) ≡ false
  pub devices : All (IsShareable config.boot) config.share_devices

reject_iff : (b : Bool) (message : Text) → (reject b message ≡ ok tt) ↔ (b ≡ false)
reject_iff b message = ground arith

-- UpdateConfig's checks accept a configuration exactly if each bind mount is a text of one line,
-- each syscall filter is `@` and a group's name or ends in a lower case letter, a digit or an
-- underscore, each private directory is relative and has no two dots in a row, the virtual
-- network comes with booting, and each shared device is an absolute path, or `*` where the
-- container does not boot. No bind mount and no private directory is empty.
pub check_config_iff : (config : Config) → (check_config config ≡ ok tt) ↔ IsAcceptable config
unfolding check_config
check_config_iff config =
    let binds =
      check_items_iff _ bind_mount_regexp bind_mount_iff config.extra_bind_mounts
        (codes "invalid bind mount") in
    let filters =
      check_items_iff _ syscall_filter_regexp syscall_filter_iff config.syscall_filters
        (codes "invalid syscall filter") in
    let relative =
      check_items_iff _ relative_regexp relative_iff config.private_dirs
        (codes "private dirs must be relative") in
    let no_parent =
      check_items_iff _ no_parent_regexp no_parent_iff config.private_dirs
        (codes "private dirs must not contain ..") in
    let network =
      reject_iff (config.virtual_network && not config.boot)
        (codes "cannot use private networking on a non-booted container") in
    let devices = check_devices_iff config.boot config.share_devices in
    (
      λ h.
          let (h₁, t₁) = (>>-ok _ _).0 h in
          let (h₂, t₂) = (>>-ok _ _).0 t₁ in
          let (h₃, t₃) = (>>-ok _ _).0 t₂ in
          let (h₄, t₄) = (>>-ok _ _).0 t₃ in
          let (h₅, h₆) = (>>-ok _ _).0 t₄ in
          record {
            binds = binds.0 h₁;
            filters = filters.0 h₂;
            relative = relative.0 h₃;
            no_parent = no_parent.0 h₄;
            network = network.0 h₅;
            devices = devices.0 h₆;
          },
      λ a. (>>-ok _ _).1 (
        binds.1 a.binds,
        (>>-ok _ _).1 (
          filters.1 a.filters,
          (>>-ok _ _).1 (
            relative.1 a.relative,
            (>>-ok _ _).1
                (no_parent.1 a.no_parent, (>>-ok _ _).1 (network.1 a.network, devices.1 a.devices)),
          ),
        ),
      ),
    )
