-- ===== src/Container/Validate.antt =====
-- internal/container/container.go: the checks of UpdateConfig, up to the writing of the file.
pub mod Patterns
pub mod Forms
pub mod Syscalls
pub mod Accepted
use nsbox.Base.{
  ℕ, Text, List, [], ◌∷◌, ◌++◌, codes, Bool, true, false, if◌then◌else◌, not, ◌&&◌, str_eq, Result,
  ok, err, errorf, ◌>>=◌, ◌>>◌, reject,
}
use nsbox.FilePath.{is_abs, slash}
use nsbox.Regexp.{
  Spans, Regexp, begin_text, end_text, class, alt, cat, star, plus, opt, match_string,
}
use nsbox.Regexp.Shapes.{whole}
use nsbox.Container.Data.{Config}

abbrev pub one : ℕ → Regexp
one c = class false ((c, c) ∷ [])

abbrev pub none_of : ℕ → Regexp
none_of c = class true ((c, c) ∷ [])

-- `.` without the `s` flag
abbrev pub any_char : Regexp
any_char = none_of 10

-- `^.+(:.+)?$`
abbrev pub bind_mount_regexp : Regexp
bind_mount_regexp = whole (cat (plus any_char) (opt (cat (one b':') (plus any_char))))

abbrev pub group_spans : Spans
group_spans = (b'a', b'z') ∷ (b'-', b'-') ∷ []

abbrev pub word_spans : Spans
word_spans = (b'a', b'z') ∷ (b'0', b'9') ∷ (b'_', b'_') ∷ []

-- `^@[a-z\-]+$|[a-z0-9_]+$`: as written, the first anchor belongs to the first alternative alone.
abbrev pub syscall_filter_regexp : Regexp
syscall_filter_regexp =
    alt (whole (cat (one b'@') (plus (class false group_spans))))
      (cat (plus (class false word_spans)) end_text)

-- `^[^/]`
abbrev pub relative_regexp : Regexp
relative_regexp = cat begin_text (none_of slash)

-- `[^.]{2}|[^.]|\.([^.]|$)`
abbrev pub no_parent_round : Regexp
no_parent_round =
    alt (cat (none_of b'.') (none_of b'.'))
      (alt (none_of b'.') (cat (one b'.') (alt (none_of b'.') end_text)))

-- `^([^.]{2}|[^.]|\.([^.]|$))+$`
abbrev pub no_parent_regexp : Regexp
no_parent_regexp = whole (plus no_parent_round)

unfoldable pub check_array_items_against_regex : List Text → Regexp → Text → Result (Unit {0})
check_array_items_against_regex [] regexp errprefix = ok tt
check_array_items_against_regex (item ∷ items) regexp errprefix =
    if match_string regexp item
    then check_array_items_against_regex items regexp errprefix
    else err (errorf (errprefix ++ (codes ": " ++ item)))

-- The loop over the shared devices.
unfoldable pub check_devices : Bool → List Text → Result (Unit {0})
check_devices boot [] = ok tt
check_devices boot (dev ∷ devs) =
    let rest = check_devices boot devs in
    if str_eq dev (codes "*")
    then (if boot
        then err (errorf (codes "cannot share all devices for a booted container"))
        else rest)
    else if is_abs dev
    then rest
    else err (errorf (codes "shared devices must be paths or '*'"))

unfoldable pub check_config : Config → Result (Unit {0})
check_config config = do
  check_array_items_against_regex config.extra_bind_mounts bind_mount_regexp
      (codes "invalid bind mount")
  check_array_items_against_regex config.syscall_filters syscall_filter_regexp
      (codes "invalid syscall filter")
  check_array_items_against_regex config.private_dirs relative_regexp
      (codes "private dirs must be relative")
  check_array_items_against_regex config.private_dirs no_parent_regexp
      (codes "private dirs must not contain ..")
  reject (config.virtual_network && not config.boot)
      (codes "cannot use private networking on a non-booted container")
  check_devices config.boot config.share_devices
