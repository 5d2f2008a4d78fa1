-- ===== src/Daemon/Direct/SudoFile.antt =====
-- What setupSudo tells the container, by variables and by the file of sudo, is what GetSudoAccess says.
use nsbox.Base.{
  Text, List, codes, All, Option, none, some, lookup, Result, Errno, enoent, ok, err, panic, ◌≡◌,
  ◌≢◌, ◌⊎◌,
}
use nsbox.Os.{file, Inode, World}
use nsbox.Os.Results.{Fails}
use nsbox.Container.Data.{Container}
use nsbox.Userdata.Sudo.{SudoAccess, no_sudo, can_sudo, can_sudo_no_passwd}
use nsbox.Daemon.Direct.{Draft, setenv}
use nsbox.Daemon.Direct.Files.{no_passwd_line, can_sudo_value}

-- A call does not say that a file is missing unless it is.
abbrev pub IsHonest : List (Option Errno) → Type 0
IsHonest faults = All (λ f. f ≢ some enoent) faults

-- The file that sudo reads, with mode 0440.
abbrev pub IsSudoFile : Text → Option Inode → Type 0
IsSudoFile text o = (i : Inode) × (o ≡ some i) × (i.node ≡ file text) × (i.mode ≡ 288)

-- What stands at the path of the file, or where the path leads, by the access.
abbrev pub FileFor : (Text → Text) → SudoAccess → Text → Text → World → Type 0
FileFor leads_to no_sudo path text w = w.at path ≡ none
FileFor leads_to can_sudo path text w = w.at path ≡ none
FileFor leads_to can_sudo_no_passwd path text w = IsSudoFile text (w.at (leads_to path))

abbrev Made : Text → Text → Result (Unit {0}) × World → Type 0
Made path text r = IsSudoFile text (r.1.at path) ⊎ Fails r.0

abbrev Done : (Text → Text) → SudoAccess → Text → Text → Result (Unit {0}) × World → Type 0
Done leads_to access path text r = FileFor leads_to access path text r.1 ⊎ Fails r.0

-- Removing what may be missing.
abbrev Gone : Text → Result (Unit {0}) × World → Type 0
Gone path r = (r.1.at path ≡ none) ⊎ Fails r.0

abbrev told : SudoAccess → Text → Draft → Draft
told access group draft =
    setenv (codes "NSBOX_CAN_SUDO") (can_sudo_value access)
      (setenv (codes "NSBOX_SUDO_GROUP") group draft)

-- What the container is told: the group, whether the user can use sudo, and the file of sudo.
abbrev pub Told : (Text → Text) → SudoAccess → Text → Text → Result Draft × World → Type 0
Told leads_to access group path (ok told, w) =
    (lookup (codes "NSBOX_SUDO_GROUP") told.environ ≡ some group)
    × (lookup (codes "NSBOX_CAN_SUDO") told.environ ≡ some (can_sudo_value access))
    × FileFor leads_to access path (no_passwd_line group) w
Told leads_to access group path (err e, w) = Unit
Told leads_to access group path (panic m, w) = Unit
