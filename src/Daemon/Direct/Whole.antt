-- ===== src/Daemon/Direct/Whole.antt =====
-- What the start of a container leaves alone, as a whole.
use nsbox.Base.{Text, List, [], ◌∷◌, codes}
use nsbox.FilePath.{join_path}
use nsbox.Container.Data.{Container}
use nsbox.Container.Files.{storage_child}
use nsbox.Daemon.Direct.Begin.{Host}
use nsbox.Daemon.Direct.Files.{no_passwd_file}

abbrev pub priv_dir : Container → Text
priv_dir ct = storage_child ct (codes "var/lib/.nsbox-priv" ∷ [])

-- The files that a start writes, creates or removes. Two of them are written where their path leads.
abbrev pub written_paths : Host → Container → List Text
written_paths host ct =
    storage_child ct (codes "etc/tmpfiles.d/x11.conf" ∷ [])
    ∷ no_passwd_file ct
    ∷ host.leads_to (no_passwd_file ct)
    ∷ host.leads_to (join_path (priv_dir ct ∷ codes "shared-env" ∷ []))
    ∷ join_path (priv_dir ct ∷ codes "shadow-entry" ∷ [])
    ∷ []
