-- ===== src/Tests/Listing.antt =====
-- Runs of the theorems about the inventory and about labels, each at a value of its own.
use nsbox.Base.{Text, codes, Option, some, str_eq, split, refl}
use nsbox.Container.Data.{Config}
use nsbox.Inventory.{set_default_container}
use nsbox.Inventory.Default.{Relinked, set_default_container-Relinked}
use nsbox.Selinux.{Ends, get_exec_label, get_exec_label-Ends}
use nsbox.Tests.Files.{config, data_path, disk}

abbrev decode : Text → Option Config
decode text = some config

set_default_container-Relinked_example :
    Relinked
      (codes "/default")
      (data_path (codes "box"))
      disk
      (set_default_container decode data_path (codes "/default") (codes "box") disk)
unfolding str_eq
set_default_container-Relinked_example =
    set_default_container-Relinked decode data_path (codes "/default") (codes "box") disk refl

get_exec_label-Ends_example :
    Ends
      (split b':' (codes "unconfined_u:unconfined_r:unconfined_t:s0"))
      (get_exec_label (codes "unconfined_u:unconfined_r:unconfined_t:s0"))
get_exec_label-Ends_example =
    get_exec_label-Ends (codes "unconfined_u:unconfined_r:unconfined_t:s0")
