-- ===== src/Daemon/Direct/Network.antt =====
-- internal/daemon/direct.go, the private network of a container, with internal/network's firewall.
use nsbox.Base.{
  Text, List, [], ◌∷◌, ◌++◌, codes, Bool, true, false, Option, none, some, Result, ok, err, panic,
  wrap,
}
use nsbox.Nspawn.{network_zone_prefix}

pub data FirewallCall : Type 0 where
  trust untrust : Text → FirewallCall
  close : FirewallCall

-- The calls that are made at once, and those that are deferred to the end.
pub record Zone : Type 0 where
  pub name : Text
  pub now : List FirewallCall
  pub deferred : List FirewallCall

unfoldable pub no_zone : Zone
no_zone = record { name = []; now = []; deferred = [] }

-- Errors of the firewall are only logged. `firewall` is what TrustInterface answers, if there is one.
abbrev zone_of : Option (Result (Unit {0})) → Text → Zone
zone_of none name = record { name = name; now = []; deferred = [] }
zone_of (some (ok done)) name =
    let interface = network_zone_prefix ++ name in
    record { name = name; now = trust interface ∷ []; deferred = untrust interface ∷ close ∷ [] }
zone_of (some failed) name = record {
  name = name;
  now = trust (network_zone_prefix ++ name) ∷ [];
  deferred = close ∷ [];
}

-- `generated` is GenerateUniqueLinkName's answer, given the links that are there.
unfoldable pub choose_zone : Bool → Text → Result Text → Option (Result (Unit {0})) → Result Zone
unfolding no_zone
choose_zone false ct_name generated firewall = ok no_zone
choose_zone true ct_name (ok name) firewall = ok (zone_of firewall name)
choose_zone true ct_name (err e) firewall =
    err (wrap e (codes "generating zone name for " ++ ct_name))
choose_zone true ct_name (panic m) firewall = panic m
