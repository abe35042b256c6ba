-- ===== src/Main/Flags.antt =====
-- `config.checkNetcheck` (cmd/pyck-debug-worker/main.go): `given` are the names of the flags that stand
-- on the command line, in the order in which the flag package visits them.
use pyck_debug_worker.Prelude.{
  List, [], ◌∷◌, Option, none, some, Bool, true, false, ◌||◌, ite, if◌then◌else◌,
}
use pyck_debug_worker.Prelude.Text.{Text, text_discrete, codes}
use pyck_debug_worker.Netcheck.Hosts.{HostError, hosts_error, hosts, ParsedHosts, parse_hosts}

pub data Checked : Type 0 where
  requires_netcheck : Text → Checked
  bad_hosts : HostError → Checked
  accepted : List Text → Checked

abbrev pub is_sub_flag : Text → Bool
is_sub_flag name =
    ite (text_discrete name (codes "netcheck-upload")) true false
    || ite (text_discrete name (codes "netcheck-hosts")) true false

-- The first of the sub-flags that are given.
unfoldable pub first_sub_flag : List Text → Option Text
unfolding text_discrete
first_sub_flag [] = none
first_sub_flag (name ∷ names) =
    let rest = first_sub_flag names in if is_sub_flag name then some name else rest

abbrev pub without_netcheck : Option Text → Checked
without_netcheck none = accepted []
without_netcheck (some name) = requires_netcheck name

abbrev pub from_hosts : ParsedHosts → Checked
from_hosts (hosts_error e) = bad_hosts e
from_hosts (hosts result) = accepted result

unfoldable pub check_netcheck : (Text → Option Text) → Bool → List Text → Text → Checked
unfolding first_sub_flag parse_hosts
check_netcheck parse_addr netcheck given value =
    if netcheck
    then from_hosts (parse_hosts parse_addr value)
    else without_netcheck (first_sub_flag given)
