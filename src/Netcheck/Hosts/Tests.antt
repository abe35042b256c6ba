-- ===== src/Netcheck/Hosts/Tests.antt =====
-- Hosts and addresses on concrete values (internal/netcheck/resolve.go, netcheck.go).
use pyck_debug_worker.Prelude.{
  List, [], ◌∷◌, Option, none, some, true, ite, All, contains, length, ℕ_discrete, ◌≡◌, refl,
}
use pyck_debug_worker.Prelude.Distinct.{Distinct}
use pyck_debug_worker.Prelude.Text.{Text, codes, text_discrete}
use pyck_debug_worker.Strings.{to_lower, trim_space, drop_spaces}
use pyck_debug_worker.Netcheck.Types.{Addr, v4, addr_discrete}
use pyck_debug_worker.Netcheck.Agg.{new_agg}
use pyck_debug_worker.Netcheck.Hosts.{
  Measuring, apply, hosts, hosts_error, listed_twice, not_hostname, parse_hosts, parse_entries,
  check_host, split_at,
}
use pyck_debug_worker.Netcheck.Hosts.Running.{apply-running}
use pyck_debug_worker.Netcheck.Hosts.Entries.{IsHost, parse_hosts-IsHost}

abbrev first_ip : Addr
first_ip = v4 192 0 2 1

abbrev second_ip : Addr
second_ip = v4 192 0 2 2

abbrev measuring : List Addr → Measuring
measuring ips = record { running = ips; agg = new_agg; events = [] }

apply-running_example :
    contains addr_discrete
      (apply (codes "dev") none (second_ip ∷ []) (measuring (first_ip ∷ []))).running
      first_ip
    ≡ contains addr_discrete (second_ip ∷ []) first_ip
apply-running_example =
    apply-running (codes "dev") none (second_ip ∷ []) (measuring (first_ip ∷ [])) first_ip

is_running : contains addr_discrete (first_ip ∷ []) first_ip ≡ true
unfolding addr_discrete text_discrete ℕ_discrete
is_running = refl

-- A parser that knows one address.
abbrev parse_one : Text → Option Text
parse_one s = ite (text_discrete s (codes "::1")) (some (codes "::1")) none

sample_hosts :
    (parse_hosts parse_one (codes "Dev, ::1") ≡ hosts (codes "dev" ∷ codes "::1" ∷ []))
    × (parse_hosts parse_one (codes "a,A") ≡ hosts_error listed_twice)
    × (parse_hosts parse_one (codes "a:443") ≡ hosts_error not_hostname)
unfolding parse_hosts parse_entries check_host split_at text_discrete ℕ_discrete to_lower trim_space
    drop_spaces
sample_hosts = (refl, refl, refl)

parse_hosts-IsHost_example :
    Distinct text_discrete (codes "dev" ∷ codes "::1" ∷ [])
    × All (IsHost parse_one) (codes "dev" ∷ codes "::1" ∷ [])
    × (length (codes "dev" ∷ codes "::1" ∷ []) ≡ length (split_at b',' (codes "Dev, ::1")))
parse_hosts-IsHost_example =
    parse_hosts-IsHost parse_one (codes "Dev, ::1") (codes "dev" ∷ codes "::1" ∷ []) sample_hosts.0
