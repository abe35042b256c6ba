-- ===== src/Netcheck/Hosts.antt =====
-- Which hosts and addresses are measured: `ParseHosts` (internal/netcheck/netcheck.go) and the
-- `apply` of `resolveLoop` (internal/netcheck/resolve.go). `netip.ParseAddr` followed by `String` is
-- the function `parse_addr`; the order of the list stands for that in which Go ranges over `running`.
pub mod Running
pub mod Entries
pub mod Tests
use pyck_debug_worker.Prelude.{
  ℕ, List, [], ◌∷◌, ◌++◌, Option, none, some, Bool, true, false, ◌||◌, ◌==◌, not, ite, keep_if,
  contains, if◌then◌else◌,
}
use pyck_debug_worker.Prelude.Text.{Text, text_discrete}
use pyck_debug_worker.Strings.{has_byte, to_lower, trim_space}
use pyck_debug_worker.Target.{is_empty}
use pyck_debug_worker.Netcheck.Types.{Addr, addr_discrete, Target, default_port}
use pyck_debug_worker.Netcheck.Agg.{Agg, register, unregister}

-- What `apply` records: the events ip-added and ip-removed. An added address has its five loops
-- started, a removed one has them cancelled.
pub data Change : Type 0 where
  added : Addr → Change
  removed : Addr → Change

-- `running`, with the buckets and the events that `apply` reaches.
pub record Measuring : Type 0 where
  pub running : List Addr
  pub agg : Agg
  pub events : List Change

module _ (host : Text) (roots : Option ℕ) where
  abbrev pub target_of : Addr → Target
  target_of ip = record { host = host; ip = ip; port = default_port; roots = roots }

  -- The body of the loop over the resolved addresses.
  unfoldable pub start_ip : Addr → Measuring → Measuring
  unfolding addr_discrete register
  start_ip ip st = if contains addr_discrete st.running ip then st else record {
    running = st.running ++ ip ∷ [];
    agg = register (target_of ip) st.agg;
    events = st.events ++ added ip ∷ [];
  }

  unfoldable pub start_ips : List Addr → Measuring → Measuring
  unfolding start_ip
  start_ips [] st = st
  start_ips (ip ∷ ips) st = start_ips ips (start_ip ip st)

  abbrev pub is_other : Addr → Addr → Bool
  is_other ip a = not (ite (addr_discrete a ip) true false)

  -- The body of the loop over `running`.
  unfoldable pub stop_ip : List Addr → Addr → Measuring → Measuring
  unfolding addr_discrete unregister
  stop_ip wanted ip st = if contains addr_discrete wanted ip then st else record {
    running = keep_if (is_other ip) st.running;
    agg = unregister (target_of ip) st.agg;
    events = st.events ++ removed ip ∷ [];
  }

  unfoldable pub stop_ips : List Addr → List Addr → Measuring → Measuring
  unfolding stop_ip
  stop_ips wanted [] st = st
  stop_ips wanted (ip ∷ ips) st = stop_ips wanted ips (stop_ip wanted ip st)

  -- `apply`.
  unfoldable pub apply : List Addr → Measuring → Measuring
  unfolding start_ips stop_ips
  apply ips st = let started = start_ips ips st in stop_ips ips started.running started

-- `strings.SplitSeq(value, ",")`.
abbrev pub put_first : ℕ → List Text → List Text
put_first c [] = (c ∷ []) ∷ []
put_first c (s ∷ parts) = (c ∷ s) ∷ parts

unfoldable pub split_at : ℕ → Text → List Text
split_at sep [] = [] ∷ []
split_at sep (c ∷ s) =
    let parts = split_at sep s in if c == sep then [] ∷ parts else put_first c parts

-- The three errors of `ParseHosts`.
pub data HostError : Type 0 where
  empty_entry : HostError
  not_hostname : HostError
  listed_twice : HostError

pub data ParsedHosts : Type 0 where
  hosts_error : HostError → ParsedHosts
  hosts : List Text → ParsedHosts

module _ (parse_addr : Text → Option Text) where
  -- An entry with its spaces trimmed and in lower case: an address is replaced by its canonical text.
  unfoldable pub check_host : Text → Option Text
  check_host host = elim (parse_addr host) [
    | some addr ↦ some addr
    | none ↦ if has_byte b'/' host || has_byte b':' host then none else some host
  ]

  -- The loop of `ParseHosts`; `seen` holds the hosts that were accepted.
  unfoldable pub parse_entries : List Text → List Text → ParsedHosts
  unfolding to_lower trim_space check_host text_discrete
  parse_entries [] seen = hosts seen
  parse_entries (entry ∷ entries) seen =
      if is_empty (to_lower (trim_space entry))
      then hosts_error empty_entry
      else elim (check_host (to_lower (trim_space entry))) [
        | none ↦ hosts_error not_hostname
        | some host ↦
            if contains text_discrete seen host
            then hosts_error listed_twice
            else parse_entries entries (seen ++ host ∷ [])
      ]

  -- `ParseHosts`.
  unfoldable pub parse_hosts : Text → ParsedHosts
  unfolding split_at parse_entries
  parse_hosts value = parse_entries (split_at b',' value) []
