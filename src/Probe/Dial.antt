-- ===== src/Probe/Dial.antt =====
-- The stages below TLS: dns and tcp (internal/probe/dns.go, tcp.go). A lookup's answer is data; a dial
-- is told by its number in the order of the dials, which also names its connection.
pub mod Kept
use pyck_debug_worker.Prelude.{
  ℕ, suc, ◌+◌, List, [], ◌∷◌, ◌++◌, Option, none, some, Bool, true, false, ◌||◌, ◌&&◌, not, length,
  map, if◌then◌else◌,
}
use pyck_debug_worker.Prelude.Text.{Text, codes, print}
use pyck_debug_worker.Target.{join_host_port}
use pyck_debug_worker.Netcheck.Types.{Addr, invalid, v4, v6, addr_string}
use pyck_debug_worker.Probe.{
  Family, ip4, ip6, Stage, Outcome, Verdict, run_stage, Options, Fault, classify,
}

-- An address as a lookup or a parser returns it: IPv4 may come mapped into IPv6.
pub data RawAddr : Type 0 where
  plain : Addr → RawAddr
  mapped : ℕ → ℕ → ℕ → ℕ → RawAddr

-- `Addr.Unmap`.
abbrev pub unmap : RawAddr → Addr
unmap (plain a) = a
unmap (mapped a b c d) = v4 a b c d

-- `familyOf` and `dialNetwork`.
abbrev pub family_of : Addr → Family
family_of invalid = ip6
family_of (v4 a b c d) = ip4
family_of (v6 s) = ip6

abbrev pub dial_network : Addr → Text
dial_network invalid = codes "tcp6"
dial_network (v4 a b c d) = codes "tcp4"
dial_network (v6 s) = codes "tcp6"

-- `resolved`.
pub record Resolved : Type 0 where
  pub family : Family
  pub addrs : List Addr

-- `lookup`.
pub record Lookup : Type 0 where
  pub addrs : List RawAddr
  pub error : Option Fault

abbrev pub is_nil {ℓ} : {A : Type ℓ} → List A → Bool
is_nil [] = true
is_nil (x ∷ xs) = false

abbrev pub addr_list : List Addr → Text
addr_list [] = []
addr_list (a ∷ addrs) = b' ' ∷ (addr_string a ++ addr_list addrs)

-- `dnsDetail`.
unfoldable pub dns_detail : List Addr → Options → Text
unfolding print addr_string
dns_detail addrs opts =
    print (length addrs)
    ++ (codes " addrs"
        ++ (addr_list addrs
            ++ (codes " resolver=go"
                ++ (if opts.debug_dns
                    then codes " netdns=go+1 (resolver trace on stderr)"
                    else []))))

-- `kept` and `spare` of `tcpStage`, with the results and the number of the next dial.
pub record Dialing : Type 0 where
  pub kept : Option ℕ
  pub spare : List ℕ
  pub results : List Outcome
  pub next : ℕ

-- The switch that follows a dial which connected.
abbrev pub keep : ℕ → Dialing → Dialing
keep n st = elim st.kept [
  | none ↦ record st { kept = some n }
  | some first ↦ record st { spare = st.spare ++ n ∷ [] }
]

abbrev pub keep_if_connected : Option Fault → Dialing → Dialing
keep_if_connected (some e) st = st
keep_if_connected none st = keep st.next st

module _ (format_date : ℕ → Text) (now : ℕ) (opts : Options) where
  -- The verdict on one family's lookup.
  unfoldable pub dns_verdict : Bool → Lookup → Verdict
  unfolding classify dns_detail
  dns_verdict nothing_resolved l = elim l.error [
    | none ↦ (true, dns_detail (map unmap l.addrs) opts)
    | some e ↦
        if nothing_resolved || not e.is_not_found
        then (false, classify format_date now e)
        else (true, dns_detail (map unmap l.addrs) opts)
  ]

  abbrev pub resolved_of : Family → Lookup → List Resolved
  resolved_of family l =
      if is_nil l.addrs then [] else record { family = family; addrs = map unmap l.addrs } ∷ []

  -- `dnsStage`: `literal` is what `netip.ParseAddr` makes of the host, and the lookups are those of
  -- the two families.
  unfoldable pub dns_stage : Option RawAddr → Lookup → Lookup → List Resolved × List Outcome
  unfolding dns_verdict run_stage
  dns_stage (some addr) l4 l6 =
      (record { family = family_of (unmap addr); addrs = unmap addr ∷ [] } ∷ [], [])
  dns_stage none l4 l6 =
      let nothing_resolved = is_nil l4.addrs && is_nil l6.addrs in
      (
        resolved_of ip4 l4 ++ resolved_of ip6 l6,
        run_stage (Stage.dns ip4) (dns_verdict nothing_resolved l4)
            ∷ run_stage (Stage.dns ip6) (dns_verdict nothing_resolved l6)
            ∷ [],
      )

  module _ (dial : ℕ → Addr → Option Fault) (port : ℕ) where
    abbrev pub dial_verdict : Addr → Option Fault → Verdict
    dial_verdict addr none =
        (true, join_host_port (addr_string addr) (print port) ++ codes " connected")
    dial_verdict addr (some e) = (
      false,
      join_host_port (addr_string addr) (print port) ++ (codes " " ++ classify format_date now e),
    )

    -- The body of the loops: one address of a family.
    unfoldable pub dial_one : Family → Addr → Dialing → Dialing
    unfolding run_stage
    dial_one family addr st =
        let answer = dial st.next addr in
        let st' = keep_if_connected answer st in
        record st' {
          results = st.results ++ run_stage (Stage.tcp family) (dial_verdict addr answer) ∷ [];
          next = suc st.next;
        }

    unfoldable pub dial_family : Family → List Addr → Dialing → Dialing
    unfolding dial_one
    dial_family family [] st = st
    dial_family family (addr ∷ addrs) st = dial_family family addrs (dial_one family addr st)

    unfoldable pub dial_all : List Resolved → Dialing → Dialing
    unfolding dial_family
    dial_all [] st = st
    dial_all (r ∷ rs) st = dial_all rs (dial_family r.family r.addrs st)

    -- `tcpStage`: the connection that is kept, the ones that are closed, and the results.
    unfoldable pub tcp_stage : List Resolved → Option ℕ × List ℕ × List Outcome
    unfolding dial_all
    tcp_stage rs =
        let st = dial_all rs (record { kept = none; spare = []; results = []; next = 0 }) in
        (st.kept, st.spare, st.results)
