-- ===== src/Netcheck/Types.antt =====
-- The names that the netcheck files share: measurement modes, failure classes, reset phases and SNI
-- variants as enumerations, and the measured target (internal/netcheck/netcheck.go, agg.go).
use pyck_debug_worker.Prelude.{
  ℕ, Bool, true, false, Option, [], ◌++◌, ite, if◌then◌else◌, ℕ_discrete,
}
use pyck_debug_worker.Prelude.Text.{Text, codes, text_discrete, print}

-- `mode…` of agg.go and throughput.go.
pub data Mode : Type 0 where
  short long idle compare throughput : Mode

unfoldable pub mode_discrete : Discrete Mode
mode_discrete = hlevel

-- `class…`; the empty class of a success is `none` of `Option Class`.
pub data Class : Type 0 where
  timeout refused reset other intercepted status size : Class

unfoldable pub class_discrete : Discrete Class
class_discrete = hlevel

-- `phase…`: when a connection reset arrived.
pub data Phase : Type 0 where
  hello transfer idle : Phase

unfoldable pub phase_discrete : Discrete Phase
phase_discrete = hlevel

-- `sniHost` and `sniNone`.
pub data Variant : Type 0 where
  sni_host sni_none : Variant

unfoldable pub variant_discrete : Discrete Variant
variant_discrete = hlevel

-- A `netip.Addr`: the zero value, four bytes, or an IPv6 address by its canonical text.
pub data Addr : Type 0 where
  invalid : Addr
  v4 : ℕ → ℕ → ℕ → ℕ → Addr
  v6 : Text → Addr

unfoldable pub addr_discrete : Discrete Addr
unfolding text_discrete
addr_discrete = hlevel (ℕ_discrete, text_discrete)

-- `Addr.String`.
unfoldable pub addr_string : Addr → Text
addr_string invalid = codes "invalid IP"
addr_string (v4 a b c d) =
    print a ++ (codes "." ++ (print b ++ (codes "." ++ (print c ++ (codes "." ++ print d)))))
addr_string (v6 s) = s

-- `Target`; `roots` names the certificate pool that the pointer refers to, and is `none` for nil.
pub record Target : Type 0 where
  pub host : Text
  pub ip : Addr
  pub port : ℕ
  pub roots : Option ℕ

unfoldable pub target_discrete : Discrete Target
unfolding text_discrete addr_discrete
target_discrete = hlevel (ℕ_discrete, text_discrete, addr_discrete)

unfoldable pub bare_ip : Target → Bool
bare_ip t = ite (text_discrete t.host (addr_string t.ip)) true false

unfoldable pub label : Target → Text
label t = if bare_ip t then addr_string t.ip else t.host ++ (codes "/" ++ addr_string t.ip)

unfoldable pub server_name : Target → Text
server_name t = if bare_ip t then [] else t.host

-- `port`: what every target is measured on.
abbrev pub default_port : ℕ
default_port = 443
