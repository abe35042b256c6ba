-- ===== src/Netcheck/Agg/Buckets.antt =====
-- A bucket and the updates that the methods of `agg` apply to it, as one function each
-- (internal/netcheck/agg.go). A duration is its nanoseconds.
use pyck_debug_worker.Prelude.{
  ℕ, ◌+◌, ◌-◌, ◌%◌, ◌^◌, List, [], ◌∷◌, ◌++◌, Option, none, some, sum_of, Bool, true, false,
  if◌then◌else◌,
}
use pyck_debug_worker.Prelude.Text.{Text}
use pyck_debug_worker.Prelude.Assoc.{Assoc, lookup, insert}
use pyck_debug_worker.Netcheck.Types.{
  Mode, short, compare, Class, class_discrete, Phase, phase_discrete, Variant, variant_discrete,
}
use pyck_debug_worker.Netcheck.Types

-- `interception`, and `certInfo`, which has the same fields.
pub record Interception : Type 0 where
  pub fingerprint : Text
  pub issuer : Text
  pub error : Text

-- `tcpStats`.
pub record TcpStats : Type 0 where
  pub rtt : ℕ
  pub rtt_var : ℕ
  pub retrans : ℕ

-- `idleDeath.How`: a failure class, or `server-closed`.
pub data How : Type 0 where
  failed : Class → How
  closed : How

pub record IdleDeath : Type 0 where
  pub gap : ℕ
  pub survived : ℕ
  pub how : How

pub record SniStats : Type 0 where
  pub samples : ℕ
  pub failures : Assoc Class ℕ

pub record Bucket : Type 0 where
  pub samples : ℕ
  pub losses : ℕ
  pub connect : List ℕ
  pub tls : List ℕ
  pub rtt : List ℕ
  pub failures : Assoc Class ℕ
  pub drops : ℕ
  pub server_closed : ℕ
  pub tcp : Option TcpStats
  pub cert : Option Interception
  pub died : Option IdleDeath
  pub sni : Assoc Variant SniStats
  pub resets : Assoc Phase ℕ

unfoldable pub empty_bucket : Bucket
empty_bucket = record {
  samples = 0;
  losses = 0;
  connect = [];
  tls = [];
  rtt = [];
  failures = [];
  drops = 0;
  server_closed = 0;
  tcp = none;
  cert = none;
  died = none;
  sni = [];
  resets = [];
}

abbrev pub or_zero : Option ℕ → ℕ
or_zero none = 0
or_zero (some n) = n

-- `m[k]++`.
unfoldable pub bump : {K : Type 0} → Discrete K → K → Assoc K ℕ → Assoc K ℕ
bump dec k m = insert dec k (or_zero (lookup dec k m) + 1) m

-- The sum of a count map: the loops of `failures` and `sniStats.ok`.
abbrev pub total : {K : Type 0} → Assoc K ℕ → ℕ
total = sum_of (λ e. e.1)

-- Whether a failure counts as a connection attempt of the mode.
abbrev pub is_attempt : Mode → Bool
is_attempt short = true
is_attempt compare = true
is_attempt _ = false

unfoldable pub count_fail : Mode → Class → Bucket → Bucket
count_fail mode class b = record b {
  failures = bump class_discrete class b.failures;
  samples = if is_attempt mode then b.samples + 1 else b.samples;
}

unfoldable pub count_intercepted : Interception → Bucket → Bucket
count_intercepted info b = record b {
  failures = bump class_discrete Types.intercepted b.failures;
  cert = some info;
}

empty_sni : SniStats
empty_sni = record { samples = 0; failures = [] }

abbrev sni_of : Option SniStats → SniStats
unfolding empty_sni
sni_of none = empty_sni
sni_of (some s) = s

count_variant : Option Class → SniStats → SniStats
count_variant none s = record s { samples = s.samples + 1 }
count_variant (some class) s = record s {
  samples = s.samples + 1;
  failures = bump class_discrete class s.failures;
}

unfoldable pub count_sni : Variant → Option Class → Bucket → Bucket
unfolding count_variant empty_sni
count_sni variant class b = record b {
  sni =
      insert variant_discrete variant
        (count_variant class (sni_of (lookup variant_discrete variant b.sni))) b.sni;
}

unfoldable pub count_reset : Phase → Bucket → Bucket
count_reset phase b = record b { resets = bump phase_discrete phase b.resets }

unfoldable pub count_short : ℕ → ℕ → ℕ → Bucket → Bucket
count_short connect handshake syn_retrans b = record b {
  samples = b.samples + 1;
  losses = b.losses + syn_retrans;
  connect = b.connect ++ connect ∷ [];
  tls = b.tls ++ handshake ∷ [];
}

unfoldable pub count_connect : ℕ → ℕ → Bucket → Bucket
count_connect connect syn_retrans b = record b {
  samples = b.samples + 1;
  losses = b.losses + syn_retrans;
  connect = b.connect ++ connect ∷ [];
}

unfoldable pub count_ping : ℕ → Bucket → Bucket
count_ping rtt b = record b { samples = b.samples + 1; rtt = b.rtt ++ rtt ∷ [] }

unfoldable pub count_lost : Bucket → Bucket
count_lost b = record b { samples = b.samples + 1; losses = b.losses + 1 }

unfoldable pub count_drop : Bucket → Bucket
count_drop b = record b { drops = b.drops + 1 }

unfoldable pub count_closed : Bucket → Bucket
count_closed b = record b { server_closed = b.server_closed + 1 }

unfoldable pub set_died : IdleDeath → Bucket → Bucket
set_died d b = record b { died = some d }

abbrev tcp_of : Option TcpStats → TcpStats
tcp_of none = record { rtt = 0; rtt_var = 0; retrans = 0 }
tcp_of (some s) = s

-- `Retrans` is a uint32.
unfoldable pub count_tcp : ℕ → ℕ → ℕ → Bucket → Bucket
count_tcp rtt rtt_var retrans b = record b {
  tcp = some (record {
    rtt = rtt;
    rtt_var = rtt_var;
    retrans = ((tcp_of b.tcp).retrans + retrans) % 2 ^ 32;
  });
}

-- `sniStats.ok`: the samples less the failures. Every failure is a sample, so it stays above zero.
unfoldable pub sni_ok : SniStats → ℕ
sni_ok s = s.samples - total s.failures
