-- ===== src/Netcheck/Agg/Flush.antt =====
-- `aggregate` and `agg.flush` of internal/netcheck/agg.go.
use pyck_debug_worker.Prelude.{
  ℕ, ◌*◌, List, [], ◌∷◌, ◌++◌, Option, none, some, Bool, false, if◌then◌else◌, ◌==◌, ◌&&◌,
}
use pyck_debug_worker.Prelude.Text.{Text}
use pyck_debug_worker.Prelude.Assoc.{Assoc, lookup, insert, delete}
use pyck_debug_worker.Netcheck.Types.{
  Mode, short, idle, compare, Class, Phase, Variant, Target, target_discrete, addr_string,
}
use pyck_debug_worker.Netcheck.Stats.{Stats, summarise}
use pyck_debug_worker.Netcheck.Agg.{Agg, Key, key_discrete}
use pyck_debug_worker.Netcheck.Agg.Buckets.{
  Bucket, Interception, IdleDeath, TcpStats, SniStats, empty_bucket, total, or_zero,
}

infixl 5 ◌>>=◌
abbrev pub ◌>>=◌ {ℓ κ} : {A : Type ℓ} {B : Type κ} → Option A → (A → Option B) → Option B
none >>= f = none
some a >>= f = f a

-- `idleStats`.
pub record IdleStats : Type 0 where
  pub survived : ℕ
  pub died : Option IdleDeath

-- `aggregate`; the constant `type` field is left out.
pub record Aggregate : Type 0 where
  pub ts : ℕ
  pub host : Text
  pub ip : Text
  pub mode : Mode
  pub samples : ℕ
  pub losses : ℕ
  pub connect : Option Stats
  pub tls : Option Stats
  pub rtt : Option Stats
  pub failures : Assoc Class ℕ
  pub drops : ℕ
  pub server_closed : ℕ
  pub tcp : Option TcpStats
  pub cert : Option Interception
  pub idle : Option IdleStats
  pub sni : Assoc Variant SniStats
  pub resets : Assoc Phase ℕ
  pub target : Target

-- `bucket.aggregate`.
unfoldable pub aggregate : ℕ → Target → Mode → Bucket → Aggregate
aggregate minute t mode b = record {
  ts = minute;
  host = t.host;
  ip = addr_string t.ip;
  mode = mode;
  samples = b.samples;
  losses = b.losses;
  connect = summarise b.connect;
  tls = summarise b.tls;
  rtt = summarise b.rtt;
  failures = b.failures;
  drops = b.drops;
  server_closed = b.server_closed;
  tcp = b.tcp;
  cert = b.cert;
  idle = none;
  sni = b.sni;
  resets = b.resets;
  target = t;
}

-- `aggregate.failures` and `aggregate.ok`.
abbrev pub failure_count : Aggregate → ℕ
failure_count r = total r.failures

unfoldable pub is_ok : Aggregate → Bool
is_ok r = r.losses == 0 && failure_count r == 0 && r.drops == 0

-- `aggregate.duration`: the median of the connects, or of the PINGs, in nanoseconds.
p50_ns : Option Stats → ℕ
p50_ns none = 0
p50_ns (some s) = s.p50 * 1000

unfoldable pub duration : Aggregate → ℕ
unfolding p50_ns
duration r = p50_ns (main_stats r.mode)
  where
    main_stats : Mode → Option Stats
    main_stats short = r.connect
    main_stats compare = r.connect
    main_stats _ = r.rtt

-- A key that is missing from a map reads as the zero value: nil, or false.
abbrev pub or_nil : Option (List Mode) → List Mode
or_nil none = []
or_nil (some modes) = modes

abbrev pub or_false : Option Bool → Bool
or_false none = false
or_false (some b) = b

abbrev pub modes_of : Target → Agg → List Mode
modes_of t a = or_nil (lookup target_discrete t a.modes)

abbrev pub is_removed : Target → Agg → Bool
is_removed t a = or_false (lookup target_discrete t a.removed)

-- The idle mode's record also has what the idle connection survived.
unfoldable pub with_idle : Mode → ℕ → Bucket → Aggregate → Aggregate
with_idle idle survived b r = record r {
  idle = some (record { survived = survived; died = b.died });
}
with_idle _ survived b r = r

abbrev pub survived_of : Target → Agg → ℕ
survived_of t a = or_zero (lookup target_discrete t a.survived)

-- The inner loop. A missing bucket is a nil pointer, so reading it panics.
unfoldable pub flush_modes : ℕ → Target → List Mode → Agg → Option (List Aggregate × Agg)
flush_modes minute t [] a = some ([], a)
flush_modes minute t (mode ∷ modes) a = do
  b ← lookup key_discrete (t, mode) a.buckets
  let rec = with_idle mode (survived_of t a) b (aggregate minute t mode b)
  (recs, a') ←
      flush_modes minute t modes
        (record a { buckets = insert key_discrete (t, mode) empty_bucket a.buckets })
  some (rec ∷ recs, a')

unfoldable pub delete_buckets : Target → List Mode → Assoc Key Bucket → Assoc Key Bucket
delete_buckets t [] m = m
delete_buckets t (mode ∷ modes) m = delete_buckets t modes (delete key_discrete (t, mode) m)

-- What is left of a target that was unregistered: nothing but its place in `targets`.
unfoldable pub forget : Target → List Mode → Agg → Agg
forget t modes a = record a {
  removed = delete target_discrete t a.removed;
  buckets = delete_buckets t modes a.buckets;
  modes = delete target_discrete t a.modes;
  last_fp = delete target_discrete t a.last_fp;
  survived = delete target_discrete t a.survived;
}

-- The outer loop: the records, the targets that are kept, and the new state.
unfoldable pub flush_targets : ℕ → List Target → Agg → Option (List Aggregate × List Target × Agg)
flush_targets minute [] a = some ([], [], a)
flush_targets minute (t ∷ ts) a = do
  (recs, a') ← flush_modes minute t (modes_of t a) a
  (more, kept, a'') ←
      flush_targets minute ts (if is_removed t a' then forget t (modes_of t a) a' else a')
  some (recs ++ more, (if is_removed t a' then kept else t ∷ kept), a'')

unfoldable pub flush : ℕ → Agg → Option (List Aggregate × Agg)
unfolding flush_targets
flush minute a = do
  (recs, kept, a') ← flush_targets minute a.targets a
  some (recs, record a' { targets = kept })
