-- ===== src/Netcheck/Agg.antt =====
-- The minute's buckets of internal/netcheck/agg.go: one record per target and mode, filled by the
-- measuring loops and emptied by `flush` once a minute. Every method holds the mutex throughout, so
-- a method is one step; only `intercepted` takes it twice, and is two. A nil map is an empty one.
-- `none` as the result of a step is a panic. Counters do not overflow an int.
pub mod Buckets
pub mod Flush
pub mod Invariant
pub mod Emission
pub mod Turns
pub mod Flushed
pub mod Own
pub mod Next
pub mod Samples
pub mod Runs
pub mod Accounts
pub mod Fingerprints
pub mod Tests
use pyck_debug_worker.Prelude.{
  ℕ, ◌+◌, List, [], ◌∷◌, ◌++◌, Option, none, some, Bool, true, false, ite, if◌then◌else◌, contains,
}
use pyck_debug_worker.Prelude.Text.{Text, text_discrete}
use pyck_debug_worker.Prelude.Assoc.{Assoc, lookup, insert, delete}
use pyck_debug_worker.Netcheck.Types.{
  Mode, short, long, idle, compare, mode_discrete, Class, Phase, Variant, Target, target_discrete,
}
use Buckets.{
  Bucket, Interception, IdleDeath, empty_bucket, count_fail, count_intercepted, count_sni,
  count_reset, count_short, count_connect, count_ping, count_lost, count_drop, count_closed,
  set_died, count_tcp,
}

-- `bucketKey`.
abbrev pub Key : Type 0
Key = Target × Mode

unfoldable pub key_discrete : Discrete Key
unfolding target_discrete mode_discrete
key_discrete = hlevel (target_discrete, mode_discrete)

pub record Agg : Type 0 where
  pub targets : List Target
  pub modes : Assoc Target (List Mode)
  pub removed : Assoc Target Bool
  pub buckets : Assoc Key Bucket
  pub last_fp : Assoc Target Text
  pub survived : Assoc Target ℕ

unfoldable pub new_agg : Agg
new_agg = record {
  targets = [];
  modes = [];
  removed = [];
  buckets = [];
  last_fp = [];
  survived = [];
}

abbrev pub target_modes : List Mode
target_modes = short ∷ long ∷ idle ∷ []

-- The buckets that `registerModes` finds missing are created; the others are kept.
unfoldable pub add_buckets : Target → List Mode → Assoc Key Bucket → Assoc Key Bucket
add_buckets t [] m = m
add_buckets t (mode ∷ modes) m = add_buckets t modes (elim (lookup key_discrete (t, mode) m) [
  | some b ↦ m
  | none ↦ insert key_discrete (t, mode) empty_bucket m
])

unfoldable pub register_modes : Target → List Mode → Agg → Agg
register_modes t modes a = record a {
  removed = delete target_discrete t a.removed;
  targets = if contains target_discrete a.targets t then a.targets else a.targets ++ t ∷ [];
  modes = insert target_discrete t modes a.modes;
  buckets = add_buckets t modes a.buckets;
}

unfoldable pub register : Target → Agg → Agg
register t a = register_modes t target_modes a

unfoldable pub unregister : Target → Agg → Agg
unregister t a = record a { removed = insert target_discrete t true a.removed }

-- `with`: an update of a bucket that is not there is dropped.
unfoldable pub with_bucket : Target → Mode → (Bucket → Bucket) → Agg → Agg
with_bucket t mode fn a = elim (lookup key_discrete (t, mode) a.buckets) [
  | none ↦ a
  | some b ↦ record a { buckets = insert key_discrete (t, mode) (fn b) a.buckets }
]

unfoldable pub fail : Target → Mode → Class → Agg → Agg
fail t mode class a = with_bucket t mode (count_fail mode class) a

unfoldable pub sni : Target → Variant → Option Class → Agg → Agg
sni t variant class a = with_bucket t short (count_sni variant class) a

unfoldable pub reset : Target → Mode → Phase → Agg → Agg
reset t mode phase a = with_bucket t mode (count_reset phase) a

unfoldable pub short_done : Target → ℕ → ℕ → ℕ → Agg → Agg
short_done t connect handshake syn_retrans a =
    with_bucket t short (count_short connect handshake syn_retrans) a

unfoldable pub connect_done : Target → ℕ → ℕ → Agg → Agg
connect_done t connect syn_retrans a = with_bucket t compare (count_connect connect syn_retrans) a

unfoldable pub ping : Target → Mode → ℕ → Agg → Agg
ping t mode rtt a = with_bucket t mode (count_ping rtt) a

unfoldable pub lost_ping : Target → Mode → Agg → Agg
lost_ping t mode a = with_bucket t mode count_lost a

unfoldable pub drop : Target → Mode → Agg → Agg
drop t mode a = with_bucket t mode count_drop a

unfoldable pub server_closed : Target → Mode → Agg → Agg
server_closed t mode a = with_bucket t mode count_closed a

unfoldable pub idle_died : Target → IdleDeath → Agg → Agg
idle_died t d a = with_bucket t idle (set_died d) a

unfoldable pub tcp_info : Target → ℕ → ℕ → ℕ → Agg → Agg
tcp_info t rtt rtt_var retrans a = with_bucket t long (count_tcp rtt rtt_var retrans) a

unfoldable pub idle_survived : Target → ℕ → Agg → Agg
idle_survived t gap a = elim (lookup key_discrete (t, idle) a.buckets) [
  | none ↦ a
  | some b ↦ record a { survived = insert target_discrete t gap a.survived }
]

-- The first critical section of `intercepted`.
unfoldable pub note_interception : Target → Mode → Interception → Agg → Agg
note_interception t mode info a = with_bucket t mode (count_intercepted info) a

-- The second: whether the fingerprint is the target's first, or a new one.
unfoldable pub remember_fp : Target → Text → Agg → Agg × Bool
remember_fp t fp a = elim (lookup target_discrete t a.last_fp) [
  | none ↦ (record a { last_fp = insert target_discrete t fp a.last_fp }, true)
  | some last ↦
      ite (text_discrete last fp) (a, false)
        (record a { last_fp = insert target_discrete t fp a.last_fp }, true)
]

unfoldable pub intercepted : Target → Mode → Interception → Agg → Agg × Bool
intercepted t mode info a = remember_fp t info.fingerprint (note_interception t mode info a)
