-- ===== src/Netcheck/Stats.antt =====
-- `summarise`, `percentile`, `ms` and `round` of internal/netcheck/agg.go. A latency sample is kept
-- as its nanoseconds, of which `ms` is a monotone rescaling, and a summary holds whole microseconds,
-- which is what `round` keeps of a float; the arithmetic between them is exact here. The percentiles
-- are the three that `summarise` asks for: for these the float64 product `p / 100 * n` has the same
-- ceiling as the exact one, which is not so for every `p` (for p = 7 and n = 100 the code's is 8).
pub mod Order
pub mod Rank
pub mod Tests
use pyck_debug_worker.Prelude.{
  ℕ, zero, suc, ◌+◌, ◌-◌, ◌*◌, ◌/◌, max, List, [], ◌∷◌, Option, none, some, ◌≡◌, refl, leb,
  if◌then◌else◌, length, get_elem?, ltb,
}

infixl 5 ◌>>=◌
abbrev ◌>>=◌ {ℓ κ} : {A : Type ℓ} {B : Type κ} → Option A → (A → Option B) → Option B
none >>= f = none
some a >>= f = f a

-- `stats`, in microseconds.
pub record Stats : Type 0 where
  pub min_us : ℕ
  pub p50 : ℕ
  pub p95 : ℕ
  pub p99 : ℕ
  pub max_us : ℕ
  pub jitter : ℕ

-- `round`, of a sample in nanoseconds: half a microsecond rounds up.
unfoldable pub round : ℕ → ℕ
round ns = (ns + 500) / 1000

-- `math.Abs(a - b)`.
abbrev pub abs_diff : ℕ → ℕ → ℕ
abs_diff a b = (a - b) + (b - a)

-- The loop that adds up the differences between consecutive samples.
unfoldable pub total_diff : List ℕ → ℕ
total_diff [] = 0
total_diff (x ∷ []) = 0
total_diff (x ∷ y ∷ xs) = abs_diff y x + total_diff (y ∷ xs)

-- The mean difference, rounded: `round(sum / (n - 1))`, computed as one exact fraction.
unfoldable pub jitter : List ℕ → ℕ
unfolding total_diff
jitter xs =
    if ltb 1 (length xs)
    then (2 * total_diff xs + 1000 * (length xs - 1)) / (2000 * (length xs - 1))
    else round (total_diff xs)

-- `slices.Sort`.
unfoldable pub insert_sorted : ℕ → List ℕ → List ℕ
insert_sorted x [] = x ∷ []
insert_sorted x (y ∷ ys) = if leb x y then x ∷ y ∷ ys else y ∷ insert_sorted x ys

unfoldable pub sort : List ℕ → List ℕ
unfolding insert_sorted
sort [] = []
sort (x ∷ xs) = insert_sorted x (sort xs)

-- The values of `p` that the code passes: 50, 95 and 99.
pub data Percentile : Type 0 where
  half most nearly : Percentile

abbrev pub percent : Percentile → ℕ
percent half = 50
percent most = 95
percent nearly = 99

-- `int(math.Ceil(float64(p) / 100 * float64(n)))`, for these values of `p`.
unfoldable pub rank : Percentile → ℕ → ℕ
rank p n = (percent p * n + 99) / 100

-- An index out of range, at which the code would panic, is `none`.
unfoldable pub percentile : List ℕ → Percentile → Option ℕ
unfolding rank
percentile sorted p = get_elem? sorted (max (rank p (length sorted)) 1 - 1)

summarise_sorted : List ℕ → List ℕ → Option Stats
unfolding percentile jitter
summarise_sorted samples sorted = do
  lowest ← get_elem? sorted 0
  p50 ← percentile sorted half
  p95 ← percentile sorted most
  p99 ← percentile sorted nearly
  highest ← get_elem? sorted (length sorted - 1)
  some (record {
    min_us = round lowest;
    p50 = round p50;
    p95 = round p95;
    p99 = round p99;
    max_us = round highest;
    jitter = jitter samples;
  })

unfoldable pub summarise : List ℕ → Option Stats
unfolding summarise_sorted sort
summarise [] = none
summarise (x ∷ xs) = summarise_sorted (x ∷ xs) (sort (x ∷ xs))
