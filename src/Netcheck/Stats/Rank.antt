-- ===== src/Netcheck/Stats/Rank.antt =====
-- The latency summary against its description: what the percentiles of a minute are.
use pyck_debug_worker.Prelude.{
  ℕ, zero, suc, ◌-◌, ◌≤◌, ◌<◌, max, List, [], ◌∷◌, some, ◌≡◌, refl, arith, subst, length, get_elem?,
}
use pyck_debug_worker.Netcheck.Stats.{
  Stats, Percentile, half, most, nearly, percent, round, rank, percentile, sort, summarise, jitter,
}
use pyck_debug_worker.Netcheck.Stats.Order.{sort-IsSorted, length-sort, get_elem?_mono}

-- The nearest rank lies within the samples.
rank_bounds : (p : Percentile) (n : ℕ) → 0 < n → max (rank p n) 1 - 1 < n
unfolding rank
rank_bounds half n h = grind arith
rank_bounds most n h = grind arith
rank_bounds nearly n h = grind arith

get_elem?-total :
    {A : Type 0} (xs : List A) (i : ℕ) → i < length xs → (a : A) × (get_elem? xs i ≡ some a)
get_elem?-total [] i h = absurd (omega arith)
get_elem?-total (x ∷ xs) zero h = (x, refl)
get_elem?-total (x ∷ xs) (suc i) h = get_elem?-total xs i (omega arith)

percentile-total :
    (xs : List ℕ) (p : Percentile) → 0 < length xs → (v : ℕ) × (percentile xs p ≡ some v)
unfolding percentile
percentile-total xs p h = get_elem?-total xs _ (rank_bounds p (length xs) h)

rank_mono :
    (p q : Percentile) (n : ℕ) → percent p ≤ percent q → max (rank p n) 1 - 1 ≤ max (rank q n) 1 - 1
unfolding rank
rank_mono p q n h = grind arith

round_mono : (a b : ℕ) → a ≤ b → round a ≤ round b
unfolding round
round_mono a b h = grind arith

empty_none : {s : Stats} → summarise [] ≡ some s → ⊥
unfolding summarise
empty_none e = cc

-- What `summarise` reads from the sorted samples of a minute.
record Reads (x : ℕ) (xs : List ℕ) (s : Stats) : Type 0 where
  lo : ℕ
  at_50 : ℕ
  at_95 : ℕ
  at_99 : ℕ
  hi : ℕ
  lo_eq : get_elem? (sort (x ∷ xs)) 0 ≡ some lo
  half_eq : percentile (sort (x ∷ xs)) half ≡ some at_50
  most_eq : percentile (sort (x ∷ xs)) most ≡ some at_95
  nearly_eq : percentile (sort (x ∷ xs)) nearly ≡ some at_99
  hi_eq : get_elem? (sort (x ∷ xs)) (length (sort (x ∷ xs)) - 1) ≡ some hi
  stats : s ≡ record {
    min_us = round lo;
    p50 = round at_50;
    p95 = round at_95;
    p99 = round at_99;
    max_us = round hi;
    jitter = jitter (x ∷ xs);
  }

summarise-Reads : (x : ℕ) (xs : List ℕ) → (s : Stats) × (summarise (x ∷ xs) ≡ some s) × Reads x xs s
unfolding summarise
summarise-Reads x xs =
    let sorted = sort (x ∷ xs) in
    let size : 0 < length sorted = omega (arith, length-sort (x ∷ xs)) in
    let (lo, lo_eq) = get_elem?-total sorted 0 size in
    let (a, a_eq) = percentile-total sorted half size in
    let (b, b_eq) = percentile-total sorted most size in
    let (c, c_eq) = percentile-total sorted nearly size in
    let (hi, hi_eq) = get_elem?-total sorted (length sorted - 1) (omega arith) in
    (
      record {
        min_us = round lo;
        p50 = round a;
        p95 = round b;
        p99 = round c;
        max_us = round hi;
        jitter = jitter (x ∷ xs);
      },
      rw (lo_eq, a_eq, b_eq, c_eq, hi_eq),
      record {
        lo = lo;
        at_50 = a;
        at_95 = b;
        at_99 = c;
        hi = hi;
        lo_eq = lo_eq;
        half_eq = a_eq;
        most_eq = b_eq;
        nearly_eq = c_eq;
        hi_eq = hi_eq;
        stats = refl;
      },
    )

-- For a minute with samples a summary exists: no index that `summarise` reads is out of range.
pub summarise-total : (xs : List ℕ) → 0 < length xs → (s : Stats) × (summarise xs ≡ some s)
summarise-total [] h = absurd (omega arith)
summarise-total (x ∷ xs) h = let (s, e, _) = summarise-Reads x xs in (s, e)

Reads-ordered :
    (x : ℕ) (xs : List ℕ) {s : Stats}
    → Reads x xs s
    → (s.min_us ≤ s.p50) × (s.p50 ≤ s.p95) × (s.p95 ≤ s.p99) × (s.p99 ≤ s.max_us)
unfolding percentile
Reads-ordered x xs r =
    let sorted = sort (x ∷ xs) in
    let n = length sorted in
    let size : 0 < n = omega (arith, length-sort (x ∷ xs)) in
    let s = sort-IsSorted (x ∷ xs) in
    let last = rank_bounds nearly n size in
    (
      rw r.stats
          (round_mono r.lo r.at_50 (get_elem?_mono sorted _ _ s (omega arith) r.lo_eq r.half_eq)),
      rw r.stats (
          round_mono r.at_50 r.at_95 (
            get_elem?_mono sorted _ _ s (rank_mono half most n (omega arith)) r.half_eq r.most_eq)),
      rw r.stats (
          round_mono r.at_95 r.at_99 (
            get_elem?_mono sorted _ _ s (rank_mono most nearly n (omega arith)) r.most_eq
              r.nearly_eq)),
      rw r.stats (
          round_mono r.at_99 r.hi
            (get_elem?_mono sorted _ _ s (omega (arith, last)) r.nearly_eq r.hi_eq)),
    )

-- The figures of a summary are in order.
pub summarise_ordered :
    (xs : List ℕ) {s : Stats}
    → summarise xs ≡ some s
    → (s.min_us ≤ s.p50) × (s.p50 ≤ s.p95) × (s.p95 ≤ s.p99) × (s.p99 ≤ s.max_us)
summarise_ordered [] e = absurd (empty_none e)
summarise_ordered (x ∷ xs) {s} e =
    let (t, f, r) = summarise-Reads x xs in
    let same : t ≡ s = cc in Reads-ordered x xs (subst (Reads x xs) same r)
