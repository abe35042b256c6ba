-- ===== src/Netcheck/Stats/Tests.antt =====
-- The cases of TestSummarise (internal/netcheck/agg_test.go), and the latency theorems at inputs.
use pyck_debug_worker.Prelude.{ℕ, ◌*◌, List, [], ◌∷◌, some, none, ◌≡◌, refl}
use pyck_debug_worker.Netcheck.Stats.{Stats, half, summarise, percentile, sort, round}

abbrev ms : ℕ → ℕ
ms n = n * 1000000

abbrev four : List ℕ
four = ms 40 ∷ ms 10 ∷ ms 30 ∷ ms 20 ∷ []

abbrev four_stats : Stats
four_stats = record {
  min_us = 10000;
  p50 = 20000;
  p95 = 40000;
  p99 = 40000;
  max_us = 40000;
  jitter = 20000;
}

summarise-four : summarise four ≡ some four_stats
unfolding summarise round
summarise-four = refl

summarise-single :
    summarise (12500000 ∷ [])
    ≡ some (record {
      min_us = 12500;
      p50 = 12500;
      p95 = 12500;
      p99 = 12500;
      max_us = 12500;
      jitter = 0;
    })
unfolding summarise round
summarise-single = refl

summarise-empty : summarise [] ≡ none
unfolding summarise
summarise-empty = refl

percentile-four : percentile (sort four) half ≡ some (ms 20)
unfolding percentile sort
percentile-four = refl
