-- ===== src/Report/Tally.antt =====
-- `tally`: one cycle's results grouped per target (internal/report/report.go).
use pyck_debug_worker.Prelude.{
  ℕ, ◌+◌, List, [], ◌∷◌, ◌++◌, Option, none, some, contains, if◌then◌else◌,
}
use pyck_debug_worker.Prelude.Text.{Text, text_discrete}
use pyck_debug_worker.Prelude.Assoc.{Assoc, lookup, insert}
use pyck_debug_worker.Report.{Result, Cycle}

-- `targetStat`.
pub record TargetStat : Type 0 where
  pub ok : ℕ
  pub total : ℕ
  pub failed : List Text

abbrev pub empty_stat : TargetStat
empty_stat = record { ok = 0; total = 0; failed = [] }

abbrev pub or_empty : Option TargetStat → TargetStat
or_empty none = empty_stat
or_empty (some s) = s

-- The body of the loop over the results, for the result's own target.
unfoldable pub count_result : Result → TargetStat → TargetStat
count_result r s =
    if r.ok
    then record s { total = s.total + 1; ok = s.ok + 1 }
    else if contains text_discrete s.failed r.stage
    then record s { total = s.total + 1 }
    else record s { total = s.total + 1; failed = s.failed ++ r.stage ∷ [] }

abbrev pub Tallied : Type 0
Tallied = List Text × Assoc Text TargetStat

-- A target that only appears in the results is appended to the order.
abbrev pub extend_order : Option TargetStat → Text → List Text → List Text
extend_order none name order = order ++ name ∷ []
extend_order (some s) name order = order

unfoldable pub tally_result : Result → Tallied → Tallied
tally_result r (order, stats) =
    let found = lookup text_discrete r.target stats in
    (
      extend_order found r.target order,
      insert text_discrete r.target (count_result r (or_empty found)) stats,
    )

unfoldable pub tally_results : List Result → Tallied → Tallied
tally_results [] st = st
tally_results (r ∷ rs) st = tally_results rs (tally_result r st)

unfoldable pub empty_stats : List Text → Assoc Text TargetStat → Assoc Text TargetStat
empty_stats [] m = m
empty_stats (name ∷ names) m = empty_stats names (insert text_discrete name empty_stat m)

unfoldable pub tally : Cycle → Tallied
tally c = tally_results c.results (c.targets, empty_stats c.targets [])
