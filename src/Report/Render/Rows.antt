-- ===== src/Report/Render/Rows.antt =====
-- The rows of a cycle's block, without OVERALL, against its results (internal/report/report.go).
use pyck_debug_worker.Prelude.{
  List, [], ◌∷◌, ◌++◌, map, ◌||◌, ◌==◌, contains, any_of, All, ◌≡◌, refl, sym, ap, ◌∙◌, subst,
}
use pyck_debug_worker.Prelude.Distinct.{Distinct}
use pyck_debug_worker.Prelude.Text.{Text, text_discrete}
use pyck_debug_worker.Prelude.Assoc.{Assoc}
use pyck_debug_worker.Report.{Result, Cycle}
use pyck_debug_worker.Report.Tally.{TargetStat, tally}
use pyck_debug_worker.Report.Totals.{is_of, total_of, ok_of, tally_counts}
use pyck_debug_worker.Report.Order.{tally_order}
use pyck_debug_worker.Report.Render.{Row, counts, cycle_rows}

abbrev pub labels : List Row → List Text
labels = map (λ r. r.label)

labels-cycle_rows :
    (names : List Text) (stats : Assoc Text TargetStat) → labels (cycle_rows names stats) ≡ names
unfolding cycle_rows
labels-cycle_rows [] stats = refl
labels-cycle_rows (name ∷ names) stats = ap (λ ls. name ∷ ls) (labels-cycle_rows names stats)

-- A row that says of its target how many of these results are ok, of how many, and OK when all are.
abbrev pub IsCounted : List Result → Row → Type 0
IsCounted results r =
    (r.counts ≡ counts (ok_of r.label results) (total_of r.label results))
    × (r.ok ≡ (ok_of r.label results == total_of r.label results))

cycle_rows-IsCounted :
    (c : Cycle) (names : List Text) → All (IsCounted c.results) (cycle_rows names (tally c).1)
unfolding cycle_rows
cycle_rows-IsCounted c [] = tt
cycle_rows-IsCounted c (name ∷ names) =
    let (total_eq, ok_eq, failed_once, failed_all) = tally_counts name c in
    (rw (total_eq, ok_eq) (refl, refl), cycle_rows-IsCounted c names)

-- The rows of a cycle over distinct targets: the configured targets come first, as they are configured,
-- then those that only appear in the results; each target has one row, exactly the configured and the
-- appearing targets have one, and each row shows how many of its target's results are ok, of how many,
-- and is ok exactly when all of them are.
pub cycle_rows-tally :
    (c : Cycle)
    → Distinct text_discrete c.targets
    → (let rows = cycle_rows (tally c).0 (tally c).1 in
        ((new : List Text) × (labels rows ≡ c.targets ++ new))
        × Distinct text_discrete (labels rows)
        × ((name : Text)
            → contains text_discrete (labels rows) name
              ≡ (contains text_discrete c.targets name || any_of (is_of name) c.results))
        × All (IsCounted c.results) rows)
cycle_rows-tally c d =
    let ((new, prefix), distinct, members) = tally_order c d in
    let same = labels-cycle_rows (tally c).0 (tally c).1 in
    (
      (new, same ∙ prefix),
      subst (Distinct text_discrete) (sym same) distinct,
      λ name. ap (λ ls. contains text_discrete ls name) same ∙ members name,
      cycle_rows-IsCounted c (tally c).0,
    )
