-- ===== src/Report/Tests.antt =====
-- Two cycles over two targets (internal/report/report.go), to which the theorems are applied.
use pyck_debug_worker.Prelude.{ℕ, ℕ_discrete, Bool, List, [], ◌∷◌, true, false, ◌≡◌, refl, arith}
use pyck_debug_worker.Prelude.Int
use pyck_debug_worker.Prelude.Distinct.{Distinct}
use pyck_debug_worker.Prelude.Text.{Text, text_discrete, codes}
use pyck_debug_worker.Prelude.Assoc.{lookup, insert, delete}
use pyck_debug_worker.Prelude.{length, count_if, any_of, sum_of, contains, ◌++◌, some, All, ◌||◌}
use pyck_debug_worker.Report.{Result, Cycle, cycle_ok}
use pyck_debug_worker.Report.Tally.{tally, tally_results, tally_result, count_result, empty_stats}
use pyck_debug_worker.Report.Totals.{is_of, total_of, ok_of, stage_failed, stat_in, tally_counts}
use pyck_debug_worker.Report.Render.Rows.{labels, IsCounted, cycle_rows-tally}
use pyck_debug_worker.Report.Run.{
  new_run, add, add_all, count_cycle, count_target, count_targets, failed,
}
use pyck_debug_worker.Report.Added.{cum_of}
use pyck_debug_worker.Report.History.{
  IsProper, is_failing, first_time, trailing, last_failure, add_all-history,
}
use pyck_debug_worker.Prelude.Text.{pad_left, pad_right, trim_right}
use pyck_debug_worker.Report.Render.{overall_of, cycle_rows, line}
use pyck_debug_worker.Report.Render.Overall.{overall_of-tally}
use pyck_debug_worker.Report.Duration.{duration_string, drop_zero_units, format_duration}
use pyck_debug_worker.Report.Duration.Rounding.{IsRounded, format_duration-IsRounded}

program : Unit {0}
unfolding tally tally_results tally_result count_result empty_stats text_discrete ℕ_discrete lookup
    insert delete new_run add add_all count_cycle count_target count_targets
program = tt

abbrev wf : Text
wf = codes "wf"

abbrev app : Text
app = codes "app"

abbrev result : Text → Text → Bool → Result
result name stage ok = record {
  ts = 70;
  target = name;
  stage = stage;
  ok = ok;
  duration = Int.pos 1000;
  detail = [];
}

abbrev clean_cycle : Cycle
clean_cycle = record {
  n = 1;
  at_time = 70;
  duration = Int.pos 5000;
  targets = wf ∷ app ∷ [];
  results = result wf (codes "dns") true ∷ result app (codes "dns") true ∷ [];
}

-- One target fails twice in a stage, and the runtime socket is a target that is not configured.
abbrev bad_cycle : Cycle
bad_cycle = record {
  n = 2;
  at_time = 130;
  duration = Int.pos 5000;
  targets = wf ∷ app ∷ [];
  results =
      result wf (codes "tls") false
      ∷ result wf (codes "tls") false
      ∷ result wf (codes "dns") true
      ∷ result (codes "worker") (codes "poll") true
      ∷ [];
}

tally_bad :
    ((tally bad_cycle).0 ≡ wf ∷ app ∷ codes "worker" ∷ [])
    × ((stat_in wf (tally bad_cycle)).total ≡ 3)
    × ((stat_in wf (tally bad_cycle)).ok ≡ 1)
    × ((stat_in wf (tally bad_cycle)).failed ≡ codes "tls" ∷ [])
unfolding program
tally_bad = (refl, refl, refl, refl)

Distinct-targets : Distinct text_discrete bad_cycle.targets
unfolding program
Distinct-targets = (refl, (refl, tt))

cycle_rows-tally_example :
    (let rows = cycle_rows (tally bad_cycle).0 (tally bad_cycle).1 in
      ((new : List Text) × (labels rows ≡ bad_cycle.targets ++ new))
      × Distinct text_discrete (labels rows)
      × ((name : Text)
          → contains text_discrete (labels rows) name ≡ (
              contains text_discrete bad_cycle.targets name
              || any_of (is_of name) bad_cycle.results))
      × All (IsCounted bad_cycle.results) rows)
cycle_rows-tally_example = cycle_rows-tally bad_cycle Distinct-targets

tally_counts_example :
    (let s = stat_in wf (tally bad_cycle) in
      (s.total ≡ total_of wf bad_cycle.results)
      × (s.ok ≡ ok_of wf bad_cycle.results)
      × Distinct text_discrete s.failed
      × ((stage : Text)
          → contains text_discrete s.failed stage ≡ stage_failed wf stage bad_cycle.results))
tally_counts_example = tally_counts wf bad_cycle

abbrev cycles : List Cycle
cycles = clean_cycle ∷ bad_cycle ∷ []

cycles-IsProper : All IsProper cycles
unfolding program
cycles-IsProper = (((refl, (refl, tt)), omega arith), (((refl, (refl, tt)), omega arith), tt))

add_all-history_example :
    (let r = add_all cycles (new_run 60 (wf ∷ app ∷ [])) in
      (r.cycles ≡ length cycles)
      × (r.clean ≡ count_if cycle_ok cycles)
      × (r.degraded ≡ count_if is_failing cycles)
      × (failed r ≡ any_of is_failing cycles)
      × (r.failing_since ≡ first_time (trailing cycles))
      × ((cum_of wf r).total ≡ sum_of (λ c. total_of wf c.results) cycles)
      × ((cum_of wf r).ok ≡ sum_of (λ c. ok_of wf c.results) cycles)
      × (lookup text_discrete wf r.last_fail ≡ last_failure wf cycles))
add_all-history_example = add_all-history 60 (wf ∷ app ∷ []) cycles wf cycles-IsProper

history_wf :
    (let r = add_all cycles (new_run 60 (wf ∷ app ∷ [])) in
      (r.failing_since ≡ 130)
      × (lookup text_discrete wf r.last_fail ≡ some 130)
      × ((cum_of wf r).total ≡ 4))
unfolding program
history_wf = (refl, refl, refl)

format_duration-IsRounded_example :
    (r : ℕ) × (format_duration (Int.pos 1305000000) ≡ drop_zero_units (duration_string r))
    × IsRounded 1305000000 r
unfolding Int.clamp
format_duration-IsRounded_example = format_duration-IsRounded (Int.pos 1305000000)

overall_of-tally_example :
    ((overall_of (tally bad_cycle).0 (tally bad_cycle).1).total ≡ length bad_cycle.results)
    × ((overall_of (tally bad_cycle).0 (tally bad_cycle).1).ok
        ≡ count_if (λ r. r.ok) bad_cycle.results)
overall_of-tally_example = overall_of-tally bad_cycle Distinct-targets

abbrev stamp : ℕ → Text
stamp t = codes "T"

sample_line :
    line stamp stamp (result wf (codes "tls") false)
    ≡ codes "T  wf                        tls        FAIL        0s"
unfolding program line pad_left pad_right trim_right format_duration
sample_line = refl
