-- ===== src/Report/Render.antt =====
-- The fixed-width texts of internal/report/report.go: a result's line, a cycle's block and the run's
-- summary. `format_ts` and `format_clock` are `UTC().Format` of `time.Time` in the two layouts.
pub mod Overall
pub mod Rows
use pyck_debug_worker.Prelude.{
  ℕ, zero, suc, ◌+◌, ◌-◌, List, [], ◌∷◌, ◌++◌, Option, none, some, Bool, true, false, ◌||◌, ◌==◌,
  not, leb, max, replicate, length, contains, if◌then◌else◌,
}
use pyck_debug_worker.Prelude.Int.{ℤ, sub_ℕ}
use pyck_debug_worker.Prelude.Text.{
  Text, text_discrete, codes, print, join, pad_left, pad_right, trim_right,
}
use pyck_debug_worker.Prelude.Assoc.{Assoc, lookup}
use pyck_debug_worker.Target.{is_empty}
use pyck_debug_worker.Report.{Result, Cycle, cycle_ok}
use pyck_debug_worker.Report.Tally.{TargetStat, or_empty, tally}
use pyck_debug_worker.Report.Run.{Counter, or_zero, Run, add}
use pyck_debug_worker.Report.Duration.{format_duration}

-- The column widths.
abbrev pub target_w : ℕ
target_w = 24

abbrev pub stage_w : ℕ
stage_w = 9

abbrev pub dur_w : ℕ
dur_w = 8

abbrev pub status_w : ℕ
status_w = 4

abbrev pub label_pad : ℕ
label_pad = 2

abbrev pub counts_pad : ℕ
counts_pad = 3

abbrev pub block_w : ℕ
block_w = 64

-- `row`.
pub record Row : Type 0 where
  pub label : Text
  pub ok : Bool
  pub counts : Text
  pub extra : Text

unfoldable pub counts : ℕ → ℕ → Text
unfolding print
counts ok total = print ok ++ b'/' ∷ print total

abbrev pub line_status : Bool → Text
line_status true = codes "ok"
line_status false = codes "FAIL"

abbrev pub rollup_status : Bool → Text
rollup_status true = codes "OK"
rollup_status false = codes "FAIL"

unfoldable pub rule : Text → Text
rule title =
    let head = codes "---- " ++ (title ++ codes " ") in
    if leb block_w (length head) then head else head ++ replicate (block_w - length head) b'-'

-- The widest label and the widest counts of the rows, in bytes.
abbrev pub widest : (Row → Text) → List Row → ℕ
widest column [] = 0
widest column (r ∷ rows) = max (length (column r)) (widest column rows)

unfoldable pub row_line : ℕ → ℕ → Row → Text
unfolding pad_left pad_right
row_line label_w counts_w r =
    let line =
      codes "  "
      ++ (pad_right label_w r.label
          ++ (pad_left status_w (rollup_status r.ok) ++ pad_left counts_w r.counts)) in
    if is_empty r.extra then line else line ++ (codes "   " ++ r.extra)

abbrev pub row_lines : ℕ → ℕ → List Row → List Text
row_lines label_w counts_w [] = []
row_lines label_w counts_w (r ∷ rows) =
    row_line label_w counts_w r ∷ row_lines label_w counts_w rows

unfoldable pub block : Text → List Row → List Text → Text
unfolding rule row_line join
block title rows head = join (codes "\n") (
    rule title
    ∷ (head
        ++ (row_lines (widest (λ r. r.label) rows + label_pad)
              (widest (λ r. r.counts) rows + counts_pad) rows
            ++ replicate block_w b'-' ∷ [])))

-- `overall`: the sums over the rows of a cycle.
unfoldable pub overall_of : List Text → Assoc Text TargetStat → Counter
unfolding text_discrete
overall_of [] stats = record { ok = 0; total = 0 }
overall_of (name ∷ names) stats =
    let s = or_empty (lookup text_discrete name stats) in
    let rest = overall_of names stats in
    record { ok = s.ok + rest.ok; total = s.total + rest.total }

unfoldable pub cycle_rows : List Text → Assoc Text TargetStat → List Row
unfolding text_discrete counts join
cycle_rows [] stats = []
cycle_rows (name ∷ names) stats =
    let s = or_empty (lookup text_discrete name stats) in
    record {
      label = name;
      ok = s.ok == s.total;
      counts = counts s.ok s.total;
      extra = join (codes " ") s.failed;
    }
    ∷ cycle_rows names stats

-- The totals of `Summary`, and its order: the configured targets, then the others with totals.
unfoldable pub overall_run : List Text → Assoc Text Counter → Counter
unfolding text_discrete
overall_run [] m = record { ok = 0; total = 0 }
overall_run (name ∷ names) m =
    let c = or_zero (lookup text_discrete name m) in
    let rest = overall_run names m in record { ok = c.ok + rest.ok; total = c.total + rest.total }

unfoldable pub summary_order : Assoc Text Counter → List Text → List Text
unfolding text_discrete
summary_order [] order = order
summary_order ((name, c) ∷ m) order =
    if contains text_discrete order name
    then summary_order m order
    else summary_order m (order ++ name ∷ [])

abbrev pub or_false : Option Bool → Bool
or_false none = false
or_false (some b) = b

module _ (format_ts format_clock : ℕ → Text) where
  -- `Result.Line`.
  unfoldable pub line : Result → Text
  unfolding pad_left pad_right format_duration trim_right
  line r = trim_right b' ' (
      format_ts r.ts
      ++ (codes "  "
          ++ (pad_right target_w r.target
              ++ (codes "  "
                  ++ (pad_right stage_w r.stage
                      ++ (codes "  "
                          ++ (pad_left status_w (line_status r.ok)
                              ++ (codes "  "
                                  ++ (pad_left dur_w (format_duration r.duration)
                                      ++ (codes "  " ++ r.detail))))))))))

  -- `renderCycle`, of the run after `Add` has counted the cycle.
  unfoldable pub render_cycle : Run → Cycle → List Text → Assoc Text TargetStat → Text
  unfolding format_duration sub_ℕ overall_of cycle_rows counts block print
  render_cycle r c order stats =
      let overall = overall_of order stats in
      let uptime = codes "uptime " ++ format_duration (sub_ℕ c.at_time r.started) in
      let extra =
        if r.failing_since == 0
        then uptime
        else uptime ++ (codes "  failing " ++ format_duration (sub_ℕ c.at_time r.failing_since)) in
      block
        (codes "cycle "
          ++ (print c.n
              ++ (codes "  "
                  ++ (format_ts c.at_time ++ (codes "  " ++ format_duration c.duration)))))
        (cycle_rows order stats
          ++ record {
            label = codes "OVERALL";
            ok = cycle_ok c;
            counts = counts overall.ok overall.total;
            extra = extra;
          }
            ∷ [])
        []

  -- What `Add` returns.
  unfoldable pub add_text : Cycle → Run → Text
  unfolding tally add render_cycle
  add_text c r = let (order, stats) = tally c in render_cycle (add c r) c order stats

  last_fail_text : Option ℕ → Text
  last_fail_text none = []
  last_fail_text (some at_time) = codes "last fail " ++ format_clock at_time

  unfoldable pub summary_rows : Run → List Text → List Row
  unfolding text_discrete counts last_fail_text
  summary_rows r [] = []
  summary_rows r (name ∷ names) =
      let c = or_zero (lookup text_discrete name r.cumulative) in
      record {
        label = name;
        ok = or_false (lookup text_discrete name r.last_ok) || c.total == 0;
        counts = counts c.ok c.total;
        extra = last_fail_text (lookup text_discrete name r.last_fail);
      }
      ∷ summary_rows r names

  -- `Summary`.
  unfoldable pub summary : Run → ℕ → Text
  unfolding summary_order overall_run summary_rows counts format_duration sub_ℕ block print
  summary r now =
      let order = summary_order r.cumulative r.targets in
      let overall = overall_run order r.cumulative in
      block (codes "run summary ")
        (summary_rows r order
          ++ record {
            label = codes "OVERALL";
            ok = not r.any_failed;
            counts = counts overall.ok overall.total;
            extra = codes "uptime " ++ format_duration (sub_ℕ now r.started);
          }
            ∷ [])
        ((codes "  cycles "
            ++ (print r.cycles
                ++ (codes "   clean "
                    ++ (print r.clean ++ (codes "   degraded " ++ print r.degraded)))))
          ∷ [])
