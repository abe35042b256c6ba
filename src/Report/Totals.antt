-- ===== src/Report/Totals.antt =====
-- What `tally` counts for a target (internal/report/report.go).
use pyck_debug_worker.Prelude.{
  ℕ, ◌+◌, List, [], ◌∷◌, Bool, true, false, not, ◌&&◌, ◌||◌, ◌≡◌, refl, ap, ◌∙◌, arith, ite,
  contains, contains-append, count_if, if◌then◌else◌, any_of, Bool-cases, inl, inr,
}
use pyck_debug_worker.Prelude.Text.{Text, text_discrete}
use pyck_debug_worker.Prelude.Assoc.{Assoc, lookup, lookup-insert}
use pyck_debug_worker.Prelude.Distinct.{Distinct, Distinct-snoc}
use pyck_debug_worker.Report.{Result, Cycle}
use pyck_debug_worker.Report.Tally.{
  TargetStat, empty_stat, or_empty, count_result, Tallied, tally_result, tally_results, empty_stats,
  tally,
}

abbrev pub is_of : Text → Result → Bool
is_of name r = ite (text_discrete r.target name) true false

-- How many results a target has, and how many of them are ok.
abbrev pub total_of : Text → List Result → ℕ
total_of name = count_if (is_of name)

abbrev pub ok_of : Text → List Result → ℕ
ok_of name = count_if (λ r. is_of name r && r.ok)

-- The statistics of one target, counted by itself.
abbrev pub stat_after : Text → List Result → TargetStat → TargetStat
stat_after name [] s = s
stat_after name (r ∷ rs) s = stat_after name rs (if is_of name r then count_result r s else s)

abbrev pub stat_in : Text → Tallied → TargetStat
stat_in name st = or_empty (lookup text_discrete name st.1)

tally_result-stat :
    (name : Text) (r : Result) (st : Tallied)
    → stat_in name (tally_result r st)
      ≡ (if is_of name r then count_result r (stat_in name st) else stat_in name st)
unfolding tally_result
tally_result-stat name r (order, stats) =
    rw
      (lookup-insert text_discrete name r.target
        (count_result r (or_empty (lookup text_discrete r.target stats))) stats)
      (elim (text_discrete r.target name) [
        | yes p ↦ ground (arith, ap (λ u. or_empty (lookup text_discrete u stats)) p)
        | no p ↦ ground arith
      ])

tally_results-stat :
    (name : Text) (rs : List Result) (st : Tallied)
    → stat_in name (tally_results rs st) ≡ stat_after name rs (stat_in name st)
unfolding tally_results
tally_results-stat name [] st = refl
tally_results-stat name (r ∷ rs) st =
    tally_results-stat name rs (tally_result r st)
    ∙ ap (stat_after name rs) (tally_result-stat name r st)

empty_stats-stat :
    (name : Text) (names : List Text) (m : Assoc Text TargetStat)
    → or_empty (lookup text_discrete name m) ≡ empty_stat
    → or_empty (lookup text_discrete name (empty_stats names m)) ≡ empty_stat
unfolding empty_stats
empty_stats-stat name [] m h = h
empty_stats-stat name (n ∷ names) m h =
    empty_stats-stat name names _ (ground (arith, lookup-insert text_discrete name n empty_stat m))

-- What the tally of a cycle holds for a target: its own results, counted by themselves.
tally-stat :
    (name : Text) (c : Cycle) → stat_in name (tally c) ≡ stat_after name c.results empty_stat
unfolding tally lookup
tally-stat name c =
    tally_results-stat name c.results _
    ∙ ap (stat_after name c.results) (empty_stats-stat name c.targets [] refl)

count_result-counts :
    (r : Result) (s : TargetStat)
    → ((count_result r s).total ≡ s.total + 1)
      × ((count_result r s).ok ≡ s.ok + (if r.ok then 1 else 0))
unfolding count_result
count_result-counts r s = ground arith

stat_after-counts :
    (name : Text) (rs : List Result) (s : TargetStat)
    → let t = stat_after name rs s in
      (t.total ≡ s.total + total_of name rs) × (t.ok ≡ s.ok + ok_of name rs)
stat_after-counts name [] s = (omega arith, omega arith)
stat_after-counts name (r ∷ rs) s = elim (Bool-cases (is_of name r)) [
  | inl own ↦
      rw own (ground (arith, stat_after-counts name rs (count_result r s), count_result-counts r s))
  | inr other ↦ rw other (ground (arith, stat_after-counts name rs s))
]

-- Whether a stage failed for a target.
abbrev pub stage_failed : Text → Text → List Result → Bool
stage_failed name stage =
    any_of (λ r. is_of name r && (not r.ok && ite (text_discrete r.stage stage) true false))

count_result-failed :
    (r : Result) (s : TargetStat) (stage : Text)
    → contains text_discrete (count_result r s).failed stage ≡ (
        contains text_discrete s.failed stage
        || (not r.ok && ite (text_discrete r.stage stage) true false))
unfolding count_result
count_result-failed r s stage = elim (text_discrete r.stage stage) [
  | yes p ↦ ground (
    arith,
    contains-append text_discrete s.failed (r.stage ∷ []) stage,
    ap (contains text_discrete s.failed) p,
  )
  | no p ↦ ground (arith, contains-append text_discrete s.failed (r.stage ∷ []) stage)
]

stat_after-failed :
    (name stage : Text) (rs : List Result) (s : TargetStat)
    → contains text_discrete (stat_after name rs s).failed stage
      ≡ (contains text_discrete s.failed stage || stage_failed name stage rs)
stat_after-failed name stage [] s = ground arith
stat_after-failed name stage (r ∷ rs) s = elim (Bool-cases (is_of name r)) [
  | inl own ↦ rw own (
      ground
        (arith, stat_after-failed name stage rs (count_result r s), count_result-failed r s stage))
  | inr other ↦ rw other (ground (arith, stat_after-failed name stage rs s))
]

count_result-Distinct :
    (r : Result) (s : TargetStat)
    → Distinct text_discrete s.failed
    → Distinct text_discrete (count_result r s).failed
unfolding count_result
count_result-Distinct r s d = ground (arith, Distinct-snoc text_discrete s.failed r.stage d)

if-Distinct :
    (b : Bool) (s t : TargetStat)
    → Distinct text_discrete s.failed
    → Distinct text_discrete t.failed
    → Distinct text_discrete (if b then s else t).failed
if-Distinct true s t d e = d
if-Distinct false s t d e = e

stat_after-Distinct :
    (name : Text) (rs : List Result) (s : TargetStat)
    → Distinct text_discrete s.failed
    → Distinct text_discrete (stat_after name rs s).failed
stat_after-Distinct name [] s d = d
stat_after-Distinct name (r ∷ rs) s d =
    stat_after-Distinct name rs (if is_of name r then count_result r s else s)
      (if-Distinct (is_of name r) (count_result r s) s (count_result-Distinct r s d) d)

-- For every cycle and target the tally holds how many results the target has and how many are ok,
-- and lists exactly the stages of its failed results, each once.
pub tally_counts :
    (name : Text) (c : Cycle)
    → (let s = stat_in name (tally c) in
        (s.total ≡ total_of name c.results)
        × (s.ok ≡ ok_of name c.results)
        × Distinct text_discrete s.failed
        × ((stage : Text)
            → contains text_discrete s.failed stage ≡ stage_failed name stage c.results))
tally_counts name c = rw (tally-stat name c) (
  omega (arith, (stat_after-counts name c.results empty_stat).0),
  omega (arith, (stat_after-counts name c.results empty_stat).1),
  stat_after-Distinct name c.results empty_stat tt,
  λ stage. stat_after-failed name stage c.results empty_stat,
)
