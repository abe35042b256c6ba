-- ===== src/Report/Order.antt =====
-- The order in which `tally` lists the targets, and what `Add` makes of a cycle
-- (internal/report/report.go).
use mathlib.Core.List.{append-nil, append_assoc}
use pyck_debug_worker.Prelude.{
  List, [], ◌∷◌, ◌++◌, ◌||◌, ◌≡◌, refl, sym, ap, ◌∙◌, arith, contains, contains-append, is_some,
  Option-cases, inl, inr, any_of,
}
use pyck_debug_worker.Prelude.Distinct.{Distinct, Distinct-snoc}
use pyck_debug_worker.Prelude.Text.{Text, text_discrete}
use pyck_debug_worker.Prelude.Assoc.{Assoc, lookup, lookup-insert}
use pyck_debug_worker.Report.{Result, Cycle}
use pyck_debug_worker.Report.Tally.{
  TargetStat, empty_stat, count_result, Tallied, extend_order, tally_result, tally_results,
  empty_stats, tally,
}
use pyck_debug_worker.Report.Totals.{is_of}

-- The order lists exactly the targets that have statistics, each once.
pub record IsTally (st : Tallied) : Type 0 where
  pub known :
      (name : Text) → contains text_discrete st.0 name ≡ is_some (lookup text_discrete name st.1)
  pub distinct : Distinct text_discrete st.0

tally_result-known :
    (r : Result) (st : Tallied) (name : Text)
    → ((n : Text) → contains text_discrete st.0 n ≡ is_some (lookup text_discrete n st.1))
    → contains text_discrete (tally_result r st).0 name
      ≡ is_some (lookup text_discrete name (tally_result r st).1)
unfolding tally_result
tally_result-known r (order, stats) name k =
    elim (Option-cases (lookup text_discrete r.target stats)) [
      | inl e ↦
          rw
            (
              e,
              contains-append text_discrete order (r.target ∷ []) name,
              lookup-insert text_discrete name r.target (count_result r empty_stat) stats,
            )
            (ground (arith, k name))
      | inr (s, e) ↦
          rw (e, lookup-insert text_discrete name r.target (count_result r s) stats)
            (elim (text_discrete r.target name) [
              | yes p ↦
                  ground (arith, k r.target, ap (contains text_discrete order) p, ap is_some e)
              | no p ↦ ground (arith, k name)
            ])
    ]

tally_result-Distinct :
    (r : Result) (st : Tallied) → IsTally st → Distinct text_discrete (tally_result r st).0
unfolding tally_result
tally_result-Distinct r (order, stats) v =
    elim (Option-cases (lookup text_discrete r.target stats)) [
      | inl e ↦
          rw e (
            Distinct-snoc text_discrete order r.target v.distinct (v.known r.target ∙ ap is_some e))
      | inr (s, e) ↦ rw e v.distinct
    ]

tally_results-IsTally :
    (rs : List Result) (st : Tallied) → IsTally st → IsTally (tally_results rs st)
unfolding tally_results
tally_results-IsTally [] st v = v
tally_results-IsTally (r ∷ rs) st v = tally_results-IsTally rs (tally_result r st) (record {
  known = λ name. tally_result-known r st name v.known;
  distinct = tally_result-Distinct r st v;
})

empty_stats-known :
    (names : List Text) (m : Assoc Text TargetStat) (name : Text)
    → is_some (lookup text_discrete name (empty_stats names m))
      ≡ (contains text_discrete names name || is_some (lookup text_discrete name m))
unfolding empty_stats
empty_stats-known [] m name = refl
empty_stats-known (n ∷ names) m name =
    empty_stats-known names _ name ∙ ground (arith, lookup-insert text_discrete name n empty_stat m)

start :
    (c : Cycle) → Distinct text_discrete c.targets → IsTally (c.targets, empty_stats c.targets [])
unfolding lookup
start c d = record {
  known = λ name. ground (arith, empty_stats-known c.targets [] name);
  distinct = d;
}

pub tally-IsTally : (c : Cycle) → Distinct text_discrete c.targets → IsTally (tally c)
unfolding tally
tally-IsTally c d = tally_results-IsTally c.results _ (start c d)

tally_result-prefix :
    (r : Result) (st : Tallied) → (new : List Text) × ((tally_result r st).0 ≡ st.0 ++ new)
unfolding tally_result
tally_result-prefix r (order, stats) = elim (Option-cases (lookup text_discrete r.target stats)) [
  | inl e ↦ (r.target ∷ [], ap (λ o. extend_order o r.target order) e)
  | inr (s, e) ↦ ([], ap (λ o. extend_order o r.target order) e ∙ sym (append-nil order))
]

tally_results-prefix :
    (rs : List Result) (st : Tallied) → (new : List Text) × ((tally_results rs st).0 ≡ st.0 ++ new)
unfolding tally_results
tally_results-prefix [] st = ([], sym (append-nil st.0))
tally_results-prefix (r ∷ rs) st =
    let (first, p) = tally_result-prefix r st in
    let (more, q) = tally_results-prefix rs (tally_result r st) in
    (first ++ more, q ∙ ap (λ o. o ++ more) p ∙ append_assoc st.0 first more)

tally_result-order :
    (r : Result) (st : Tallied) (name : Text)
    → IsTally st
    → contains text_discrete (tally_result r st).0 name
      ≡ (contains text_discrete st.0 name || is_of name r)
unfolding tally_result
tally_result-order r (order, stats) name v =
    elim (Option-cases (lookup text_discrete r.target stats)) [
      | inl e ↦ rw (e, contains-append text_discrete order (r.target ∷ []) name) (ground arith)
      | inr (s, e) ↦ rw e (elim (text_discrete r.target name) [
        | yes p ↦
            ground (arith, v.known r.target, ap (contains text_discrete order) p, ap is_some e)
        | no p ↦ ground arith
      ])
    ]

tally_results-order :
    (rs : List Result) (st : Tallied) (name : Text)
    → IsTally st
    → contains text_discrete (tally_results rs st).0 name
      ≡ (contains text_discrete st.0 name || any_of (is_of name) rs)
unfolding tally_results
tally_results-order [] st name v = ground arith
tally_results-order (r ∷ rs) st name v =
    tally_results-order rs (tally_result r st) name (tally_results-IsTally (r ∷ []) st v)
    ∙ ground (arith, tally_result-order r st name v)

-- The summary of a cycle over distinct targets has its rows in this order: the configured targets
-- first, as they are configured, then those that only appear in the results; each target has one
-- row, and exactly the configured and the appearing targets have one.
pub tally_order :
    (c : Cycle)
    → Distinct text_discrete c.targets
    → ((new : List Text) × ((tally c).0 ≡ c.targets ++ new))
      × Distinct text_discrete (tally c).0
      × ((name : Text)
          → contains text_discrete (tally c).0 name
            ≡ (contains text_discrete c.targets name || any_of (is_of name) c.results))
unfolding tally
tally_order c d = (
  tally_results-prefix c.results (c.targets, empty_stats c.targets []),
  (tally-IsTally c d).distinct,
  λ name. tally_results-order c.results (c.targets, empty_stats c.targets []) name (start c d),
)
