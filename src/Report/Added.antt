-- ===== src/Report/Added.antt =====
-- What one `Add` does to the totals (internal/report/report.go).
use pyck_debug_worker.Prelude.{
  ℕ, ◌+◌, List, [], ◌∷◌, Option, some, Bool, true, false, not, ◌||◌, ◌≡◌, ◌≢◌, refl, sym, ap, ◌∙◌,
  subst, arith, if_pos, if_neg, contains, if◌then◌else◌, Bool-cases, inl, inr, ◌==◌,
}
use pyck_debug_worker.Prelude.Distinct.{Distinct}
use pyck_debug_worker.Prelude.Text.{Text, text_discrete}
use pyck_debug_worker.Prelude.Assoc.{Assoc, lookup, lookup-insert_ne, lookup-insert_self}
use pyck_debug_worker.Report.{Cycle, cycle_ok}
use pyck_debug_worker.Report.Tally.{TargetStat, empty_stat, or_empty, tally}
use pyck_debug_worker.Report.Totals.{stat_in, total_of, ok_of, tally_counts}
use pyck_debug_worker.Report.Order.{tally-IsTally}
use pyck_debug_worker.Report.Run.{
  Counter, or_zero, Run, count_cycle, count_target, count_targets, add,
}

abbrev pub cum_of : Text → Run → Counter
cum_of name r = or_zero (lookup text_discrete name r.cumulative)

-- The fields that the loop over the targets leaves alone.
record Keeps (r q : Run) : Type 0 where
  cycles_eq : q.cycles ≡ r.cycles
  clean_eq : q.clean ≡ r.clean
  degraded_eq : q.degraded ≡ r.degraded
  since_eq : q.failing_since ≡ r.failing_since
  failed_eq : q.any_failed ≡ r.any_failed
  targets_eq : q.targets ≡ r.targets

count_targets-Keeps :
    (at_time : ℕ) (names : List Text) (stats : Assoc Text TargetStat) (r : Run)
    → Keeps r (count_targets at_time names stats r)
unfolding count_targets count_target
count_targets-Keeps at_time [] stats r = record {
  cycles_eq = refl;
  clean_eq = refl;
  degraded_eq = refl;
  since_eq = refl;
  failed_eq = refl;
  targets_eq = refl;
}
count_targets-Keeps at_time (name ∷ names) stats r =
    let k =
      count_targets-Keeps at_time names stats
        (count_target at_time name (or_empty (lookup text_discrete name stats)) r) in
    record {
      cycles_eq = k.cycles_eq;
      clean_eq = k.clean_eq;
      degraded_eq = k.degraded_eq;
      since_eq = k.since_eq;
      failed_eq = k.failed_eq;
      targets_eq = k.targets_eq;
    }

-- One target's entries.
record Entries : Type 0 where
  cum : Option Counter
  last_ok : Option Bool
  last_fail : Option ℕ

entries : Text → Run → Entries
entries name r = record {
  cum = lookup text_discrete name r.cumulative;
  last_ok = lookup text_discrete name r.last_ok;
  last_fail = lookup text_discrete name r.last_fail;
}

-- A target's own turn, on its entries.
turn : ℕ → TargetStat → Entries → Entries
turn at_time s e =
    let cum = or_zero e.cum in
    record {
      cum = some (record { ok = cum.ok + s.ok; total = cum.total + s.total });
      last_ok = some (s.ok == s.total);
      last_fail = if s.ok == s.total then e.last_fail else some at_time;
    }

count_target-other :
    (at_time : ℕ) (name other : Text) (s : TargetStat) (r : Run)
    → name ≢ other
    → entries other (count_target at_time name s r) ≡ entries other r
unfolding entries count_target
count_target-other at_time name other s r h = elim (Bool-cases (s.ok == s.total)) [
  | inl e ↦ rw (
    e,
    lookup-insert_ne text_discrete other name _ r.cumulative h,
    lookup-insert_ne text_discrete other name _ r.last_ok h,
  )
  | inr e ↦ rw (
    e,
    lookup-insert_ne text_discrete other name _ r.cumulative h,
    lookup-insert_ne text_discrete other name _ r.last_ok h,
    lookup-insert_ne text_discrete other name _ r.last_fail h,
  )
]

count_target_self :
    (at_time : ℕ) (name : Text) (s : TargetStat) (r : Run)
    → entries name (count_target at_time name s r) ≡ turn at_time s (entries name r)
unfolding entries count_target turn
count_target_self at_time name s r = elim (Bool-cases (s.ok == s.total)) [
  | inl e ↦ rw (
    e,
    lookup-insert_self text_discrete name _ r.cumulative,
    lookup-insert_self text_discrete name _ r.last_ok,
  )
  | inr e ↦ rw (
    e,
    lookup-insert_self text_discrete name _ r.cumulative,
    lookup-insert_self text_discrete name _ r.last_ok,
    lookup-insert_self text_discrete name _ r.last_fail,
  )
]

count_targets-other :
    (at_time : ℕ) (names : List Text) (stats : Assoc Text TargetStat) (r : Run) (name : Text)
    → contains text_discrete names name ≡ false
    → entries name (count_targets at_time names stats r) ≡ entries name r
unfolding count_targets
count_targets-other at_time [] stats r name h = refl
count_targets-other at_time (n ∷ names) stats r name h =
    count_targets-other at_time names stats _ name (ground arith)
    ∙ count_target-other at_time n name (or_empty (lookup text_discrete n stats)) r
        (λ e. cc (if_pos (text_discrete n name) e true (contains text_discrete names name)))

count_targets_self :
    (at_time : ℕ) (names : List Text) (stats : Assoc Text TargetStat) (r : Run) (name : Text)
    → Distinct text_discrete names
    → contains text_discrete names name ≡ true
    → entries name (count_targets at_time names stats r)
      ≡ turn at_time (or_empty (lookup text_discrete name stats)) (entries name r)
unfolding count_targets
count_targets_self at_time [] stats r name d h = cc
count_targets_self at_time (n ∷ names) stats r name d h = elim (text_discrete n name) [
  | yes p ↦
      subst
        (λ u.
          entries u (
            count_targets at_time names stats
              (count_target at_time n (or_empty (lookup text_discrete n stats)) r))
          ≡ turn at_time (or_empty (lookup text_discrete u stats)) (entries u r))
        p
        (count_targets-other at_time names stats _ n d.0
          ∙ count_target_self at_time n (or_empty (lookup text_discrete n stats)) r)
  | no p ↦
      count_targets_self at_time names stats _ name d.1
        (sym (if_neg (text_discrete n name) p true (contains text_discrete names name)) ∙ h)
      ∙ ap (turn at_time (or_empty (lookup text_discrete name stats)))
          (count_target-other at_time n name (or_empty (lookup text_discrete n stats)) r p)
]

count_cycle-entries :
    (name : Text) (c : Cycle) (r : Run) → entries name (count_cycle c r) ≡ entries name r
unfolding count_cycle entries
count_cycle-entries name c r = elim (Bool-cases (cycle_ok c)) [ inl e ↦ rw e | inr e ↦ rw e ]

module _ (c : Cycle) (r : Run) (name : Text) (d : Distinct text_discrete c.targets) where
  add-listed :
      contains text_discrete (tally c).0 name ≡ true
      → entries name (add c r) ≡ turn c.at_time (stat_in name (tally c)) (entries name r)
  unfolding add
  add-listed h =
      count_targets_self c.at_time (tally c).0 (tally c).1 (count_cycle c r) name
        (tally-IsTally c d).distinct h
      ∙ ap (turn c.at_time (stat_in name (tally c))) (count_cycle-entries name c r)

  add-unlisted :
      contains text_discrete (tally c).0 name ≡ false → entries name (add c r) ≡ entries name r
  unfolding add
  add-unlisted h =
      count_targets-other c.at_time (tally c).0 (tally c).1 (count_cycle c r) name h
      ∙ count_cycle-entries name c r

  unlisted_stat :
      contains text_discrete (tally c).0 name ≡ false → stat_in name (tally c) ≡ empty_stat
  unlisted_stat h = ground (arith, (tally-IsTally c d).known name)

  -- What `Add` does to a target's totals, whether the cycle lists it or not.
  pub add-cum :
      ((cum_of name (add c r)).total ≡ (cum_of name r).total + total_of name c.results)
      × ((cum_of name (add c r)).ok ≡ (cum_of name r).ok + ok_of name c.results)
  unfolding entries turn
  add-cum = elim (Bool-cases (contains text_discrete (tally c).0 name)) [
    | inl h ↦
        let e : cum_of name (add c r)
            ≡ or_zero (turn c.at_time (stat_in name (tally c)) (entries name r)).cum =
          ap (λ x. or_zero x.cum) (add-listed h) in
        let (t, o, _, _) = tally_counts name c in rw e (omega (arith, t, o))
    | inr h ↦
        let e : cum_of name (add c r) ≡ cum_of name r = ap (λ x. or_zero x.cum) (add-unlisted h) in
        let (t, o, _, _) = tally_counts name c in
        let z = unlisted_stat h in rw e (omega (arith, t, o, ap (λ x. x.total) z, ap (λ x. x.ok) z))
  ]

  -- The time of its last failure is that of this cycle exactly if one of its results failed.
  pub add-last_fail : lookup text_discrete name (add c r).last_fail ≡ (
      if ok_of name c.results == total_of name c.results
      then lookup text_discrete name r.last_fail
      else some c.at_time)
  unfolding entries turn
  add-last_fail = elim (Bool-cases (contains text_discrete (tally c).0 name)) [
    | inl h ↦
        let (t, o, _, _) = tally_counts name c in ap (λ x. x.last_fail) (add-listed h) ∙ rw (t, o)
    | inr h ↦
        let (t, o, _, _) = tally_counts name c in
        let z = unlisted_stat h in
        ap (λ x. x.last_fail) (add-unlisted h)
        ∙ ground (arith, t, o, ap (λ x. x.total) z, ap (λ x. x.ok) z)
  ]

count_cycle_lem :
    (c : Cycle) (r : Run)
    → ((count_cycle c r).cycles ≡ r.cycles + 1)
      × ((count_cycle c r).clean ≡ r.clean + (if cycle_ok c then 1 else 0))
      × ((count_cycle c r).degraded ≡ r.degraded + (if cycle_ok c then 0 else 1))
      × ((count_cycle c r).any_failed ≡ (r.any_failed || not (cycle_ok c)))
      × ((count_cycle c r).failing_since
          ≡ (if cycle_ok c then 0 else if r.failing_since == 0 then c.at_time else r.failing_since))
unfolding count_cycle
count_cycle_lem c r = elim (Bool-cases (cycle_ok c)) [
  | inl e ↦ rw e (ground arith)
  | inr e ↦ rw e (ground arith)
]

-- What `Add` does to the run as a whole.
pub add-cycle :
    (c : Cycle) (r : Run)
    → ((add c r).cycles ≡ r.cycles + 1)
      × ((add c r).clean ≡ r.clean + (if cycle_ok c then 1 else 0))
      × ((add c r).degraded ≡ r.degraded + (if cycle_ok c then 0 else 1))
      × ((add c r).any_failed ≡ (r.any_failed || not (cycle_ok c)))
      × ((add c r).failing_since
          ≡ (if cycle_ok c then 0 else if r.failing_since == 0 then c.at_time else r.failing_since))
unfolding add
add-cycle c r =
    let k = count_targets-Keeps c.at_time (tally c).0 (tally c).1 (count_cycle c r) in
    rw (k.cycles_eq, k.clean_eq, k.degraded_eq, k.failed_eq, k.since_eq) (count_cycle_lem c r)
