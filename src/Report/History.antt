-- ===== src/Report/History.antt =====
-- A run of cycles against its history (internal/report/report.go): every figure of `Run` described
-- by the list of the cycles that were added.
use pyck_debug_worker.Prelude.{
  ℕ, ◌+◌, ◌<◌, List, [], ◌∷◌, Option, none, some, Bool, true, not, ◌||◌, ◌≡◌, refl, ap, ◌∙◌, arith,
  length, count_if, sum_of, all_of, any_of, All, if◌then◌else◌, Bool-cases, inl, inr, ◌==◌,
}
use pyck_debug_worker.Prelude.Distinct.{Distinct}
use pyck_debug_worker.Prelude.Text.{Text, text_discrete}
use pyck_debug_worker.Prelude.Assoc.{lookup}
use pyck_debug_worker.Report.{Cycle, cycle_ok}
use pyck_debug_worker.Report.Totals.{total_of, ok_of}
use pyck_debug_worker.Report.Run.{Run, new_run, add, add_all, failed}
use pyck_debug_worker.Report.Added.{cum_of, add-cum, add-last_fail, add-cycle}

-- Cycles as `cycle` of main.go makes them: each lists the same distinct targets, at a time after
-- Go's zero time.
abbrev pub IsProper : Cycle → Type 0
IsProper c = Distinct text_discrete c.targets × (0 < c.at_time)

abbrev pub is_failing : Cycle → Bool
is_failing c = not (cycle_ok c)

-- The failing cycles at the end of a history.
abbrev pub trailing : List Cycle → List Cycle
trailing [] = []
trailing (c ∷ cs) = if all_of is_failing (c ∷ cs) then c ∷ cs else trailing cs

abbrev pub first_time : List Cycle → ℕ
first_time [] = 0
first_time (c ∷ cs) = c.at_time

-- Whether some result of a target failed in a cycle, and when that was last.
abbrev pub target_failed : Text → Cycle → Bool
target_failed name c = not (ok_of name c.results == total_of name c.results)

abbrev pub or_else : Option ℕ → Option ℕ → Option ℕ
or_else none o = o
or_else (some t) o = some t

abbrev pub last_failure : Text → List Cycle → Option ℕ
last_failure name [] = none
last_failure name (c ∷ cs) =
    or_else (last_failure name cs) (if target_failed name c then some c.at_time else none)

add_all-counts :
    (cs : List Cycle) (r : Run)
    → ((add_all cs r).cycles ≡ r.cycles + length cs)
      × ((add_all cs r).clean ≡ r.clean + count_if cycle_ok cs)
      × ((add_all cs r).degraded ≡ r.degraded + count_if is_failing cs)
      × ((add_all cs r).any_failed ≡ (r.any_failed || any_of is_failing cs))
unfolding add_all
add_all-counts [] r = ground arith
add_all-counts (c ∷ cs) r = ground (arith, add_all-counts cs (add c r), add-cycle c r)

trailing_all : (cs : List Cycle) → all_of is_failing cs ≡ true → trailing cs ≡ cs
trailing_all [] h = refl
trailing_all (c ∷ cs) h = rw h

add_all-since :
    (cs : List Cycle) (r : Run)
    → All IsProper cs
    → (add_all cs r).failing_since ≡ (
        if all_of is_failing cs
        then if r.failing_since == 0 then first_time cs else r.failing_since
        else first_time (trailing cs))
unfolding add_all
add_all-since [] r p = ground arith
add_all-since (c ∷ cs) r p = elim (Bool-cases (all_of is_failing cs)) [
  | inl h ↦ ground (
    arith,
    add_all-since cs (add c r) p.1,
    (add-cycle c r).4,
    p.0.1,
    ap first_time (trailing_all cs h),
  )
  | inr h ↦ ground (arith, add_all-since cs (add c r) p.1, (add-cycle c r).4)
]

add_all-cum :
    (name : Text) (cs : List Cycle) (r : Run)
    → All IsProper cs
    → ((cum_of name (add_all cs r)).total
        ≡ (cum_of name r).total + sum_of (λ c. total_of name c.results) cs)
      × ((cum_of name (add_all cs r)).ok
          ≡ (cum_of name r).ok + sum_of (λ c. ok_of name c.results) cs)
unfolding add_all
add_all-cum name [] r p = (omega arith, omega arith)
add_all-cum name (c ∷ cs) r p =
    let (t, o) = add_all-cum name cs (add c r) p.1 in
    let (u, v) = add-cum c r name p.0.0 in (omega (arith, t, u), omega (arith, o, v))

add_all-last_fail :
    (name : Text) (cs : List Cycle) (r : Run)
    → All IsProper cs
    → lookup text_discrete name (add_all cs r).last_fail
      ≡ or_else (last_failure name cs) (lookup text_discrete name r.last_fail)
unfolding add_all
add_all-last_fail name [] r p = refl
add_all-last_fail name (c ∷ cs) r p =
    add_all-last_fail name cs (add c r) p.1 ∙ rw (add-last_fail c r name p.0.0) (ground arith)

or_else-none : (o : Option ℕ) → or_else o none ≡ o
or_else-none none = refl
or_else-none (some t) = refl

since_zero :
    (cs : List Cycle)
    → (if all_of is_failing cs then first_time cs else first_time (trailing cs))
      ≡ first_time (trailing cs)
since_zero [] = refl
since_zero (c ∷ cs) = ground arith

-- After any cycles over distinct targets, at times after Go's zero time, as `cycle` of main.go makes
-- them, the figures of a run are those of its history: how many cycles there were, how many of them clean and degraded; a failure anywhere sets `Failed`
-- for good; `failingSince` is zero, or the time of the first of the unbroken series of failing
-- cycles at the end; a target's totals are the sums of its results over the cycles; and its last
-- failure is the time of the last cycle in which one of its results failed.
pub add_all-history :
    (started : ℕ) (targets : List Text) (cs : List Cycle) (name : Text)
    → All IsProper cs
    → (let r = add_all cs (new_run started targets) in
        (r.cycles ≡ length cs)
        × (r.clean ≡ count_if cycle_ok cs)
        × (r.degraded ≡ count_if is_failing cs)
        × (failed r ≡ any_of is_failing cs)
        × (r.failing_since ≡ first_time (trailing cs))
        × ((cum_of name r).total ≡ sum_of (λ c. total_of name c.results) cs)
        × ((cum_of name r).ok ≡ sum_of (λ c. ok_of name c.results) cs)
        × (lookup text_discrete name r.last_fail ≡ last_failure name cs))
unfolding new_run lookup
add_all-history started targets cs name p =
    let r = new_run started targets in
    let (a, b, c, d) = add_all-counts cs r in
    let (t, o) = add_all-cum name cs r p in
    (
      omega (arith, a),
      omega (arith, b),
      omega (arith, c),
      d,
      add_all-since cs r p ∙ since_zero cs,
      omega (arith, t),
      omega (arith, o),
      add_all-last_fail name cs r p ∙ or_else-none (last_failure name cs),
    )

pub add_all-failed :
    (cs : List Cycle) (started : ℕ) (targets : List Text)
    → failed (add_all cs (new_run started targets)) ≡ any_of is_failing cs
unfolding new_run
add_all-failed cs started targets = (add_all-counts cs (new_run started targets)).3
