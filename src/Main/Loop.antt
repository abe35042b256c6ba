-- ===== src/Main/Loop.antt =====
-- The loop of cycles and its exit code, and the hand-over of results to netcheck
-- (cmd/pyck-debug-worker/main.go). The cycles that are probed before the signal arrives are given,
-- the first one apart since there always is one; so are the results of the print check.
use pyck_debug_worker.Prelude.Text.{Text}
use pyck_debug_worker.Prelude.{
  zero, suc, replicate, ℕ, List, [], ◌∷◌, ◌++◌, Option, none, some, Bool, not, ◌||◌, ◌&&◌, ltb,
  length, all_of, any_of, if◌then◌else◌, map, ◌≡◌, refl, arith,
}
use pyck_debug_worker.Prelude.Int.{ℤ}
use pyck_debug_worker.Report.{Result, Cycle, cycle_ok}
use pyck_debug_worker.Report.Run.{Run, new_run, add_all, failed}
use pyck_debug_worker.Report.History.{is_failing, add_all-failed}
use pyck_debug_worker.Target.{Target, addr}

-- `exitOK` and `exitFailure`.
abbrev pub exit_ok : ℕ
exit_ok = 0

abbrev pub exit_failure : ℕ
exit_failure = 1

-- `printOnce`: whether every stage of the print check passed.
abbrev pub print_once : List Result → Bool
print_once results = all_of (λ r. r.ok) results

-- `printFailed` behind the first cycle.
abbrev pub print_failed : Bool → List Result → Bool
print_failed printing results = printing && not (print_once results)

-- `loop`: the run that is summarised, and the exit code.
unfoldable pub loop : ℕ → List Target → Cycle → List Cycle → Bool → List Result → Run × ℕ
unfolding addr new_run add_all
loop started targets first more printing results =
    let run = add_all (first ∷ more) (new_run started (map addr targets)) in
    (run, if failed run || print_failed printing results then exit_failure else exit_ok)

-- `probeQueue`, and `persistProbes` as the state of its channel; `none` is a nil channel.
abbrev pub probe_queue : ℕ
probe_queue = 4

unfoldable pub persist_probes :
    List Result → Option (List (List Result)) → Option (List (List Result))
persist_probes results none = none
persist_probes results (some queue) =
    if ltb (length queue) probe_queue then some (queue ++ results ∷ []) else some queue

-- `cycle`: the record of one cycle over the labels of the targets.
unfoldable pub cycle : ℕ → ℕ → ℤ → List Text → List Result → Cycle
cycle n started duration labels results = record {
  n = n;
  at_time = started;
  duration = duration;
  targets = labels;
  results = results;
}

-- `probeTargets`: a slot for each target, filled as the probes are completed, in any order.
unfoldable pub set_slot : ℕ → List Result → List (List Result) → List (List Result)
set_slot i rs [] = []
set_slot zero rs (slot ∷ slots) = rs ∷ slots
set_slot (suc i) rs (slot ∷ slots) = slot ∷ set_slot i rs slots

abbrev pub results_at : (Target → List Result) → List Target → ℕ → List Result
results_at run [] i = []
results_at run (t ∷ ts) zero = run t
results_at run (t ∷ ts) (suc i) = results_at run ts i

unfoldable pub fill_slots :
    (Target → List Result) → List Target → List ℕ → List (List Result) → List (List Result)
unfolding set_slot
fill_slots run targets [] slots = slots
fill_slots run targets (i ∷ order) slots =
    fill_slots run targets order (set_slot i (results_at run targets i) slots)

abbrev pub concat : List (List Result) → List Result
concat [] = []
concat (rs ∷ slots) = rs ++ concat slots

unfoldable pub probe_targets : (Target → List Result) → List Target → List ℕ → List Result
unfolding fill_slots
probe_targets run targets order =
    concat (fill_slots run targets order (replicate (length targets) []))

not_failing : (cs : List Cycle) → any_of is_failing cs ≡ not (all_of cycle_ok cs)
not_failing [] = refl
not_failing (c ∷ cs) = ground (arith, not_failing cs)

-- The exit code is 0 exactly when every result of every cycle was ok and, where printing was asked for,
-- every stage of the print check was; otherwise it is 1. So a print that failed gives 1 after clean
-- cycles too, as the comment at the end of `loop` says; the comments on the two constants and the README
-- promise 0 there.
pub loop-exit :
    (started : ℕ) (targets : List Target) (first : Cycle) (more : List Cycle) (printing : Bool)
    (results : List Result)
    → (loop started targets first more printing results).1 ≡ (
        if all_of cycle_ok (first ∷ more) && (not printing || all_of (λ r. r.ok) results)
        then exit_ok
        else exit_failure)
unfolding loop
loop-exit started targets first more printing results =
    ground
      (arith, add_all-failed (first ∷ more) started (map addr targets), not_failing (first ∷ more))
