-- ===== src/Report/Run.antt =====
-- `Run`: the totals over all cycles, without the rendered blocks (internal/report/report.go).
use pyck_debug_worker.Prelude.{
  ℕ, ◌+◌, List, [], ◌∷◌, Option, none, some, Bool, true, false, ◌==◌, if◌then◌else◌,
}
use pyck_debug_worker.Prelude.Text.{Text, text_discrete}
use pyck_debug_worker.Prelude.Assoc.{Assoc, lookup, insert}
use pyck_debug_worker.Report.{Cycle, cycle_ok}
use pyck_debug_worker.Report.Tally.{TargetStat, or_empty, tally}

-- `counter`.
pub record Counter : Type 0 where
  pub ok : ℕ
  pub total : ℕ

abbrev pub or_zero : Option Counter → Counter
or_zero none = record { ok = 0; total = 0 }
or_zero (some c) = c

pub record Run : Type 0 where
  pub started : ℕ
  pub targets : List Text
  pub cycles : ℕ
  pub clean : ℕ
  pub degraded : ℕ
  pub cumulative : Assoc Text Counter
  pub last_ok : Assoc Text Bool
  pub last_fail : Assoc Text ℕ
  pub failing_since : ℕ
  pub any_failed : Bool

unfoldable pub new_run : ℕ → List Text → Run
new_run started targets = record {
  started = started;
  targets = targets;
  cycles = 0;
  clean = 0;
  degraded = 0;
  cumulative = [];
  last_ok = [];
  last_fail = [];
  failing_since = 0;
  any_failed = false;
}

-- `Failed`.
abbrev pub failed : Run → Bool
failed r = r.any_failed

-- The part of `Add` above its loop: the cycle as a whole.
unfoldable pub count_cycle : Cycle → Run → Run
count_cycle c r =
    if cycle_ok c
    then record r { cycles = r.cycles + 1; clean = r.clean + 1; failing_since = 0 }
    else record r {
      cycles = r.cycles + 1;
      degraded = r.degraded + 1;
      any_failed = true;
      failing_since = if r.failing_since == 0 then c.at_time else r.failing_since;
    }

-- The loop's body: one target of the cycle. `target_ok` is `s.ok == s.total`.
unfoldable pub count_target : ℕ → Text → TargetStat → Run → Run
count_target at_time name s r =
    let cum = or_zero (lookup text_discrete name r.cumulative) in
    let target_ok = s.ok == s.total in
    record r {
      cumulative =
          insert text_discrete name (record { ok = cum.ok + s.ok; total = cum.total + s.total })
            r.cumulative;
      last_ok = insert text_discrete name target_ok r.last_ok;
      last_fail = if target_ok then r.last_fail else insert text_discrete name at_time r.last_fail;
    }

unfoldable pub count_targets : ℕ → List Text → Assoc Text TargetStat → Run → Run
count_targets at_time [] stats r = r
count_targets at_time (name ∷ names) stats r =
    count_targets at_time names stats
      (count_target at_time name (or_empty (lookup text_discrete name stats)) r)

-- `Add`, the state that it leaves.
unfoldable pub add : Cycle → Run → Run
add c r = let (order, stats) = tally c in count_targets c.at_time order stats (count_cycle c r)

-- A run of cycles.
unfoldable pub add_all : List Cycle → Run → Run
add_all [] r = r
add_all (c ∷ cs) r = add_all cs (add c r)
