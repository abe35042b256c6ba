-- ===== src/Report.antt =====
-- Package internal/report: the result model, the running totals and the fixed-width rendering
-- (internal/report/report.go). A time is its nanoseconds since Go's zero time, so `IsZero` is a test
-- against 0; a duration is a signed number of nanoseconds.
pub mod Tally
pub mod Run
pub mod Duration
pub mod Totals
pub mod Render
pub mod Order
pub mod Added
pub mod History
pub mod Tests
use pyck_debug_worker.Prelude.{ℕ, List, Bool, all_of}
use pyck_debug_worker.Prelude.Int.{ℤ}
use pyck_debug_worker.Prelude.Text.{Text}

-- `Result`.
pub record Result : Type 0 where
  pub ts : ℕ
  pub target : Text
  pub stage : Text
  pub ok : Bool
  pub duration : ℤ
  pub detail : Text

-- `Cycle`.
pub record Cycle : Type 0 where
  pub n : ℕ
  pub at_time : ℕ
  pub duration : ℤ
  pub targets : List Text
  pub results : List Result

-- `Cycle.OK`.
abbrev pub cycle_ok : Cycle → Bool
cycle_ok c = all_of (λ r. r.ok) c.results
