-- ===== src/Netcheck/Idle.antt =====
-- One session of the idle connection (internal/netcheck/idle.go): its pings are given as whether each
-- was answered. Gaps are in seconds. The counters that a ping changes are those of Agg.
pub mod Session
pub mod Tests
use pyck_debug_worker.Prelude.{
  ℕ, zero, suc, ◌+◌, ◌-◌, List, [], ◌∷◌, Option, none, some, Bool, true, false, ◌==◌, max, min,
  length, get_or, ltb, if◌then◌else◌,
}
use pyck_debug_worker.Netcheck.Types.{Phase, transfer, idle}

-- `idleGaps`.
abbrev pub idle_gaps : List ℕ
idle_gaps = 30 ∷ 60 ∷ 120 ∷ 300 ∷ 600 ∷ 1800 ∷ []

-- `idleGaps[min(i, len(idleGaps)-1)]`.
unfoldable pub gap_after : ℕ → ℕ
gap_after i = get_or idle_gaps (min i (length idle_gaps - 1)) 0

-- How a session ends: the fields of its event, and the phase that a reset would have.
pub record Ended : Type 0 where
  pub gap : ℕ
  pub survived : ℕ
  pub phase : Phase

-- The loop of `idleSession` at its counter, with `gap` and `survived`; `none` is the end of the
-- context, which stands for the end of the list.
unfoldable pub session : List Bool → ℕ → ℕ → ℕ → Option Ended
unfolding gap_after
session [] i gap survived = none
session (false ∷ pings) i gap survived =
    some (record { gap = gap; survived = survived; phase = if gap == 0 then transfer else idle })
session (true ∷ pings) i gap survived =
    session pings (i + 1) (gap_after i) (if ltb 0 gap then max survived gap else survived)

-- `idleSession`.
unfoldable pub idle_session : List Bool → Option Ended
unfolding session
idle_session pings = session pings 0 0 0
