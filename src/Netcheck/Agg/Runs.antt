-- ===== src/Netcheck/Agg/Runs.antt =====
-- Any interleaving of the methods of `agg` (internal/netcheck/agg.go) as a list of calls: the loops
-- of all targets share one `agg`, and its mutex makes each critical section one step.
use pyck_debug_worker.Prelude.{ℕ, ◌+◌, List, [], ◌∷◌, ◌++◌, Option, none, some, ite, if◌then◌else◌}
use pyck_debug_worker.Prelude.Text.{Text}
use pyck_debug_worker.Netcheck.Types.{
  Mode, short, compare, mode_discrete, Class, Phase, Variant, Target,
}
use pyck_debug_worker.Netcheck.Agg.{
  Agg, key_discrete, register_modes, unregister, fail, sni, reset, short_done, connect_done, ping,
  lost_ping, drop, server_closed, idle_died, tcp_info, idle_survived, note_interception,
  remember_fp,
}
use pyck_debug_worker.Netcheck.Agg.Buckets.{Interception, IdleDeath, is_attempt}
use pyck_debug_worker.Netcheck.Agg.Flush.{Aggregate, flush, ◌>>=◌}
use pyck_debug_worker.Prelude.Distinct.{Distinct}
use pyck_debug_worker.Netcheck.Agg.Invariant.{has}

pub data Call : Type 0 where
  registers : Target → List Mode → Call
  unregisters : Target → Call
  fails : Target → Mode → Class → Call
  snis : Target → Variant → Option Class → Call
  resets : Target → Mode → Phase → Call
  shorts : Target → ℕ → ℕ → ℕ → Call
  connects : Target → ℕ → ℕ → Call
  pings : Target → Mode → ℕ → Call
  loses : Target → Mode → Call
  drops : Target → Mode → Call
  closes : Target → Mode → Call
  dies : Target → IdleDeath → Call
  tcps : Target → ℕ → ℕ → ℕ → Call
  survives : Target → ℕ → Call
  intercepts : Target → Mode → Interception → Call
  remembers : Target → Text → Call
  flushes : ℕ → Call

-- A call: the records that it returns, and the state after it. `none` is a panic.
unfoldable pub call : Call → Agg → Option (List Aggregate × Agg)
call (registers t modes) a = some ([], register_modes t modes a)
call (unregisters t) a = some ([], unregister t a)
call (fails t m c) a = some ([], fail t m c a)
call (snis t v c) a = some ([], sni t v c a)
call (resets t m p) a = some ([], reset t m p a)
call (shorts t c h s) a = some ([], short_done t c h s a)
call (connects t c s) a = some ([], connect_done t c s a)
call (pings t m r) a = some ([], ping t m r a)
call (loses t m) a = some ([], lost_ping t m a)
call (drops t m) a = some ([], drop t m a)
call (closes t m) a = some ([], server_closed t m a)
call (dies t d) a = some ([], idle_died t d a)
call (tcps t r v n) a = some ([], tcp_info t r v n a)
call (survives t gap) a = some ([], idle_survived t gap a)
call (intercepts t m i) a = some ([], note_interception t m i a)
call (remembers t fp) a = some ([], (remember_fp t fp a).0)
call (flushes minute) a = flush minute a

unfoldable pub run : List Call → Agg → Option (List Aggregate × Agg)
run [] a = some ([], a)
run (c ∷ cs) a = do (recs, a') ← call c a; (more, a'') ← run cs a'; some (recs ++ more, a'')

-- Registered modes are distinct, as `targetModes` and the comparison's single mode are.
abbrev pub IsProper : Call → Type 0
IsProper (registers t modes) = Distinct mode_discrete modes
IsProper _ = Unit {0}

-- What a call adds to the samples of a target and mode, if their bucket is there.
abbrev pub gain : Target → Mode → Call → ℕ
gain t mode (fails s m c) = ite (key_discrete (s, m) (t, mode)) (if is_attempt m then 1 else 0) 0
gain t mode (shorts s c h n) = ite (key_discrete (s, short) (t, mode)) 1 0
gain t mode (connects s c n) = ite (key_discrete (s, compare) (t, mode)) 1 0
gain t mode (pings s m r) = ite (key_discrete (s, m) (t, mode)) 1 0
gain t mode (loses s m) = ite (key_discrete (s, m) (t, mode)) 1 0
gain t mode _ = 0

abbrev pub credit : Target → Mode → Agg → Call → ℕ
credit t mode a c = if has (t, mode) a.buckets then gain t mode c else 0

-- The credits of a run, each in the state in which its call was made.
unfoldable pub credits : Target → Mode → List Call → Agg → ℕ
credits t mode [] a = 0
credits t mode (c ∷ cs) a =
    credit t mode a c + elim (call c a) [ none ↦ 0 | some (recs, a') ↦ credits t mode cs a' ]
