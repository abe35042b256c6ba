-- ===== src/Netcheck/Idle/Tests.antt =====
-- An idle session that dies behind a silence of two minutes (internal/netcheck/idle.go).
use pyck_debug_worker.Prelude.{[], ◌∷◌, ◌++◌, some, true, false, replicate, ◌≡◌, refl}
use pyck_debug_worker.Netcheck.Types.{idle}
use pyck_debug_worker.Netcheck.Idle.{idle_session, session, gap_after}
use pyck_debug_worker.Netcheck.Idle.Session.{ended_at, idle_session-end}

idle_session-end_example : idle_session (replicate 3 true ++ false ∷ []) ≡ some (ended_at 3)
idle_session-end_example = idle_session-end 3 []

third_gap :
    idle_session (replicate 3 true ++ false ∷ [])
    ≡ some (record { gap = 120; survived = 60; phase = idle })
unfolding idle_session session gap_after
third_gap = refl
