-- ===== src/Netcheck/Idle/Session.antt =====
-- What the end of an idle session says (internal/netcheck/idle.go).
use pyck_debug_worker.Prelude.{
  ℕ, zero, suc, ◌+◌, ◌-◌, ◌≤◌, ◌<◌, List, ◌∷◌, ◌++◌, some, Bool, true, false, max, min, length,
  get_or, ltb, replicate, if◌then◌else◌, ◌≡◌, refl, sym, ap, ◌∙◌, arith,
}
use pyck_debug_worker.Netcheck.Types.{Phase, transfer, idle}
use pyck_debug_worker.Netcheck.Idle.{idle_gaps, gap_after, Ended, session, idle_session}

-- The silence before a ping: none before the first, then the gaps in their order, the last for ever.
abbrev pub gap_before : ℕ → ℕ
gap_before zero = 0
gap_before (suc n) = gap_after n

gap_after_last : (n : ℕ) → gap_after (5 + n) ≡ 1800
unfolding gap_after
gap_after_last n = ap (λ i. get_or idle_gaps i 0) (min_last n)
  where
    min_last : (n : ℕ) → min (5 + n) (length idle_gaps - 1) ≡ 5
    min_last n = omega arith

gap_growing : (n : ℕ) → (gap_before n ≤ gap_before (suc n)) × (0 < gap_before (suc n))
unfolding gap_after
gap_growing zero = (omega arith, omega arith)
gap_growing (suc zero) = (omega arith, omega arith)
gap_growing (suc (suc zero)) = (omega arith, omega arith)
gap_growing (suc (suc (suc zero))) = (omega arith, omega arith)
gap_growing (suc (suc (suc (suc zero)))) = (omega arith, omega arith)
gap_growing (suc (suc (suc (suc (suc zero))))) = (omega arith, omega arith)
gap_growing (suc (suc (suc (suc (suc (suc n)))))) =
    last (5 + n) (5 + suc n) (gap_after_last n) (gap_after_last (suc n)) (omega arith) (omega arith)
  where
    last :
        (i j : ℕ)
        → gap_after i ≡ 1800
        → gap_after j ≡ 1800
        → i ≡ suc (suc (suc (suc (suc n))))
        → j ≡ suc (suc (suc (suc (suc (suc n)))))
        → (gap_after (suc (suc (suc (suc (suc n)))))
            ≤ gap_after (suc (suc (suc (suc (suc (suc n)))))))
          × (0 < gap_after (suc (suc (suc (suc (suc (suc n)))))))
    last i j a b p q =
        let c = ap gap_after (sym p) ∙ a in
        let d = ap gap_after (sym q) ∙ b in (omega (arith, c, d), omega (arith, d))

-- The longest gap survived once `n` pings were answered, the last of them behind `gap_before (n - 1)`.
abbrev pub survived_after : ℕ → ℕ
survived_after zero = 0
survived_after (suc n) = gap_before n

abbrev pub phase_of : ℕ → Phase
phase_of zero = transfer
phase_of (suc n) = idle

abbrev pub ended_at : ℕ → Ended
ended_at n = record { gap = gap_before n; survived = survived_after n; phase = phase_of n }

survived-step :
    (k : ℕ)
    → (if ltb 0 (gap_after k) then max (gap_before k) (gap_after k) else gap_before k) ≡ gap_after k
survived-step k = ground (arith, gap_growing k)

session-answered :
    (pings : List Bool) (i : ℕ)
    → session (true ∷ pings) i (gap_before i) (survived_after i)
      ≡ session pings (suc i) (gap_before (suc i)) (survived_after (suc i))
unfolding session
session-answered pings zero = refl
session-answered pings (suc k) =
    ap
      (λ j.
        session pings j (gap_after (suc k))
          (if ltb 0 (gap_after k) then max (gap_before k) (gap_after k) else gap_before k))
      (next (suc k))
    ∙ ap (session pings (suc (suc k)) (gap_after (suc k))) (survived-step k)
  where
    next : (n : ℕ) → n + 1 ≡ suc n
    next n = omega arith

session-failed :
    (rest : List Bool) (i : ℕ)
    → session (false ∷ rest) i (gap_before i) (survived_after i) ≡ some (ended_at i)
unfolding session
session-failed rest zero = refl
session-failed rest (suc k) = ground (arith, gap_growing k)

session-from :
    (n i : ℕ) (rest : List Bool)
    → session (replicate n true ++ false ∷ rest) i (gap_before i) (survived_after i)
      ≡ some (ended_at (n + i))
session-from zero i rest = session-failed rest i ∙ ap (λ k. some (ended_at k)) (plus_zero i)
  where
    plus_zero : (i : ℕ) → i ≡ 0 + i
    plus_zero i = omega arith
session-from (suc n) i rest =
    session-answered (replicate n true ++ false ∷ rest) i
    ∙ session-from n (suc i) rest
    ∙ ap (λ k. some (ended_at k)) (shift n i)
  where
    shift : (n i : ℕ) → n + suc i ≡ suc n + i
    shift n i = omega arith

-- A session whose first `n` pings are answered and whose next one is not ends with the gap in front of
-- that ping and, as the longest gap survived, the one in front of the last ping that was answered; the
-- connection counts as idle unless it was the first ping, right behind the handshake.
pub idle_session-end :
    (n : ℕ) (rest : List Bool) → idle_session (replicate n true ++ false ∷ rest) ≡ some (ended_at n)
unfolding idle_session
idle_session-end n rest = session-from n 0 rest ∙ ap (λ k. some (ended_at k)) (no_shift n)
  where
    no_shift : (n : ℕ) → n + 0 ≡ n
    no_shift n = omega arith
