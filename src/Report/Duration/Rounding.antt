-- ===== src/Report/Duration/Rounding.antt =====
-- How far a printed duration is from the measured one (`formatDuration`, internal/report/report.go).
use pyck_debug_worker.Prelude.{
  ℕ, ◌+◌, ◌*◌, ◌%◌, ◌≤◌, ◌<◌, ◌^◌, ltb, ◌⊎◌, inl, inr, Bool-cases, ◌≡◌, refl, arith,
}
use pyck_debug_worker.Prelude.Int.{ℤ, clamp}
use pyck_debug_worker.Prelude.Int
use pyck_debug_worker.Prelude.Text.{codes}
use pyck_debug_worker.Report.Duration.{
  round_to, unit_of, duration_string, drop_zero_units, format_duration,
}

-- The nearest whole number of a unit.
abbrev pub IsNearest : ℕ → ℕ → ℕ → Type 0
IsNearest unit d r = (r % unit ≡ 0) × (2 * r ≤ 2 * d + unit) × (2 * d ≤ 2 * r + unit)

-- To milliseconds below a second, to centiseconds below a minute, and to seconds from there on.
abbrev pub IsRounded : ℕ → ℕ → Type 0
IsRounded d r =
    ((d < 10 ^ 9) × IsNearest (10 ^ 6) d r)
    ⊎ ((10 ^ 9 ≤ d) × (d < 60 * 10 ^ 9) × IsNearest (10 ^ 7) d r)
    ⊎ ((60 * 10 ^ 9 ≤ d) × IsNearest (10 ^ 9) d r)

to_milliseconds : (d : ℕ) → IsNearest (10 ^ 6) d (round_to (10 ^ 6) d)
unfolding round_to
to_milliseconds d = ground arith

to_centiseconds : (d : ℕ) → IsNearest (10 ^ 7) d (round_to (10 ^ 7) d)
unfolding round_to
to_centiseconds d = ground arith

to_seconds : (d : ℕ) → IsNearest (10 ^ 9) d (round_to (10 ^ 9) d)
unfolding round_to
to_seconds d = ground arith

round_to-IsRounded : (d : ℕ) → IsRounded d (round_to (unit_of d) d)
unfolding unit_of
round_to-IsRounded d = elim (Bool-cases (ltb d (10 ^ 9))) [
  | inl short ↦ inl (ground arith, rw short (to_milliseconds d))
  | inr long ↦ elim (Bool-cases (ltb d (60 * 10 ^ 9))) [
    | inl minute ↦ inr (inl (ground arith, ground arith, rw (long, minute) (to_centiseconds d)))
    | inr longer ↦ inr (inr (ground arith, rw (long, longer) (to_seconds d)))
  ]
]

-- The text of a duration is that of a rounded one, a trailing zero unit dropped: below a second the
-- nearest whole number of milliseconds, below a minute that of centiseconds, and from there on that of
-- seconds; a negative duration counts as zero.
pub format_duration-IsRounded :
    (d : ℤ)
    → (r : ℕ) × (format_duration d ≡ drop_zero_units (duration_string r)) × IsRounded (clamp d) r
unfolding format_duration
format_duration-IsRounded d =
    (round_to (unit_of (clamp d)) (clamp d), refl, round_to-IsRounded (clamp d))

sample_durations :
    (format_duration (Int.pos 1310000000) ≡ codes "1.31s")
    × (format_duration (Int.pos 42400000) ≡ codes "42ms")
    × (format_duration (Int.pos 3600000000000) ≡ codes "1h")
    × (format_duration (Int.pos 5400000000000) ≡ codes "1h30m")
    × (format_duration (Int.pos 90000000000) ≡ codes "1m30s")
    × (format_duration (Int.negsuc 5) ≡ codes "0s")
unfolding format_duration
sample_durations = (refl, refl, refl, refl, refl, refl)
