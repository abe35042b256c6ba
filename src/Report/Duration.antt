-- ===== src/Report/Duration.antt =====
-- `formatDuration` (internal/report/report.go), with `Duration.Round` and `Duration.String` of the
-- standard library, for durations below the range of an int64.
pub mod Rounding
use mathlib.Core.List.{reverse}
use pyck_debug_worker.Prelude.{
  ℕ, zero, suc, ◌+◌, ◌-◌, ◌*◌, ◌/◌, ◌%◌, ◌^◌, List, [], ◌∷◌, ◌++◌, Option, none, some, Bool, true,
  false, ◌||◌, ltb, leb, ◌==◌, if◌then◌else◌, ◌≡◌, refl,
}
use pyck_debug_worker.Prelude.Int.{ℤ, clamp}
use pyck_debug_worker.Prelude.Int
use pyck_debug_worker.Prelude.Text.{Text, codes, print, cut_suffix, trim_right}

abbrev pub millisecond : ℕ
millisecond = 10 ^ 6

abbrev pub second : ℕ
second = 10 ^ 9

abbrev pub minute : ℕ
minute = 60 * 10 ^ 9

-- `Duration.Round`: halves round up.
unfoldable pub round_to : ℕ → ℕ → ℕ
round_to m d = let r = d % m in if ltb (r + r) m then d - r else d + m - r

-- The unit that the switch chooses: milliseconds, centiseconds or seconds.
unfoldable pub unit_of : ℕ → ℕ
unit_of d = if ltb d second then millisecond else if ltb d minute then 10 * millisecond else second

-- A number in `width` decimal digits.
fixed : ℕ → ℕ → Text
fixed zero n = []
fixed (suc width) n = fixed width (n / 10) ++ (b'0' + n % 10) ∷ []

point : Text → Text
point [] = []
point (c ∷ s) = b'.' ∷ c ∷ s

-- `fmtFrac`: the last `prec` digits as a fraction, without trailing zeros.
fraction : ℕ → ℕ → Text
unfolding fixed point trim_right
fraction prec n = point (trim_right b'0' (fixed prec n))

seconds_text : ℕ → Text
unfolding fraction print
seconds_text d =
    let s = d / second in
    let m = s / 60 in
    let sec = print (s % 60) ++ (fraction 9 d ++ codes "s") in
    if m == 0
    then sec
    else if m / 60 == 0
    then print m ++ (codes "m" ++ sec)
    else print (m / 60) ++ (codes "h" ++ (print (m % 60) ++ (codes "m" ++ sec)))

-- `Duration.String` of a duration that is not negative; the bytes of "µ" are 0xc2 and 0xb5.
unfoldable pub duration_string : ℕ → Text
unfolding seconds_text
duration_string d =
    if d == 0
    then codes "0s"
    else if ltb d 1000
    then print d ++ codes "ns"
    else if ltb d millisecond
    then print (d / 1000) ++ (fraction 3 d ++ 0xc2 ∷ 0xb5 ∷ codes "s")
    else if ltb d second
    then print (d / millisecond) ++ (fraction 6 d ++ codes "ms")
    else seconds_text d

-- `if HasSuffix(s, …) { s = TrimSuffix(s, …) }`, for a suffix that ends in the dropped unit.
drop_unit : Text → Text → Text → Text
unfolding cut_suffix
drop_unit whole kept s = elim (cut_suffix whole s) [ none ↦ s | some rest ↦ rest ++ kept ]

-- "m0s" or "h0s" loses its "0s", then "h0m" its "0m".
unfoldable pub drop_zero_units : Text → Text
unfolding drop_unit
drop_zero_units s =
    drop_unit (codes "h0m") (codes "h")
      (drop_unit (codes "h0s") (codes "h") (drop_unit (codes "m0s") (codes "m") s))

unfoldable pub format_duration : ℤ → Text
unfolding clamp round_to unit_of duration_string drop_zero_units
format_duration d = let n = clamp d in drop_zero_units (duration_string (round_to (unit_of n) n))
