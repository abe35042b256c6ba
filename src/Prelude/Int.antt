-- ===== src/Prelude/Int.antt =====
-- Signed durations: the difference of two times.
use Prim.Native.Nat.{ℕ, ◌-◌}
use pyck_debug_worker.Prelude.Tests.{leb, if◌then◌else◌}

-- `negsuc n` is -(n + 1).
pub data ℤ : Type 0 where
  pos : ℕ → ℤ
  negsuc : ℕ → ℤ

-- `a.Sub(b)`, within the range of an int64.
unfoldable pub sub_ℕ : ℕ → ℕ → ℤ
sub_ℕ a b = if leb b a then pos (a - b) else negsuc (b - a - 1)

-- `if d < 0 { d = 0 }`.
unfoldable pub clamp : ℤ → ℕ
clamp (pos n) = n
clamp (negsuc n) = 0
