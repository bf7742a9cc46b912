-- ===== src/Common/Int64.antt =====
-- Go's int64, as its bit pattern: a number below 2 ^ 64, whose arithmetic wraps.
use Prim.Native.Nat.{ℕ, ◌+◌, ◌-◌, ◌%◌, ◌^◌}
use mathlib.Core.Bool.{Bool, ◌||◌}
use microservices_course.Common.Tests.{leb, ltb, if◌then◌else◌}

abbrev pub Int64 : Type 0
Int64 = ℕ

-- `negsuc n` is -(n + 1).
pub data ℤ : Type 0 where
  pos : ℕ → ℤ
  negsuc : ℕ → ℤ

-- The integer that a bit pattern stands for.
abbrev pub signed : Int64 → ℤ
signed w = if ltb w (2 ^ 63) then pos w else negsuc (2 ^ 64 - w - 1)

-- `a + b`
unfoldable pub add : Int64 → Int64 → Int64
add a b = (a + b) % 2 ^ 64

-- `a <= 0`
unfoldable pub le_zero : Int64 → Bool
le_zero a = leb a 0 || leb (2 ^ 63) a
