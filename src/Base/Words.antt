-- ===== src/Base/Words.antt =====
-- Go's `int64` (and `int`, on a 64-bit machine) as bit patterns below 2 ^ 64, with wrap-around.
use Prim.Native.Nat.{ℕ, ◌+◌, ◌-◌, ◌%◌, ◌^◌}
use mathlib.Core.Bool.{Bool}
use adaptive_caching.Base.Tests.{ltb}

abbrev pub Int64 : Type 0
Int64 = ℕ

abbrev pub two63 : ℕ
two63 = 2 ^ 63

abbrev pub two64 : ℕ
two64 = 2 ^ 64

-- `a + b`
abbrev pub add64 : Int64 → Int64 → Int64
add64 a b = (a + b) % two64

-- `a - b`
abbrev pub sub64 : Int64 → Int64 → Int64
sub64 a b = (a + (two64 - b % two64)) % two64

-- `a < b`, on signed integers: the sign bit is turned round and the patterns compared.
abbrev pub lt64 : Int64 → Int64 → Bool
lt64 a b = ltb ((a + two63) % two64) ((b + two63) % two64)
