-- ===== src/Base/Integers.antt =====
-- Counters that can go below zero.
use Prim.Native.Nat.{ℕ, zero, suc}
use mathlib.Core.Bool.{Bool, true, false}
use adaptive_caching.Base.Tests.{ltb, ◌==◌}

pub data ℤ : Type 0 where
  pos negsuc : ℕ → ℤ

-- `i++`
abbrev pub increment : ℤ → ℤ
increment (pos n) = pos (suc n)
increment (negsuc zero) = pos 0
increment (negsuc (suc n)) = negsuc n

-- `i--`
abbrev pub decrement : ℤ → ℤ
decrement (pos zero) = negsuc 0
decrement (pos (suc n)) = pos n
decrement (negsuc n) = negsuc (suc n)

-- `i < n`
abbrev pub is_below : ℤ → ℕ → Bool
is_below (pos a) n = ltb a n
is_below (negsuc a) n = true

-- `i == 0`
abbrev pub is_zero : ℤ → Bool
is_zero (pos a) = a == 0
is_zero (negsuc a) = false
