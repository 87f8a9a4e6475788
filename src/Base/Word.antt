-- ===== src/Base/Word.antt =====
-- 64-bit words as native numbers. A u64 is its value; an i64 is its two's-complement bit pattern,
-- so that the wrapping additions of both are one function.
use Prim.Native.Nat.{ℕ, ◌+◌, ◌-◌, ◌%◌, ◌^◌}
use mathlib.Core.Bool.{Bool}
use dockfoxprox.Base.Tests.{ltb}

abbrev pub add64 : ℕ → ℕ → ℕ
add64 a b = (a + b) % 2 ^ 64

abbrev pub sub64 : ℕ → ℕ → ℕ
sub64 a b = (a + (2 ^ 64 - b % 2 ^ 64)) % 2 ^ 64

-- `a > b` on i64 patterns: flipping the sign bit turns the signed order into the unsigned one.
abbrev pub signed_gt : ℕ → ℕ → Bool
signed_gt a b = ltb (add64 b (2 ^ 63)) (add64 a (2 ^ 63))
