-- ===== src/Base/Hex.antt =====
-- Hexadecimal digits: `{:x}` with a fixed width, and `char::to_digit(16)`.
use dockfoxprox.Base.Tests.{ltb, leb, if◌then◌else◌}
use Prim.Native.Nat.{ℕ, zero, suc, ◌+◌, ◌-◌, ◌*◌, ◌/◌, ◌%◌, ◌^◌, ◌<◌}
use mathlib.Core.Path.{◌≡◌, sym, ◌∙◌}
use mathlib.Core.Bool.{◌&&◌}
use mathlib.Core.Option.{Option, none, some}
use mathlib.Core.List.{[], ◌∷◌, ◌++◌}
use native.Mathlib.Omega.{arith}
use native.Mathlib.Nat.{pow-suc}
use dockfoxprox.Base.Text.{Bytes}

unfoldable pub hex_digit : ℕ → ℕ
hex_digit n = if ltb n 10 then n + 48 else n + 87

-- The lowest `k` digits, the highest first.
unfoldable pub hex_fixed : ℕ → ℕ → Bytes
hex_fixed zero n = []
hex_fixed (suc k) n = hex_fixed k (n / 16) ++ hex_digit (n % 16) ∷ []

-- The value of a byte that is a hexadecimal digit, in either case.
unfoldable pub to_digit : ℕ → Option ℕ
to_digit c =
    if leb 48 c && leb c 57
    then some (c - 48)
    else if leb 97 c && leb c 102
    then some (c - 87)
    else if leb 65 c && leb c 70
    then some (c - 55)
    else none

pub to_digit-hex_digit : (n : ℕ) → n < 16 → to_digit (hex_digit n) ≡ some n
unfolding to_digit hex_digit
to_digit-hex_digit n h = ground arith

pub to_digit-lt : (c : ℕ) {n : ℕ} → to_digit c ≡ some n → n < 16
unfolding to_digit
to_digit-lt c h = ground arith

-- `to_ascii_lowercase` of a byte.
unfoldable pub ascii_lower : ℕ → ℕ
ascii_lower c = if leb 65 c && leb c 90 then c + 32 else c

pub hex_digit-to_digit : (c : ℕ) {n : ℕ} → to_digit c ≡ some n → hex_digit n ≡ ascii_lower c
unfolding to_digit hex_digit ascii_lower
hex_digit-to_digit c h = ground arith

-- The number that digits stand for, on top of what stands before them.
unhex : Bytes → ℕ → ℕ
unhex [] acc = acc
unhex (c ∷ cs) acc = unhex cs (acc * 16 + (elim (to_digit c) [ some n ↦ n | none ↦ 0 ]))

unhex-append :
    (xs : Bytes) (acc n : ℕ) → n < 16 → unhex (xs ++ hex_digit n ∷ []) acc ≡ unhex xs acc * 16 + n
unfolding unhex
unhex-append [] acc n h = rw (to_digit-hex_digit n h)
unhex-append (x ∷ xs) acc n h = unhex-append xs _ n h

unhex-hex_fixed : (k n : ℕ) → n < 16 ^ k → unhex (hex_fixed k n) 0 ≡ n
unfolding hex_fixed unhex
unhex-hex_fixed zero n h = omega arith
unhex-hex_fixed (suc k) n h =
    unhex-append (hex_fixed k (n / 16)) 0 (n % 16) (omega arith)
    ∙ omega (arith, unhex-hex_fixed k (n / 16) (omega (arith, pow-suc 16 k)))

-- Numbers that fit in the width have different digits.
pub hex_fixed-injective :
    (k a b : ℕ) → a < 16 ^ k → b < 16 ^ k → hex_fixed k a ≡ hex_fixed k b → a ≡ b
hex_fixed-injective k a b ha hb e = sym (unhex-hex_fixed k a ha) ∙ (rw e (unhex-hex_fixed k b hb))
