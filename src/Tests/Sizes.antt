-- ===== src/Tests/Sizes.antt =====
-- Sizes, src/size.rs, with whole numbers for the floating-point ones.
use dockfoxprox.Base.{
  ℕ, ◌*◌, ◌/◌, ◌≡◌, refl, ◌↔◌, arith, leb, Option, none, [], ◌∷◌, ◌++◌, Bytes, bytes, bytes_eq,
}
use dockfoxprox.Redis.Text.{parse_digits, decimal, to_ascii_uppercase}
use dockfoxprox.Docker.Text.{trim}
use dockfoxprox.Size.{Floats, size, wrong, invalid_number, invalid_unit, from_str, display_size}
use dockfoxprox.Size.Characters.{IsAscii}
use dockfoxprox.Size.Reads.{Means, from_str_iff}

unfoldable read_digits : Bytes → Option ℕ
unfolding parse_digits
read_digits [] = none
read_digits (c ∷ s) = parse_digits 0 (c ∷ s)

abbrev whole : Floats
whole = record {
  F = ℕ;
  read = read_digits;
  scaled = λ x m. x * m;
  of_u64 = λ n. n;
  at_least_1024 = λ x. leb 1024 x;
  div_1024 = λ x. x / 1024;
  two_decimals = λ x. decimal x ++ bytes ".00";
}

usual : from_str whole (bytes " 16 gb ") ≡ size 17179869184
unfolding from_str read_digits parse_digits trim bytes_eq to_ascii_uppercase
usual = refl

scattered : from_str whole (bytes "1K6B") ≡ size 16384
unfolding from_str read_digits parse_digits trim bytes_eq to_ascii_uppercase
scattered = refl

no_unit : from_str whole (bytes "5 XB") ≡ wrong (invalid_unit (bytes "XB"))
unfolding from_str read_digits parse_digits trim bytes_eq to_ascii_uppercase
no_unit = refl

no_digits : from_str whole (bytes "KB") ≡ wrong invalid_number
unfolding from_str read_digits parse_digits trim
no_digits = refl

displayed : display_size whole 3145728 ≡ bytes "3.00 MB"
unfolding display_size decimal
displayed = refl

abbrev text : Bytes
text = bytes " 16 gb "

text-IsAscii : IsAscii text
text-IsAscii = (
  omega arith,
  (omega arith, (omega arith, (omega arith, (omega arith, (omega arith, (omega arith, tt)))))),
)

from_str_example : (from_str whole text ≡ size 17179869184) ↔ Means whole text 17179869184
from_str_example = from_str_iff whole text text-IsAscii 17179869184
