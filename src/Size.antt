-- ===== src/Size.antt =====
-- Sizes as text, src/size.rs: `from_str` and `Display`. Floating-point numbers are a parameter, the
-- record Floats. A character is its bytes; no character but the ASCII letters has a unit's letter for its
-- upper case.
pub mod Characters
pub mod Reads
use dockfoxprox.Base.{
  ℕ, zero, suc, ◌*◌, Bool, ◌&&◌, ◌||◌, ◌==◌, leb, Option, none, some, List, [], ◌∷◌, ◌++◌, Bytes,
  bytes, bytes_eq, if◌then◌else◌,
}
use dockfoxprox.Redis.Text.{white_width, to_ascii_uppercase}
use dockfoxprox.Docker.Text.{trim}

-- f64: its reading, the product with a multiplier cast to u64, and what the printing uses.
pub record Floats : Type 1 where
  pub F : Type 0
  pub read : Bytes → Option F
  pub scaled : F → ℕ → ℕ
  pub of_u64 : ℕ → F
  pub at_least_1024 : F → Bool
  pub div_1024 : F → F
  pub two_decimals : F → Bytes

pub data ParseSizeError : Type 0 where
  invalid_number : ParseSizeError
  invalid_unit : Bytes → ParseSizeError

pub data Parsed : Type 0 where
  size : ℕ → Parsed
  wrong : ParseSizeError → Parsed

abbrev pub is_number : ℕ → Bool
is_number c = leb 48 c && leb c 57 || c == 46

-- The loop over the characters: those of the number, and those of the unit. `skip` bytes of a white-space
-- character are still to be passed over.
unfoldable pub sort_chars : ℕ → Bytes → Bytes × Bytes
unfolding white_width
sort_chars skip [] = ([], [])
sort_chars (suc skip) (c ∷ s) = sort_chars skip s
sort_chars zero (c ∷ s) = elim (white_width (c ∷ s)) [
  | zero ↦
      let (num, unit) = sort_chars 0 s in if is_number c then (c ∷ num, unit) else (num, c ∷ unit)
  | suc more ↦ sort_chars more s
]

unfoldable pub multiplier : Bytes → Option ℕ
multiplier unit =
    if bytes_eq unit (bytes "B")
    then some 1
    else if bytes_eq unit (bytes "KB")
    then some 1024
    else if bytes_eq unit (bytes "MB")
    then some (1024 * 1024)
    else if bytes_eq unit (bytes "GB")
    then some (1024 * 1024 * 1024)
    else if bytes_eq unit (bytes "TB")
    then some (1024 * 1024 * 1024 * 1024)
    else if bytes_eq unit []
    then some 1
    else none

module _ (floats : Floats) where
  unfoldable pub of_parts : Bytes × Bytes → Parsed
  unfolding multiplier
  of_parts (num_str, unit_str) = elim (floats.read num_str) [
    | none ↦ wrong invalid_number
    | some num ↦ elim (multiplier (to_ascii_uppercase unit_str)) [
      | none ↦ wrong (invalid_unit unit_str)
      | some m ↦ size (floats.scaled num m)
    ]
  ]

  -- `Size::from_str`.
  unfoldable pub from_str : Bytes → Parsed
  unfolding of_parts sort_chars
  from_str s = of_parts (sort_chars 0 (trim s))

  -- The loop over the units that are left, the last of which takes what there is.
  unfoldable pub in_units : floats.F → Bytes → List Bytes → Bytes
  in_units x unit [] = floats.two_decimals x ++ bytes " " ++ unit
  in_units x unit (next ∷ units) =
      let larger = in_units (floats.div_1024 x) next units in
      if floats.at_least_1024 x then larger else floats.two_decimals x ++ bytes " " ++ unit

  -- `Display` of a size.
  unfoldable pub display_size : ℕ → Bytes
  unfolding in_units
  display_size n =
      in_units (floats.of_u64 n) (bytes "B")
        (bytes "KB" ∷ bytes "MB" ∷ bytes "GB" ∷ bytes "TB" ∷ [])
