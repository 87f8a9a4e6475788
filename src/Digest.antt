-- ===== src/Digest.antt =====
-- The text form of digests, src/digest.rs.
pub mod RoundTrip
use Prim.Native.Nat.{bit_or}
use dockfoxprox.Base.{
  ℕ, ◌*◌, ◌%◌, ◌==◌, Option, none, some, [], ◌∷◌, ◌++◌, Bytes, bytes, length, strip_prefix,
  if◌then◌else◌,
}
use dockfoxprox.Base.Hex.{hex_fixed, to_digit}
use dockfoxprox.State.{Digest}

-- The loop of `from_str`: each pair of digits is a byte.
unfoldable pub parse_pairs : Bytes → Option Bytes
parse_pairs [] = some []
parse_pairs (c ∷ []) = none
parse_pairs (c ∷ d ∷ rest) = elim (to_digit c) [
  | none ↦ none
  | some hi ↦ elim (to_digit d) [
    | none ↦ none
    | some lo ↦ elim (parse_pairs rest) [
      | none ↦ none
      | some out ↦ some (bit_or (hi * 16 % 256) lo ∷ out)
    ]
  ]
]

-- `Digest::from_str`.
unfoldable pub parse : Bytes → Option Digest
unfolding parse_pairs strip_prefix
parse s = elim (strip_prefix (bytes "sha256:") s) [
  | none ↦ none
  | some hex ↦ if length hex == 64 then parse_pairs hex else none
]

-- `{:02x}` of each byte.
unfoldable pub display_bytes : Bytes → Bytes
unfolding hex_fixed
display_bytes [] = []
display_bytes (b ∷ bs) = hex_fixed 2 b ++ display_bytes bs

-- `Display` of a digest, and its `to_string`.
unfoldable pub display : Digest → Bytes
unfolding display_bytes
display d = bytes "sha256:" ++ display_bytes d
