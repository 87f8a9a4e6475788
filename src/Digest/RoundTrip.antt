-- ===== src/Digest/RoundTrip.antt =====
-- Parsing against printing, src/digest.rs.
use Prim.Native.Nat.{bit_or}
use dockfoxprox.Base.{
  ℕ, zero, suc, ◌+◌, ◌*◌, ◌/◌, ◌%◌, ◌<◌, ◌≡◌, refl, Bool, true, false, if◌then◌else◌, ◌==◌, ==_iff,
  arith, some, [], ◌∷◌, map, Bytes, bytes, length, strip_prefix, All, Option-cases, inl, inr,
  subst_some, Bool-cases, ℕ_discrete,
}
use dockfoxprox.Base.Text.{strip_prefix-append}
use dockfoxprox.Base.Hex.{
  to_digit, ascii_lower, to_digit-hex_digit, hex_digit-to_digit, to_digit-lt,
}
use dockfoxprox.State.{Digest}
use dockfoxprox.Digest.{parse_pairs, parse, display_bytes, display}

abbrev pub IsByte : ℕ → Type 0
IsByte b = b < 256

-- 32 bytes.
abbrev pub IsDigest : Digest → Type 0
IsDigest d = (length d ≡ 32) × All IsByte d

-- Joining two digits, tried at every byte under a bound.
joins_to : ℕ → Bool
joins_to byte = bit_or (byte / 16 * 16 % 256) (byte % 16) == byte

joins_under : ℕ → Bool
unfolding joins_to
joins_under zero = true
joins_under (suc top) = if joins_to top then joins_under top else false

joins-tried : (top byte : ℕ) → byte < top → joins_under top ≡ true → joins_to byte ≡ true
unfolding joins_under
joins-tried zero byte small tried = absurd (omega arith)
joins-tried (suc top) byte small tried = ground (arith, joins-tried top byte)

joins_bytes : joins_under 256 ≡ true
unfolding joins_under
joins_bytes = refl

join_nibbles : (hi lo : ℕ) → hi < 16 → lo < 16 → bit_or (hi * 16 % 256) lo ≡ hi * 16 + lo
unfolding joins_to
join_nibbles hi lo p q =
    let byte : ℕ = hi * 16 + lo in
    let upper : byte / 16 ≡ hi = omega arith in
    let lower : byte % 16 ≡ lo = omega arith in
    let same = (==_iff _ byte).0 (joins-tried 256 byte (omega arith) joins_bytes) in
    rw (upper, lower) at same

length-display_bytes : (d : Bytes) → length (display_bytes d) ≡ length d * 2
unfolding display_bytes
length-display_bytes [] = refl
length-display_bytes (b ∷ bs) = omega (arith, length-display_bytes bs)

parse_pairs-display_bytes : (d : Bytes) → All IsByte d → parse_pairs (display_bytes d) ≡ some d
unfolding parse_pairs display_bytes
parse_pairs-display_bytes [] h = refl
parse_pairs-display_bytes (b ∷ bs) h = ground (
  arith,
  to_digit-hex_digit (b / 16 % 16) (omega arith),
  to_digit-hex_digit (b % 16) (omega arith),
  parse_pairs-display_bytes bs h.1,
  join_nibbles (b / 16 % 16) (b % 16) (omega arith) (omega arith),
)

-- The printed form of 32 numbers below 256 reads back as the same bytes.
pub parse-display : (d : Digest) → IsDigest d → parse (display d) ≡ some d
unfolding parse display ℕ_discrete
parse-display d h = ground (arith, h.0, length-display_bytes d, parse_pairs-display_bytes d h.1)

-- The digits that bytes print as are those that were read, in lower case.
abbrev IsRead : Bytes → Bytes → Type 0
IsRead s d = (display_bytes d ≡ map ascii_lower s) × All IsByte d × (length s ≡ length d * 2)

display_digits :
    (hi lo c e : ℕ) (out rest : Bytes)
    → to_digit c ≡ some hi
    → to_digit e ≡ some lo
    → IsRead rest out
    → IsRead (c ∷ e ∷ rest) ((hi * 16 + lo) ∷ out)
unfolding display_bytes
display_digits hi lo c e out rest p q (same, small, long) =
    let hi_small = to_digit-lt c p in
    let lo_small = to_digit-lt e q in
    let high : (hi * 16 + lo) / 16 % 16 ≡ hi = omega arith in
    let low : (hi * 16 + lo) % 16 ≡ lo = omega arith in
    (
      rw (high, low, hex_digit-to_digit c p, hex_digit-to_digit e q, same),
      (omega arith, small),
      omega arith,
    )

parse_pairs-IsRead : (s : Bytes) {d : Bytes} → parse_pairs s ≡ some d → IsRead s d
unfolding parse_pairs display_bytes
parse_pairs-IsRead [] h = subst_some (IsRead []) h (refl, tt, refl)
parse_pairs-IsRead (c ∷ []) h = cc
parse_pairs-IsRead (c ∷ e ∷ rest) {d} h = elim (Option-cases (to_digit c)) [
  | inl p ↦ absurd (ground arith)
  | inr (hi, p) ↦ elim (Option-cases (to_digit e)) [
    | inl q ↦ absurd (ground arith)
    | inr (lo, q) ↦ elim (Option-cases (parse_pairs rest)) [
      | inl r ↦ absurd (ground arith)
      | inr (out, r) ↦
          subst_some (IsRead (c ∷ e ∷ rest)) {a = (hi * 16 + lo) ∷ out}
            (ground (arith, join_nibbles hi lo (to_digit-lt c p) (to_digit-lt e q)))
            (display_digits hi lo c e out rest p q (parse_pairs-IsRead rest r))
    ]
  ]
]

-- A text is read as a digest only if the digest has 32 bytes and prints as that text in lower case.
pub display-parse :
    (s : Bytes) {d : Digest} → parse s ≡ some d → IsDigest d × (display d ≡ map ascii_lower s)
unfolding parse display ascii_lower
display-parse s {d} h = elim (Option-cases (strip_prefix (bytes "sha256:") s)) [
  | inl p ↦ absurd (ground arith)
  | inr (hex, p) ↦ elim (Bool-cases (length hex == 64)) [
    | inl q ↦
        let (same, small, long) = parse_pairs-IsRead hex {d = d} (ground arith) in
        let n = (==_iff _ _).0 q in
        ((omega arith, small), rw (strip_prefix-append (bytes "sha256:") s p, same) refl)
    | inr q ↦ absurd (ground arith)
  ]
]
