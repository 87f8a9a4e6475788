-- ===== src/Base/Text.antt =====
-- Texts and byte strings as lists of byte values, and decisions of equality on them.
use Prim.Native.Nat.{ℕ}
use Prim.Native.Char.{code}
use Prim.Native.String.{String}
use mathlib.Core.Path.{◌≡◌, refl}
use mathlib.Core.Bool.{Bool, true}
use mathlib.Core.Option.{Option, none, some}
use mathlib.Core.List.{List, [], ◌∷◌, ◌++◌}
use native.Mathlib.Omega.{arith}
use native.Mathlib.Decide.{ℕ_discrete}
use dockfoxprox.Base.Tests.{test}
use dockfoxprox.Base.Map.{Key}

abbrev pub Bytes : Type 0
Bytes = List ℕ

-- The bytes of an ASCII text.
abbrev pub bytes : String → Bytes
bytes String.[] = []
bytes (String.◌∷◌ c s) = code c ∷ bytes s

unfoldable pub Bytes-discrete : Discrete Bytes
unfolding ℕ_discrete
Bytes-discrete = hlevel ℕ_discrete

unfoldable pub pair-discrete : Discrete (Bytes × Bytes)
unfolding Bytes-discrete
pair-discrete = hlevel Bytes-discrete

instance abbrev pub nat_key : Key ℕ
nat_key = record { dec = ℕ_discrete }

instance abbrev pub bytes_key : Key Bytes
bytes_key = record { dec = Bytes-discrete }

instance abbrev pub pair_key : Key (Bytes × Bytes)
pair_key = record { dec = pair-discrete }

-- `a == b` on texts and byte strings.
unfoldable pub bytes_eq : Bytes → Bytes → Bool
unfolding Bytes-discrete
bytes_eq a b = test (Bytes-discrete a b)

abc : bytes_eq (bytes "abc") (bytes "abc") ≡ true
unfolding bytes_eq
abc = refl

pub bytes_eq_refl : (a : Bytes) → bytes_eq a a ≡ true
unfolding bytes_eq
bytes_eq_refl a = ground arith

pub eq_of_bytes_eq : (a b : Bytes) → bytes_eq a b ≡ true → a ≡ b
unfolding bytes_eq
eq_of_bytes_eq a b h = ground arith

-- `str::strip_prefix`.
unfoldable pub strip_prefix : Bytes → Bytes → Option Bytes
strip_prefix [] s = some s
strip_prefix (p ∷ ps) [] = none
strip_prefix (p ∷ ps) (c ∷ s) = elim (ℕ_discrete p c) [ yes _ ↦ strip_prefix ps s | no _ ↦ none ]

-- What is left behind a prefix.
pub strip_prefix-append :
    (p s : Bytes) {rest : Bytes} → strip_prefix p s ≡ some rest → s ≡ p ++ rest
unfolding strip_prefix
strip_prefix-append [] s h = ground arith
strip_prefix-append (c ∷ p) [] h = cc
strip_prefix-append (c ∷ p) (x ∷ s) {rest} h = ground (arith, strip_prefix-append p s {rest = rest})
