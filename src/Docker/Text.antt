-- ===== src/Docker/Text.antt =====
-- What src/docker.rs uses of Rust's text functions, over bytes.
pub mod Laws
use dockfoxprox.Base.{
  ℕ, zero, suc, ◌-◌, Bool, true, false, not, ◌&&◌, ◌||◌, ◌==◌, Option, none, some, List, [], ◌∷◌,
  ◌++◌, map, Bytes, length, ltb, leb, drop, take, bytes_eq, if◌then◌else◌,
}
use dockfoxprox.Base.Hex.{ascii_lower}
use dockfoxprox.Redis.Text.{white_width}

-- `contains` of a character.
unfoldable pub contains : ℕ → Bytes → Bool
contains c [] = false
contains c (d ∷ s) = c == d || contains c s

-- `split_once` of a character.
unfoldable pub split_once : ℕ → Bytes → Option (Bytes × Bytes)
split_once c [] = none
split_once c (d ∷ s) = elim (split_once c s) [
  | none ↦ if c == d then some ([], s) else none
  | some (a, b) ↦ if c == d then some ([], s) else some (d ∷ a, b)
]

-- `rsplit_once` of a character.
unfoldable pub rsplit_once : ℕ → Bytes → Option (Bytes × Bytes)
rsplit_once c [] = none
rsplit_once c (d ∷ s) = elim (rsplit_once c s) [
  | none ↦ if c == d then some ([], s) else none
  | some (a, b) ↦ some (d ∷ a, b)
]

-- `split` of a character: the parts, of which there is always one.
unfoldable pub split : ℕ → Bytes → Bytes × List Bytes
split c [] = ([], [])
split c (d ∷ s) = let (p, ps) = split c s in if c == d then ([], p ∷ ps) else (d ∷ p, ps)

-- `strip_suffix`.
unfoldable pub strip_suffix : Bytes → Bytes → Option Bytes
strip_suffix end s =
    let n = length s - length end in
    if leb (length end) (length s) && bytes_eq (drop n s) end then some (take n s) else none

-- `trim_start`; `skip` bytes of a white-space character are still to be passed over.
unfoldable pub trim_start_from : ℕ → Bytes → Bytes
unfolding white_width
trim_start_from skip [] = []
trim_start_from (suc skip) (c ∷ s) = trim_start_from skip s
trim_start_from zero (c ∷ s) = elim (white_width (c ∷ s)) [
  | zero ↦ c ∷ s
  | suc more ↦ trim_start_from more s
]

unfoldable pub trim_start : Bytes → Bytes
unfolding trim_start_from
trim_start s = trim_start_from 0 s

unfoldable pub is_empty : Bytes → Bool
is_empty [] = true
is_empty (c ∷ s) = false

-- `trim_end`: a text ends where only white space follows.
unfoldable pub trim_end : Bytes → Bytes
unfolding trim_start is_empty
trim_end [] = []
trim_end (c ∷ s) = let rest = trim_end s in if is_empty (trim_start (c ∷ s)) then [] else c ∷ rest

-- `trim`.
unfoldable pub trim : Bytes → Bytes
unfolding trim_start trim_end
trim s = trim_end (trim_start s)

-- `to_ascii_lowercase` and `eq_ignore_ascii_case`.
unfoldable pub to_ascii_lowercase : Bytes → Bytes
unfolding ascii_lower
to_ascii_lowercase = map ascii_lower

unfoldable pub eq_ignore_case : Bytes → Bytes → Bool
unfolding to_ascii_lowercase
eq_ignore_case a b = bytes_eq (to_ascii_lowercase a) (to_ascii_lowercase b)

-- Whether a text stands in a list, in any case.
unfoldable pub any_ignore_case : Bytes → List Bytes → Bool
unfolding eq_ignore_case
any_ignore_case t [] = false
any_ignore_case t (e ∷ es) = eq_ignore_case e t || any_ignore_case t es

-- `join(", ")`.
unfoldable pub join : Bytes → List Bytes → Bytes
join sep [] = []
join sep (t ∷ []) = t
join sep (t ∷ u ∷ ts) = t ++ sep ++ join sep (u ∷ ts)
