-- ===== src/Docker/Challenge.antt =====
-- The `WWW-Authenticate` header of an upstream registry: `parse_bearer_challenge` and
-- `iter_challenge_params` of src/docker.rs. An index into the text is the rest of the text behind it.
pub mod RoundTrip
use dockfoxprox.Base.{
  ℕ, zero, suc, Bool, true, false, ◌||◌, ◌==◌, Option, none, some, List, [], ◌∷◌, Bytes, bytes,
  bytes_eq, length, strip_prefix, if◌then◌else◌,
}
use dockfoxprox.Docker.Text.{trim, trim_start, to_ascii_lowercase}

pub record BearerChallenge : Type 0 where
  pub realm : Bytes
  pub service : Option Bytes
  pub scope : Option Bytes

unfoldable pub skip_separators : Bytes → Bytes
skip_separators [] = []
skip_separators (c ∷ s) =
    let rest = skip_separators s in if c == 32 || c == 9 || c == 44 then rest else c ∷ s

-- The bytes up to the first that satisfies a test, and those from it on.
unfoldable pub break_at : (ℕ → Bool) → Bytes → Bytes × Bytes
break_at p [] = ([], [])
break_at p (c ∷ s) = let (a, b) = break_at p s in if p c then ([], c ∷ s) else (c ∷ a, b)

-- A quoted value, from behind its opening quote: up to the closing quote, or to the end. A backslash
-- takes the byte behind it along, and both stay in the value.
unfoldable pub quoted : Bytes → Bytes × Bytes
quoted [] = ([], [])
quoted (c ∷ []) = if c == 34 then ([], c ∷ []) else (c ∷ [], [])
quoted (c ∷ d ∷ s) =
    let (a, b) = quoted s in
    let (e, f) = quoted (d ∷ s) in
    if c == 34 then ([], c ∷ d ∷ s) else if c == 92 then (c ∷ d ∷ a, b) else (c ∷ e, f)

unfoldable pub skip_one : Bytes → Bytes
skip_one [] = []
skip_one (c ∷ s) = s

abbrev pub is_comma : ℕ → Bool
is_comma c = c == 44

abbrev pub ends_key : ℕ → Bool
ends_key c = c == 61 || c == 44

unfoldable pub bare_value : Bytes → Bytes × Bytes
unfolding break_at
bare_value s = let (a, b) = break_at is_comma s in (trim a, b)

unfoldable pub quoted_value : Bytes → Bytes × Bytes
unfolding quoted skip_one
quoted_value s = let (a, b) = quoted s in (a, skip_one b)

-- A value, and what stands behind it.
unfoldable pub value_of : Bytes → Bytes × Bytes
unfolding bare_value quoted_value
value_of [] = bare_value []
value_of (c ∷ s) = if c == 34 then quoted_value s else bare_value (c ∷ s)

-- A round of the loop, from the key and what stands behind it; `next` is the rest of the loop.
unfoldable pub param : (Bytes → List (Bytes × Bytes)) → Bytes × Bytes → List (Bytes × Bytes)
unfolding value_of
param next (key, []) = []
param next (key, c ∷ s) =
    let (value, rest) = value_of s in
    let more = next rest in if c == 61 then (to_ascii_lowercase (trim key), value) ∷ more else []

-- The loop. Each round that goes on passes over an equals sign.
unfoldable pub params : ℕ → Bytes → List (Bytes × Bytes)
unfolding param skip_separators break_at
params zero s = []
params (suc fuel) [] = []
params (suc fuel) (c ∷ s) = param (params fuel) (break_at ends_key (skip_separators (c ∷ s)))

-- `iter_challenge_params`.
unfoldable pub iter_challenge_params : Bytes → List (Bytes × Bytes)
unfolding params
iter_challenge_params s = params (length s) s

-- The fields as the loop of `parse_bearer_challenge` fills them in.
pub record Found : Type 0 where
  pub realm : Option Bytes
  pub service : Option Bytes
  pub scope : Option Bytes

unfoldable pub set_field : Bytes → Bytes → Found → Found
set_field k v found =
    if bytes_eq k (bytes "realm")
    then record found { realm = some v }
    else if bytes_eq k (bytes "service")
    then record found { service = some v }
    else if bytes_eq k (bytes "scope")
    then record found { scope = some v }
    else found

unfoldable pub set_fields : List (Bytes × Bytes) → Found → Found
unfolding set_field
set_fields [] found = found
set_fields ((k, v) ∷ ps) found = set_fields ps (set_field k v found)

unfoldable pub challenge_of : Found → Option BearerChallenge
challenge_of found = elim found.realm [
  | none ↦ none
  | some realm ↦ some (record { realm = realm; service = found.service; scope = found.scope })
]

-- What stands behind the name of the scheme.
unfoldable pub after_scheme : Bytes → Option Bytes
after_scheme s = elim (strip_prefix (bytes "Bearer") s) [
  | some rest ↦ some rest
  | none ↦ strip_prefix (bytes "bearer") s
]

unfoldable pub parse_trimmed : Bytes → Option BearerChallenge
unfolding after_scheme iter_challenge_params set_fields challenge_of
parse_trimmed s = elim (after_scheme s) [
  | none ↦ none
  | some rest ↦ challenge_of (
      set_fields (iter_challenge_params (trim_start rest))
        (record { realm = none; service = none; scope = none }))
]

-- `parse_bearer_challenge`.
unfoldable pub parse_bearer_challenge : Bytes → Option BearerChallenge
unfolding parse_trimmed
parse_bearer_challenge header = parse_trimmed (trim header)
