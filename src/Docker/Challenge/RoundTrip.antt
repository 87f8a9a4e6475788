-- ===== src/Docker/Challenge/RoundTrip.antt =====
-- The challenges that `parse_bearer_challenge` of src/docker.rs reads.
use dockfoxprox.Base.{
  ℕ, zero, suc, ℕ_discrete, ◌≡◌, ◌≢◌, refl, ap, ◌∙◌, arith, false, ◌==◌, Option, none, some, [],
  ◌∷◌, ◌++◌, Bytes, bytes, All, strip_prefix, bytes_eq,
}
use dockfoxprox.Base.Hex.{ascii_lower}
use dockfoxprox.Redis.Text.{white_width}
use dockfoxprox.Docker.Text.{
  trim, trim_start, trim_start_from, trim_end, is_empty, to_ascii_lowercase,
}
use dockfoxprox.Docker.Text.Laws.{EndsQuoted, append-EndsQuoted, trim_end-quoted}
use dockfoxprox.Docker.Challenge.{
  BearerChallenge, skip_separators, break_at, quoted, skip_one, quoted_value, value_of, param,
  params, iter_challenge_params, set_field, set_fields, challenge_of, after_scheme, parse_trimmed,
  parse_bearer_challenge,
}

-- A value without quotes and backslashes.
abbrev pub IsPlain : Bytes → Type 0
IsPlain = All (λ c. (c ≢ 34) × (c ≢ 92))

-- A parameter of a challenge, and what stands behind it.
abbrev pub shown : Bytes → Bytes → Bytes → Bytes
shown key v rest = key ++ 61 ∷ 34 ∷ v ++ 34 ∷ rest

unfoldable shown_if : Bytes → Option Bytes → Bytes → Bytes
shown_if key none rest = rest
shown_if key (some v) rest = 44 ∷ shown key v rest

-- A challenge as a registry sends it.
unfoldable pub show_challenge : BearerChallenge → Bytes
unfolding shown_if
show_challenge ch =
    bytes "Bearer "
    ++ shown (bytes "realm") ch.realm
        (shown_if (bytes "service") ch.service (shown_if (bytes "scope") ch.scope []))

ne_test : (a b : ℕ) → a ≢ b → (a == b) ≡ false
ne_test a b h = ground arith

quoted-plain : (v rest : Bytes) → IsPlain v → quoted (v ++ 34 ∷ rest) ≡ (v, 34 ∷ rest)
unfolding quoted
quoted-plain [] [] h = refl
quoted-plain [] (d ∷ rest) h = refl
quoted-plain (c ∷ []) rest h =
    rw (ne_test c 34 h.0.0, ne_test c 92 h.0.1, quoted-plain [] rest tt) refl
quoted-plain (c ∷ d ∷ v) rest h =
    rw (ne_test c 34 h.0.0, ne_test c 92 h.0.1, quoted-plain (d ∷ v) rest h.1) refl

abbrev IsPlainIf : Option Bytes → Type 0
IsPlainIf none = Unit
IsPlainIf (some v) = IsPlain v

params-realm :
    (fuel : ℕ) (v rest : Bytes)
    → IsPlain v
    → params (suc fuel) (shown (bytes "realm") v rest) ≡ (bytes "realm", v) ∷ params fuel rest
unfolding params param skip_separators break_at value_of quoted_value skip_one trim trim_start
    trim_end is_empty trim_start_from white_width to_ascii_lowercase ascii_lower
params-realm fuel v rest h = rw (quoted-plain v rest h) refl

params-service :
    (fuel : ℕ) (v rest : Bytes)
    → IsPlain v
    → params (suc fuel) (44 ∷ shown (bytes "service") v rest)
      ≡ (bytes "service", v) ∷ params fuel rest
unfolding params param skip_separators break_at value_of quoted_value skip_one trim trim_start
    trim_end is_empty trim_start_from white_width to_ascii_lowercase ascii_lower
params-service fuel v rest h = rw (quoted-plain v rest h) refl

params-scope :
    (fuel : ℕ) (v rest : Bytes)
    → IsPlain v
    → params (suc fuel) (44 ∷ shown (bytes "scope") v rest) ≡ (bytes "scope", v) ∷ params fuel rest
unfolding params param skip_separators break_at value_of quoted_value skip_one trim trim_start
    trim_end is_empty trim_start_from white_width to_ascii_lowercase ascii_lower
params-scope fuel v rest h = rw (quoted-plain v rest h) refl

params_nil : (fuel : ℕ) → params fuel [] ≡ []
unfolding params
params_nil zero = refl
params_nil (suc fuel) = refl

-- The fields that the optional parameters fill in.
set_fields-shown :
    (fuel : ℕ) (realm : Bytes) (service scope : Option Bytes)
    → IsPlainIf service
    → IsPlainIf scope
    → set_fields
        (params
          (suc (suc fuel))
          (shown_if (bytes "service") service (shown_if (bytes "scope") scope [])))
        (record { realm = some realm; service = none; scope = none })
      ≡ record { realm = some realm; service = service; scope = scope }
unfolding set_fields set_field shown_if bytes_eq
set_fields-shown fuel realm none none p q = rw (params_nil (suc (suc fuel))) refl
set_fields-shown fuel realm none (some c) p q =
    rw (params-scope (suc fuel) c [] q, params_nil (suc fuel)) refl
set_fields-shown fuel realm (some v) none p q =
    rw (params-service (suc fuel) v [] p, params_nil (suc fuel)) refl
set_fields-shown fuel realm (some v) (some c) p q =
    rw
      (
        params-service (suc fuel) v (44 ∷ shown (bytes "scope") c []) p,
        params-scope fuel c [] q,
        params_nil fuel,
      )
      refl

shown-EndsQuoted : (key v rest : Bytes) → EndsQuoted (34 ∷ rest) → EndsQuoted (shown key v rest)
shown-EndsQuoted key v rest h = append-EndsQuoted (key ++ 61 ∷ 34 ∷ v) (34 ∷ rest) h

behind-EndsQuoted :
    (key : Bytes) (o : Option Bytes) (rest : Bytes)
    → EndsQuoted (34 ∷ rest)
    → EndsQuoted (34 ∷ shown_if key o rest)
unfolding shown_if
behind-EndsQuoted key none rest h = h
behind-EndsQuoted key (some v) rest h =
    append-EndsQuoted (34 ∷ 44 ∷ []) _ (shown-EndsQuoted key v rest h)

-- What stands behind `Bearer `.
abbrev fields : BearerChallenge → Bytes
fields ch =
    shown (bytes "realm") ch.realm
      (shown_if (bytes "service") ch.service (shown_if (bytes "scope") ch.scope []))

show_challenge-EndsQuoted : (ch : BearerChallenge) → EndsQuoted (show_challenge ch)
unfolding show_challenge
show_challenge-EndsQuoted ch = append-EndsQuoted (bytes "Bearer ") (fields ch) (
    shown-EndsQuoted (bytes "realm") ch.realm _ (
      behind-EndsQuoted (bytes "service") ch.service _
        (behind-EndsQuoted (bytes "scope") ch.scope [] ([], refl))))

trim_end-EndsQuoted : (s : Bytes) → EndsQuoted s → trim_end s ≡ s
trim_end-EndsQuoted s (front, e) = rw e (trim_end-quoted front)

trim-show_challenge : (ch : BearerChallenge) → trim (show_challenge ch) ≡ show_challenge ch
unfolding trim trim_start trim_start_from white_width show_challenge
trim-show_challenge ch = trim_end-EndsQuoted (show_challenge ch) (show_challenge-EndsQuoted ch)

parse_trimmed-show_challenge :
    (ch : BearerChallenge)
    → IsPlain ch.realm
    → IsPlainIf ch.service
    → IsPlainIf ch.scope
    → parse_trimmed (show_challenge ch) ≡ some ch
unfolding parse_trimmed after_scheme iter_challenge_params challenge_of show_challenge strip_prefix
    trim_start trim_start_from white_width set_fields set_field ℕ_discrete bytes_eq
parse_trimmed-show_challenge ch p q r =
    let rest = shown_if (bytes "service") ch.service (shown_if (bytes "scope") ch.scope []) in
    rw (params-realm _ ch.realm rest p, set_fields-shown _ ch.realm ch.service ch.scope q r) refl

-- A challenge that is written in the usual form, with a realm and perhaps a service and a scope in
-- quotes, is read back, if its values have no quotes and no backslashes.
pub parse_bearer_challenge-show_challenge :
    (ch : BearerChallenge)
    → IsPlain ch.realm
    → IsPlainIf ch.service
    → IsPlainIf ch.scope
    → parse_bearer_challenge (show_challenge ch) ≡ some ch
unfolding parse_bearer_challenge
parse_bearer_challenge-show_challenge ch p q r =
    ap parse_trimmed (trim-show_challenge ch) ∙ parse_trimmed-show_challenge ch p q r
