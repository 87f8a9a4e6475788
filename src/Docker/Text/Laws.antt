-- ===== src/Docker/Text/Laws.antt =====
-- Laws of the text functions that src/docker.rs uses.
use dockfoxprox.Base.{
  ℕ, zero, suc, ◌≤◌, ◌≡◌, refl, sym, ap, ◌∙◌, arith, false, [], ◌∷◌, ◌++◌, Bytes, length, Option,
  none, some, inl, inr, Bool-cases, ◌==◌, ==_iff, if◌then◌else◌,
}
use mathlib.Core.Path.{subst}
use mathlib.Core.List.{append_assoc}
use dockfoxprox.Redis.Text.{white_width}
use dockfoxprox.Docker.Text.{split_once, trim_start, trim_start_from, trim_end, is_empty}

-- A text that ends with a quote.
abbrev pub EndsQuoted : Bytes → Type 0
EndsQuoted s = (front : Bytes) × (s ≡ front ++ 34 ∷ [])

pub append-EndsQuoted : (a s : Bytes) → EndsQuoted s → EndsQuoted (a ++ s)
append-EndsQuoted a s (front, e) =
    (a ++ front, ap (λ x. a ++ x) e ∙ sym (append_assoc a front (34 ∷ [])))

-- A quote is no part of a white-space character.
white_width-bounded : (x : Bytes) → white_width (x ++ 34 ∷ []) ≤ length x
unfolding white_width
white_width-bounded [] = omega arith
white_width-bounded (c ∷ []) = ground arith
white_width-bounded (c ∷ d ∷ []) = ground arith
white_width-bounded (c ∷ d ∷ e ∷ x) = ground arith

-- White space never passes over the quote at the end.
trim_start_from-quoted :
    (skip : ℕ) (x : Bytes)
    → skip ≤ length x
    → is_empty (trim_start_from skip (x ++ 34 ∷ [])) ≡ false
unfolding trim_start_from is_empty white_width
trim_start_from-quoted zero [] h = refl
trim_start_from-quoted (suc skip) [] h = absurd (omega arith)
trim_start_from-quoted (suc skip) (c ∷ x) h = trim_start_from-quoted skip x (omega arith)
trim_start_from-quoted zero (c ∷ x) h =
    found (white_width (c ∷ x ++ 34 ∷ [])) refl (white_width-bounded (c ∷ x))
      (λ n. trim_start_from-quoted n x)
  where
    found :
        (n : ℕ)
        → white_width (c ∷ x ++ 34 ∷ []) ≡ n
        → white_width (c ∷ x ++ 34 ∷ []) ≤ suc (length x)
        → ((k : ℕ) → k ≤ length x → is_empty (trim_start_from k (x ++ 34 ∷ [])) ≡ false)
        → is_empty (trim_start_from zero (c ∷ x ++ 34 ∷ [])) ≡ false
    found zero e l again = rw (e, trim_start_from) refl
    found (suc n) e l again = rw (e, trim_start_from) (again n (omega arith))

pub trim_end-quoted : (x : Bytes) → trim_end (x ++ 34 ∷ []) ≡ x ++ 34 ∷ []
unfolding trim_end trim_start is_empty trim_start_from white_width
trim_end-quoted [] = refl
trim_end-quoted (c ∷ x) =
    rw (trim_start_from-quoted 0 (c ∷ x) (omega arith), trim_end-quoted x) refl

-- The parts before and behind a character, if there is one.
abbrev PartsOf : ℕ → Bytes → Option (Bytes × Bytes) → Type 0
PartsOf c s none = Unit
PartsOf c s (some (a, b)) = s ≡ a ++ c ∷ b

PartsOf-if :
    (c d : ℕ) (s : Bytes) (o : Option (Bytes × Bytes))
    → PartsOf c (d ∷ s) o
    → PartsOf c (d ∷ s) (if c == d then some ([], s) else o)
PartsOf-if c d s o h = elim (Bool-cases (c == d)) [
  | inl e ↦ rw e (ap (λ x. x ∷ s) (sym ((==_iff c d).0 e)))
  | inr e ↦ rw e h
]

split_once-PartsOf : (c : ℕ) (s : Bytes) → PartsOf c s (split_once c s)
unfolding split_once
split_once-PartsOf c [] = tt
split_once-PartsOf c (d ∷ s) = found (split_once c s) refl (split_once-PartsOf c s)
  where
    found :
        (o : Option (Bytes × Bytes))
        → split_once c s ≡ o
        → PartsOf c s o
        → PartsOf c (d ∷ s) (split_once c (d ∷ s))
    found none e h = rw (split_once, e) (PartsOf-if c d s none tt)
    found (some (a, b)) e h = rw (split_once, e) (PartsOf-if c d s (some (d ∷ a, b)) (ap (◌∷◌ d) h))

pub split_once-append : (c : ℕ) (s a b : Bytes) → split_once c s ≡ some (a, b) → s ≡ a ++ c ∷ b
split_once-append c s a b e = subst (PartsOf c s) e (split_once-PartsOf c s)
