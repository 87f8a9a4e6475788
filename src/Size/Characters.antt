-- ===== src/Size/Characters.antt =====
-- The loop of `Size::from_str` of src/size.rs over the characters, against a filter.
use dockfoxprox.Base.{
  ℕ, zero, suc, ◌<◌, ◌≡◌, refl, sym, ap, ◌∙◌, ◌==◌, leb, Bool, true, false, not, ◌&&◌, ◌||◌, inl,
  inr, arith, [], ◌∷◌, Bytes, All, Bool-cases, if◌then◌else◌,
}
use dockfoxprox.Redis.Text.{white_width}
use dockfoxprox.Docker.Text.{trim, trim_start, trim_start_from, trim_end, is_empty}
use dockfoxprox.Size.{is_number, sort_chars}

-- The ASCII characters that are white space.
abbrev pub is_blank : ℕ → Bool
is_blank c = leb 9 c && leb c 13 || c == 32

-- The characters of a text that a test takes.
unfoldable pub kept : (ℕ → Bool) → Bytes → Bytes
kept p [] = []
kept p (c ∷ s) = let rest = kept p s in if p c then c ∷ rest else rest

-- The characters that are neither of the number nor white space.
abbrev pub is_letter : ℕ → Bool
is_letter c = not (is_number c) && not (is_blank c)

abbrev pub IsAscii : Bytes → Type 0
IsAscii = All (λ c. c < 128)

-- An ASCII character alone decides whether white space begins with it.
white_width_ascii :
    (c : ℕ) (s : Bytes) → c < 128 → white_width (c ∷ s) ≡ (if is_blank c then 1 else 0)
unfolding white_width
white_width_ascii c [] h = refl
white_width_ascii c (d ∷ []) h = ground arith
white_width_ascii c (d ∷ e ∷ s) h = ground arith

blank_not_number : (c : ℕ) → is_blank c ≡ true → is_number c ≡ false
blank_not_number c h = ground arith

pub sort_chars-kept :
    (s : Bytes) → IsAscii s → sort_chars 0 s ≡ (kept is_number s, kept is_letter s)
unfolding sort_chars kept
sort_chars-kept [] h = refl
sort_chars-kept (c ∷ s) (l, h) = elim (Bool-cases (is_blank c)) [
  | inl b ↦
      rw (sort_chars, white_width_ascii c s l, b, blank_not_number c b, sort_chars-kept s h) refl
  | inr b ↦ elim (Bool-cases (is_number c)) [
    | inl n ↦ rw (sort_chars, white_width_ascii c s l, b, n, sort_chars-kept s h) refl
    | inr n ↦ rw (sort_chars, white_width_ascii c s l, b, n, sort_chars-kept s h) refl
  ]
]

-- White space in front of a text or behind it is none of its characters.
sort_chars-trim_start_from :
    (skip : ℕ) (s : Bytes) → sort_chars 0 (trim_start_from skip s) ≡ sort_chars skip s
unfolding sort_chars trim_start_from
sort_chars-trim_start_from skip [] = refl
sort_chars-trim_start_from (suc skip) (c ∷ s) = sort_chars-trim_start_from skip s
sort_chars-trim_start_from zero (c ∷ s) =
    found (white_width (c ∷ s)) refl (λ k. sort_chars-trim_start_from k s)
  where
    found :
        (n : ℕ)
        → white_width (c ∷ s) ≡ n
        → ((k : ℕ) → sort_chars 0 (trim_start_from k s) ≡ sort_chars k s)
        → sort_chars 0 (trim_start_from zero (c ∷ s)) ≡ sort_chars zero (c ∷ s)
    found zero e again = rw (trim_start_from, e) refl
    found (suc n) e again = rw (trim_start_from, sort_chars, e) (again n)

sort_chars-trim_start : (s : Bytes) → sort_chars 0 (trim_start s) ≡ sort_chars 0 s
unfolding trim_start
sort_chars-trim_start s = sort_chars-trim_start_from 0 s

empty_nil : (s : Bytes) → is_empty s ≡ true → s ≡ []
unfolding is_empty
empty_nil [] e = refl
empty_nil (c ∷ s) e = absurd (cc e)

sort_chars-trim_end : (s : Bytes) → IsAscii s → sort_chars 0 (trim_end s) ≡ sort_chars 0 s
unfolding trim_end sort_chars
sort_chars-trim_end [] h = refl
sort_chars-trim_end (c ∷ s) (l, h) = elim (Bool-cases (is_empty (trim_start (c ∷ s)))) [
  | inl e ↦
      rw e
        (sym (ap (sort_chars 0) (empty_nil (trim_start (c ∷ s)) e)) ∙ sort_chars-trim_start (c ∷ s))
  | inr e ↦ rw e (same_head (sort_chars-trim_end s h))
]
  where
    same_head :
        sort_chars 0 (trim_end s) ≡ sort_chars 0 s
        → sort_chars 0 (c ∷ trim_end s) ≡ sort_chars 0 (c ∷ s)
    same_head again = elim (Bool-cases (is_blank c)) [
      | inl b ↦
          rw (sort_chars, white_width_ascii c (trim_end s) l, white_width_ascii c s l, b) again
      | inr b ↦
          rw (sort_chars, white_width_ascii c (trim_end s) l, white_width_ascii c s l, b, again)
            refl
    ]

IsAscii-trim_start_from : (skip : ℕ) (s : Bytes) → IsAscii s → IsAscii (trim_start_from skip s)
unfolding trim_start_from
IsAscii-trim_start_from skip [] h = h
IsAscii-trim_start_from (suc skip) (c ∷ s) (l, h) = IsAscii-trim_start_from skip s h
IsAscii-trim_start_from zero (c ∷ s) (l, h) =
    found (white_width (c ∷ s)) refl (λ k. IsAscii-trim_start_from k s h)
  where
    found :
        (n : ℕ)
        → white_width (c ∷ s) ≡ n
        → ((k : ℕ) → IsAscii (trim_start_from k s))
        → IsAscii (trim_start_from zero (c ∷ s))
    found zero e again = rw (trim_start_from, e) (l, h)
    found (suc n) e again = rw (trim_start_from, e) (again n)

pub sort_chars-trim :
    (s : Bytes) → IsAscii s → sort_chars 0 (trim s) ≡ (kept is_number s, kept is_letter s)
unfolding trim trim_start
sort_chars-trim s h =
    sort_chars-trim_end (trim_start s) (IsAscii-trim_start_from 0 s h)
    ∙ sort_chars-trim_start s
    ∙ sort_chars-kept s h
