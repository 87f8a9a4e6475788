-- ===== src/Size/Reads.antt =====
-- What `Size::from_str` of src/size.rs reads, and what it refuses.
use mathlib.Core.Path.{subst}
use dockfoxprox.Base.{
  ℕ, ◌≡◌, refl, sym, ap, ◌∙◌, ◌*◌, ◌^◌, inl, inr, ◌↔◌, Bool, Option, none, some, Option-cases,
  Bool-cases, List, [], ◌∷◌, Bytes, All, ◌⊎◌, bytes, bytes_eq, if◌then◌else◌,
}
use dockfoxprox.Base.Lists.{Among}
use dockfoxprox.Base.Text.{eq_of_bytes_eq}
use dockfoxprox.Redis.Text.{to_ascii_uppercase}
use dockfoxprox.Size.{
  Floats, size, wrong, invalid_number, invalid_unit, is_number, multiplier, of_parts, from_str,
}
use dockfoxprox.Size.Characters.{is_letter, kept, IsAscii, sort_chars-trim}

-- The units: the name of each, and the power of 1024 that it stands for.
abbrev units : List (Bytes × ℕ)
units =
    (bytes "B", 0)
    ∷ (bytes "KB", 1)
    ∷ (bytes "MB", 2)
    ∷ (bytes "GB", 3)
    ∷ (bytes "TB", 4)
    ∷ ([], 0)
    ∷ []

multiplier-units : All (λ u. multiplier u.0 ≡ some (1024 ^ u.1)) units
unfolding multiplier bytes_eq
multiplier-units = (refl, (refl, (refl, (refl, (refl, (refl, tt))))))

-- The first unit of a list of tests, or a later one.
tested :
    (w name : Bytes) (k m : ℕ) (later : Option ℕ)
    → (if bytes_eq w name then some k else later) ≡ some m
    → ((w ≡ name) × (m ≡ k)) ⊎ (later ≡ some m)
tested w name k m later h =
    let next = λ (b : Bool). (if b then some k else later) in
    elim (Bool-cases (bytes_eq w name)) [
      | inl e ↦ inl (eq_of_bytes_eq w name e, cc (sym (ap next e) ∙ h))
      | inr e ↦ inr (sym (ap next e) ∙ h)
    ]

units-multiplier :
    (w : Bytes) (m : ℕ)
    → multiplier w ≡ some m
    → (power : ℕ) × Among (w, power) units × (m ≡ 1024 ^ power)
unfolding multiplier
units-multiplier w m h = elim (tested w (bytes "B") 1 m _ h) [
  | inl (e, f) ↦ (0, inl (ap (λ n. (n, 0)) e), f)
  | inr h ↦ elim (tested w (bytes "KB") 1024 m _ h) [
    | inl (e, f) ↦ (1, inr (inl (ap (λ n. (n, 1)) e)), f)
    | inr h ↦ elim (tested w (bytes "MB") (1024 * 1024) m _ h) [
      | inl (e, f) ↦ (2, inr (inr (inl (ap (λ n. (n, 2)) e))), f)
      | inr h ↦ elim (tested w (bytes "GB") (1024 * 1024 * 1024) m _ h) [
        | inl (e, f) ↦ (3, inr (inr (inr (inl (ap (λ n. (n, 3)) e)))), f)
        | inr h ↦ elim (tested w (bytes "TB") (1024 * 1024 * 1024 * 1024) m _ h) [
          | inl (e, f) ↦ (4, inr (inr (inr (inr (inl (ap (λ n. (n, 4)) e))))), f)
          | inr h ↦ elim (tested w [] 1 m none h) [
            | inl (e, f) ↦ (0, inr (inr (inr (inr (inr (inl (ap (λ n. (n, 0)) e)))))), f)
            | inr h ↦ absurd (cc h)
          ]
        ]
      ]
    ]
  ]
]

Among_All : {A : Type 0} (P : A → Type 0) (xs : List A) (x : A) → Among x xs → All P xs → P x
Among_All P [] x h p = elim h [ ]
Among_All P (y ∷ xs) x (inl e) p = subst P (sym e) p.0
Among_All P (y ∷ xs) x (inr h) p = Among_All P xs x h p.1

module _ (floats : Floats) where
  -- The number n that a text means: that of its digits and dots, times the power of 1024 of the unit
  -- that its other characters name in upper case, as the floats have it.
  abbrev pub Means : Bytes → ℕ → Type 0
  Means s n =
      (x : floats.F) × (power : ℕ) × (floats.read (kept is_number s) ≡ some x)
      × Among (to_ascii_uppercase (kept is_letter s), power) units
      × (n ≡ floats.scaled x (1024 ^ power))

  no_number :
      (num unit : Bytes)
      → floats.read num ≡ none
      → of_parts floats (num, unit) ≡ wrong invalid_number
  unfolding of_parts
  no_number num unit e = rw (of_parts, e) refl

  no_unit :
      (num unit : Bytes) (x : floats.F)
      → floats.read num ≡ some x
      → multiplier (to_ascii_uppercase unit) ≡ none
      → of_parts floats (num, unit) ≡ wrong (invalid_unit unit)
  unfolding of_parts
  no_unit num unit x e f = rw (of_parts, e, f) refl

  both :
      (num unit : Bytes) (x : floats.F) (m : ℕ)
      → floats.read num ≡ some x
      → multiplier (to_ascii_uppercase unit) ≡ some m
      → of_parts floats (num, unit) ≡ size (floats.scaled x m)
  unfolding of_parts
  both num unit x m e f = rw (of_parts, e, f) refl

  of_parts-Means :
      (s : Bytes) (n : ℕ)
      → of_parts floats (kept is_number s, kept is_letter s) ≡ size n
      → Means s n
  of_parts-Means s n h =
      let num = kept is_number s in
      let unit = kept is_letter s in
      elim (Option-cases (floats.read num)) [
        | inl e ↦ absurd (cc (sym (no_number num unit e) ∙ h))
        | inr (x, e) ↦ elim (Option-cases (multiplier (to_ascii_uppercase unit))) [
          | inl f ↦ absurd (cc (sym (no_unit num unit x e f) ∙ h))
          | inr (m, f) ↦
              let (power, named, g) = units-multiplier (to_ascii_uppercase unit) m f in
              let same : floats.scaled x m ≡ n = cc (sym (both num unit x m e f) ∙ h) in
              (x, power, e, named, sym same ∙ ap (floats.scaled x) g)
        ]
      ]

  Means-of_parts :
      (s : Bytes) (n : ℕ)
      → Means s n
      → of_parts floats (kept is_number s, kept is_letter s) ≡ size n
  Means-of_parts s n (x, power, e, f, g) =
      let known = Among_All (λ u. multiplier u.0 ≡ some (1024 ^ u.1)) units _ f multiplier-units in
      both _ _ x _ e known ∙ ap size (sym g)

  -- from_str reads an ASCII text as a size exactly if the digits and dots in it, wherever they stand,
  -- are a number, and the rest of it, white space left out, is empty or names a unit in upper or lower case; the
  -- size is the number times the power of 1024 that the unit stands for.
  pub from_str_iff : (s : Bytes) → IsAscii s → (n : ℕ) → (from_str floats s ≡ size n) ↔ Means s n
  unfolding from_str
  from_str_iff s h n =
      let e = ap (of_parts floats) (sort_chars-trim s h) in
      (λ r. of_parts-Means s n (sym e ∙ r), λ m. e ∙ Means-of_parts s n m)
