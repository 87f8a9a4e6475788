-- ===== src/Eviction/Json/Occurs.antt =====
-- The digests that a manifest refers to, `referenced_digests` of src/eviction.rs, against what a
-- reference is.
use mathlib.Core.Path.{subst}
use dockfoxprox.Base.{
  ◌≡◌, refl, sym, ap, ◌∙◌, if◌then◌else◌, ◌⊎◌, inl, inr, ◌↔◌, Bool, Option, none, some, List, [],
  ◌∷◌, Bytes, bytes, bytes_eq, Bool-cases,
}
use dockfoxprox.Base.Lists.{Among}
use dockfoxprox.Base.Text.{eq_of_bytes_eq}
use dockfoxprox.State.{Digest}
use dockfoxprox.Digest.{parse}
use dockfoxprox.Eviction.Json.{
  Value, Items, Fields, null, number, bool, string, array, object, nil, cons, end, field,
  field_digest, push, walk, walk_items, walk_fields, referenced_digests,
}

module _ (d : Digest) where
  -- A field "digest" whose value is the text of the digest.
  abbrev pub Names : Bytes → Value → Type 0
  Names k v = (s : Bytes) × (v ≡ string s) × (k ≡ bytes "digest") × (parse s ≡ some d)

  -- Somewhere in a value such a field stands.
  abbrev mutual
    pub Refers : Value → Type 0
    Refers (array a) = ItemsRefer a
    Refers (object m) = FieldsRefer m
    Refers v = ⊥

    pub ItemsRefer : Items → Type 0
    ItemsRefer nil = ⊥
    ItemsRefer (cons v a) = Refers v ⊎ ItemsRefer a

    pub FieldsRefer : Fields → Type 0
    FieldsRefer end = ⊥
    FieldsRefer (field k v m) = Names k v ⊎ (Refers v ⊎ FieldsRefer m)

  Among-push : (o : Option Digest) (out : List Digest) → Among d out → Among d (push o out)
  Among-push none out h = h
  Among-push (some e) [] h = elim h [ ]
  Among-push (some e) (x ∷ out) (inl h) = inl h
  Among-push (some e) (x ∷ out) (inr h) = inr (Among-push (some e) out h)

  Among-pushed : (out : List Digest) → Among d (push (some d) out)
  Among-pushed [] = inl refl
  Among-pushed (x ∷ out) = inr (Among-pushed out)

  of_push :
      (o : Option Digest) (out : List Digest) → Among d (push o out) → Among d out ⊎ (o ≡ some d)
  of_push none out h = inl h
  of_push (some e) [] (inl h) = inr (cc h)
  of_push (some e) [] (inr h) = elim h [ ]
  of_push (some e) (x ∷ out) (inl h) = inl (inl h)
  of_push (some e) (x ∷ out) (inr h) = elim (of_push (some e) out h) [
    | inl g ↦ inl (inr g)
    | inr g ↦ inr g
  ]

  field_digest-Names : (k : Bytes) (v : Value) → field_digest k v ≡ some d → Names k v
  unfolding field_digest
  field_digest-Names k (string s) e =
      let read = λ (b : Bool). (if b then parse s else none) in
      elim (Bool-cases (bytes_eq k (bytes "digest"))) [
        | inl f ↦ (s, refl, eq_of_bytes_eq k (bytes "digest") f, sym (ap read f) ∙ e)
        | inr f ↦ absurd (cc (sym (ap read f) ∙ e))
      ]
  field_digest-Names k v e = absurd (cc e)

  Names-field_digest : (k : Bytes) (v : Value) → Names k v → field_digest k v ≡ some d
  unfolding field_digest bytes_eq
  Names-field_digest k v (s, e, f, g) = rw (e, f) g

  -- What stands in the list was there before or is referred to, and either stands in it.
  mutual
    unfolding walk walk_items walk_fields

    of_walk : (v : Value) (out : List Digest) → Among d (walk v out) → Among d out ⊎ Refers v
    of_walk null out h = inl h
    of_walk number out h = inl h
    of_walk (bool b) out h = inl h
    of_walk (string s) out h = inl h
    of_walk (array a) out h = of_walk_items a out h
    of_walk (object m) out h = of_walk_fields m out h

    of_walk_items :
        (a : Items) (out : List Digest) → Among d (walk_items a out) → Among d out ⊎ ItemsRefer a
    of_walk_items nil out h = inl h
    of_walk_items (cons v a) out h = elim (of_walk_items a (walk v out) h) [
      | inr g ↦ inr (inr g)
      | inl g ↦ elim (of_walk v out g) [ inl k ↦ inl k | inr k ↦ inr (inl k) ]
    ]

    of_walk_fields :
        (m : Fields) (out : List Digest) → Among d (walk_fields m out) → Among d out ⊎ FieldsRefer m
    of_walk_fields end out h = inl h
    of_walk_fields (field k v m) out h =
        elim (of_walk_fields m (walk v (push (field_digest k v) out)) h) [
          | inr g ↦ inr (inr (inr g))
          | inl g ↦ elim (of_walk v (push (field_digest k v) out) g) [
            | inr l ↦ inr (inr (inl l))
            | inl l ↦ elim (of_push (field_digest k v) out l) [
              | inl n ↦ inl n
              | inr n ↦ inr (inl (field_digest-Names k v n))
            ]
          ]
        ]

  mutual
    unfolding walk walk_items walk_fields

    walk-old : (v : Value) (out : List Digest) → Among d out → Among d (walk v out)
    walk-old null out h = h
    walk-old number out h = h
    walk-old (bool b) out h = h
    walk-old (string s) out h = h
    walk-old (array a) out h = walk_items-old a out h
    walk-old (object m) out h = walk_fields-old m out h

    walk_items-old : (a : Items) (out : List Digest) → Among d out → Among d (walk_items a out)
    walk_items-old nil out h = h
    walk_items-old (cons v a) out h = walk_items-old a (walk v out) (walk-old v out h)

    walk_fields-old : (m : Fields) (out : List Digest) → Among d out → Among d (walk_fields m out)
    walk_fields-old end out h = h
    walk_fields-old (field k v m) out h =
        walk_fields-old m (walk v (push (field_digest k v) out))
          (walk-old v (push (field_digest k v) out) (Among-push (field_digest k v) out h))

  mutual
    unfolding walk walk_items walk_fields

    walk-new : (v : Value) (out : List Digest) → Refers v → Among d (walk v out)
    walk-new null out h = elim h [ ]
    walk-new number out h = elim h [ ]
    walk-new (bool b) out h = elim h [ ]
    walk-new (string s) out h = elim h [ ]
    walk-new (array a) out h = walk_items-new a out h
    walk-new (object m) out h = walk_fields-new m out h

    walk_items-new : (a : Items) (out : List Digest) → ItemsRefer a → Among d (walk_items a out)
    walk_items-new nil out h = elim h [ ]
    walk_items-new (cons v a) out (inl h) = walk_items-old a (walk v out) (walk-new v out h)
    walk_items-new (cons v a) out (inr h) = walk_items-new a (walk v out) h

    walk_fields-new : (m : Fields) (out : List Digest) → FieldsRefer m → Among d (walk_fields m out)
    walk_fields-new end out h = elim h [ ]
    walk_fields-new (field k v m) out (inl h) =
        let here : Among d (push (field_digest k v) out) =
          subst (λ o. Among d (push o out)) (sym (Names-field_digest k v h)) (Among-pushed out) in
        walk_fields-old m (walk v (push (field_digest k v) out))
          (walk-old v (push (field_digest k v) out) here)
    walk_fields-new (field k v m) out (inr (inl h)) =
        walk_fields-old m (walk v (push (field_digest k v) out))
          (walk-new v (push (field_digest k v) out) h)
    walk_fields-new (field k v m) out (inr (inr h)) =
        walk_fields-new m (walk v (push (field_digest k v) out)) h

  -- A manifest that is JSON refers to a digest exactly if somewhere in it, at any depth, stands a field
  -- "digest" whose value is a string that parses as the digest.
  pub referenced_digests_iff :
      (json : Bytes → Option Value) (content : Bytes) (v : Value)
      → json content ≡ some v
      → Among d (referenced_digests json content) ↔ Refers v
  unfolding referenced_digests
  referenced_digests_iff json content v e =
      rw (e, referenced_digests)
        (λ h. (elim (of_walk v [] h) [ inl g ↦ elim g [ ] | inr g ↦ g ]), walk-new v [])
