-- ===== src/Snapshot/Rows.antt =====
-- The values that `save` of src/snapshot.rs writes for the redis entries against those that were there.
use mathlib.Core.Logic.{if_pos, if_neg}
use dockfoxprox.Base.{
  ℕ, ◌≡◌, refl, sym, ◌∙◌, Bool, true, Option, none, some, [], ◌∷◌, Bytes, length, leb, Bool-cases,
  ◌⊎◌, inl, inr, All,
}
use dockfoxprox.Base.Map.{Map, lookup, insert, lookup-insert_self}
use dockfoxprox.Base.Text.{bytes_key, nat_key, Bytes-discrete}
use dockfoxprox.State.{RedisEntry}
use dockfoxprox.Snapshot.Save.{redis_rows, snapshot_inline_threshold}
use dockfoxprox.Snapshot.RoundTrip.{mapped, stored}
use dockfoxprox.Snapshot.Files.{redis_ids, Distinct, Agrees, redis_rows-files}
use dockfoxprox.Snapshot.Blobs.{HeldIf, Agrees-insert, add_row-HeldIf}

-- The value of a redis entry, wherever it is.
abbrev pub value_of : Map ℕ Bytes → Option RedisEntry → Option Bytes
value_of files none = none
value_of files (some (RedisEntry.in_memory value id t)) = some value
value_of files (some (RedisEntry.on_disk size id t)) = lookup id files

module _ (disk base : Map ℕ Bytes) where
  -- A disk has the value of an entry, unless the snapshot has it.
  abbrev pub HeldRow : RedisEntry → Type 0
  HeldRow (RedisEntry.in_memory value id t) =
      (leb (length value) snapshot_inline_threshold ≡ true) ⊎ (lookup id disk ≡ some value)
  HeldRow (RedisEntry.on_disk size id t) = lookup id disk ≡ lookup id base

  pub redis_rows-HeldIf :
      (writable : ℕ → Bool) (m : Map Bytes RedisEntry) (files : Map ℕ Bytes)
      → Distinct (redis_ids m)
      → Agrees files base (redis_ids m)
      → HeldIf disk base (redis_ids m) (All (λ e. HeldRow e.1) m) (redis_rows writable m files)
  unfolding redis_rows
  redis_rows-HeldIf writable [] files u a = λ _. tt
  redis_rows-HeldIf writable ((k, RedisEntry.on_disk size id t) ∷ m) files u a =
      add_row-HeldIf disk base id (redis_ids m) _ _ _ (redis_rows writable m files)
        (λ same. same ∙ redis_rows-files writable m files id u.0 ∙ a.0)
        (redis_rows-HeldIf writable m files u.1 a.1)
  redis_rows-HeldIf writable ((k, RedisEntry.in_memory value id t) ∷ m) files u a =
      elim (Bool-cases (leb (length value) snapshot_inline_threshold)) [
        | inl small ↦ rw small (
            add_row-HeldIf disk base id (redis_ids m) _ _ _ (redis_rows writable m files)
              (λ _. inl refl) (redis_rows-HeldIf writable m files u.1 a.1))
        | inr large ↦ elim (Bool-cases (writable id)) [
          | inl w ↦
              let files' = insert id value files in
              rw (large, w)
                (add_row-HeldIf disk base id (redis_ids m) _ _ _ (redis_rows writable m files')
                  (λ same. inr (
                    same
                    ∙ redis_rows-files writable m files' id u.0
                    ∙ lookup-insert_self id value files))
                  (redis_rows-HeldIf writable m files' u.1
                    (Agrees-insert id value files base (redis_ids m) u.0 a.1)))
          | inr w ↦ rw (large, w) tt
        ]
      ]

  HeldRow-value_of :
      (e : RedisEntry) → HeldRow e → value_of disk (some (stored e)) ≡ value_of base (some e)
  unfolding stored
  HeldRow-value_of (RedisEntry.on_disk size id t) h = h
  HeldRow-value_of (RedisEntry.in_memory value id t) h =
      elim (Bool-cases (leb (length value) snapshot_inline_threshold)) [
        | inl small ↦ rw small refl
        | inr large ↦ elim h [ inl small ↦ absurd (cc (sym small ∙ large)) | inr e ↦ rw large e ]
      ]

  -- Every entry that is held has the value that it had.
  pub lookup-value_of :
      (k : Bytes) (m : Map Bytes RedisEntry)
      → All (λ e. HeldRow e.1) m
      → value_of disk (mapped stored (lookup k m)) ≡ value_of base (lookup k m)
  unfolding lookup
  lookup-value_of k [] h = refl
  lookup-value_of k ((j, e) ∷ m) h = elim (Bytes-discrete k j) [
    | yes p ↦ rw (if_pos (Bytes-discrete k j) p (some e) (lookup k m)) (HeldRow-value_of e h.0)
    | no p ↦ rw (if_neg (Bytes-discrete k j) p (some e) (lookup k m)) (lookup-value_of k m h.1)
  ]
