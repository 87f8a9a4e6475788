-- ===== src/Snapshot/RoundTrip.antt =====
-- The rows that `save` of src/snapshot.rs writes against what `load` makes of them.
use mathlib.Core.Path.{subst}
use mathlib.Core.Logic.{if_pos, if_neg}
use dockfoxprox.Base.{
  ℕ, ◌≡◌, refl, sym, ◌∙◌, Bool, true, false, Option, none, some, [], ◌∷◌, Bytes, length, leb,
  if◌then◌else◌, Bool-cases, inl, inr,
}
use dockfoxprox.Base.Map.{Map, Key, lookup, insert, Unique, lookup-insert_self, lookup-insert_ne}
use dockfoxprox.Base.Text.{bytes_key, nat_key, pair_key}
use dockfoxprox.Digest.RoundTrip.{IsDigest, parse-display}
use dockfoxprox.State.{Digest, Manifest, RedisEntry}
use dockfoxprox.Snapshot.Save.{
  RedisRow, Spilled, add_row, manifest_entries, tag_entries, redis_rows, snapshot_inline_threshold,
}
use dockfoxprox.Snapshot.Load.{load_manifests, load_tags, load_redis, restore_entry}

-- The first of two that is there.
abbrev pub over : {V : Type 0} → Option V → Option V → Option V
over (some v) o = some v
over none o = o

abbrev pub mapped : {V : Type 0} → (V → V) → Option V → Option V
mapped f none = none
mapped f (some v) = some (f v)

module _ {K V : Type 0} ⦃e : Key K⦄ where
  -- Inserting an entry first is as good as having it on top.
  over-insert :
      (k j : K) (v : V) (m acc : Map K V)
      → lookup j m ≡ none
      → over (lookup k m) (lookup k (insert j v acc)) ≡ over (lookup k ((j, v) ∷ m)) (lookup k acc)
  unfolding lookup
  over-insert k j v m acc fresh = elim (e.dec k j) [
    | yes p ↦
        let gone : lookup k m ≡ none = subst (λ x. lookup x m ≡ none) (sym p) fresh in
        let here : lookup k (insert j v acc) ≡ some v =
          subst (λ x. lookup x (insert j v acc) ≡ some v) (sym p) (lookup-insert_self j v acc) in
        rw (gone, here, if_pos (e.dec k j) p (some v) none) refl
    | no p ↦ rw (lookup-insert_ne k j v acc p, if_neg (e.dec k j) p (some v) (lookup k m)) refl
  ]

  -- The same for what becomes of the entries.
  pub over-insert-mapped :
      (f : V → V) (k j : K) (v : V) (m acc : Map K V)
      → lookup j m ≡ none
      → over (mapped f (lookup k m)) (lookup k (insert j (f v) acc))
        ≡ over (mapped f (lookup k ((j, v) ∷ m))) (lookup k acc)
  unfolding lookup
  over-insert-mapped f k j v m acc fresh = elim (e.dec k j) [
    | yes p ↦
        let gone : lookup k m ≡ none = subst (λ x. lookup x m ≡ none) (sym p) fresh in
        let here : lookup k (insert j (f v) acc) ≡ some (f v) =
          subst (λ x. lookup x (insert j (f v) acc) ≡ some (f v)) (sym p)
            (lookup-insert_self j (f v) acc) in
        rw (gone, here, if_pos (e.dec k j) p (some v) none) refl
    | no p ↦ rw (lookup-insert_ne k j (f v) acc p, if_neg (e.dec k j) p (some v) (lookup k m)) refl
  ]

-- All keys are digests.
abbrev pub DigestKeys : {V : Type 0} → Map Digest V → Type 0
DigestKeys [] = Unit
DigestKeys ((d, v) ∷ m) = IsDigest d × DigestKeys m

pub load_manifests-entries :
    (k : Digest) (ms acc : Map Digest Manifest)
    → Unique ms
    → DigestKeys ms
    → lookup k (load_manifests (manifest_entries ms) acc) ≡ over (lookup k ms) (lookup k acc)
unfolding load_manifests manifest_entries lookup
load_manifests-entries k [] acc u h = refl
load_manifests-entries k ((d, m) ∷ ms) acc u h =
    rw (parse-display d h.0, load_manifests)
      (load_manifests-entries k ms (insert d m acc) u.1 h.1 ∙ over-insert k d m ms acc u.0)

-- All values are digests.
abbrev pub DigestValues : {K : Type 0} → Map K Digest → Type 0
DigestValues [] = Unit
DigestValues ((k, d) ∷ m) = IsDigest d × DigestValues m

pub load_tags-entries :
    (k : Bytes × Bytes) (ts acc : Map (Bytes × Bytes) Digest)
    → Unique ts
    → DigestValues ts
    → lookup k (load_tags (tag_entries ts) acc) ≡ over (lookup k ts) (lookup k acc)
unfolding load_tags tag_entries lookup
load_tags-entries k [] acc u h = refl
load_tags-entries k (((repo, reference), d) ∷ ts) acc u h =
    rw (parse-display d h.0, load_tags)
      (load_tags-entries k ts (insert (repo, reference) d acc) u.1 h.1
        ∙ over-insert k (repo, reference) d ts acc u.0)

-- What becomes of an entry over a restart: a value that is not small is on disk.
unfoldable pub stored : RedisEntry → RedisEntry
stored (RedisEntry.in_memory value id t) =
    if leb (length value) snapshot_inline_threshold
    then RedisEntry.in_memory value id t
    else RedisEntry.on_disk (length value) id t
stored (RedisEntry.on_disk size id t) = RedisEntry.on_disk size id t

abbrev pub stored? : Option RedisEntry → Option RedisEntry
stored? = mapped stored

-- Rows that are read as the entries that they were written for.
abbrev pub Reads : Map Bytes RedisEntry → Spilled RedisRow → Type 0
Reads m (files, none) = Unit
Reads m (files, some rows) =
    (k : Bytes) (acc : Map Bytes RedisEntry)
    → lookup k (load_redis rows acc) ≡ over (stored? (lookup k m)) (lookup k acc)

-- What is read back of an entry on disk, of one with a small value, and of one with a large value.
abbrev row_of : Bytes → Option Bytes → ℕ → ℕ → ℕ → RedisRow
row_of j value size id t = record {
  key = j;
  id = id;
  value = value;
  last_accessed = t;
  size = size;
}

on_disk_back :
    (j : Bytes) (size id t : ℕ)
    → restore_entry (row_of j none size id t) ≡ stored (RedisEntry.on_disk size id t)
unfolding restore_entry stored
on_disk_back j size id t = refl

small_back :
    (j value : Bytes) (id t : ℕ)
    → leb (length value) snapshot_inline_threshold ≡ true
    → restore_entry (row_of j (some value) (length value) id t)
      ≡ stored (RedisEntry.in_memory value id t)
unfolding restore_entry stored
small_back j value id t small = rw small refl

large_back :
    (j value : Bytes) (id t : ℕ)
    → leb (length value) snapshot_inline_threshold ≡ false
    → restore_entry (row_of j none (length value) id t) ≡ stored (RedisEntry.in_memory value id t)
unfolding restore_entry stored
large_back j value id t large = rw large refl

no_rows : (files : Map ℕ Bytes) → Reads [] (files, some [])
unfolding load_redis lookup
no_rows files k acc = refl

add_row-Reads :
    (j : Bytes) (e : RedisEntry) (row : RedisRow) (m : Map Bytes RedisEntry) (r : Spilled RedisRow)
    → row.key ≡ j
    → restore_entry row ≡ stored e
    → lookup j m ≡ none
    → Reads m r
    → Reads ((j, e) ∷ m) (add_row row r)
unfolding add_row load_redis
add_row-Reads j e row m (files, none) same back fresh h = tt
add_row-Reads j e row m (files, some rows) same back fresh h = λ k acc.
    h k (insert row.key (restore_entry row) acc)
    ∙ (rw (same, back) (over-insert-mapped stored k j e m acc fresh))

-- The rows that `save` writes for the redis entries are read back as what is stored of them.
pub redis_rows-Reads :
    (writable : ℕ → Bool) (m : Map Bytes RedisEntry) (files : Map ℕ Bytes)
    → Unique m
    → Reads m (redis_rows writable m files)
unfolding redis_rows
redis_rows-Reads writable [] files u = no_rows files
redis_rows-Reads writable ((j, RedisEntry.on_disk size id t) ∷ m) files u =
    add_row-Reads j (RedisEntry.on_disk size id t) _ m (redis_rows writable m files) refl
      (on_disk_back j size id t) u.0 (redis_rows-Reads writable m files u.1)
redis_rows-Reads writable ((j, RedisEntry.in_memory value id t) ∷ m) files u =
    elim (Bool-cases (leb (length value) snapshot_inline_threshold)) [
      | inl small ↦ rw small (
          add_row-Reads j (RedisEntry.in_memory value id t) _ m (redis_rows writable m files) refl
            (small_back j value id t small) u.0 (redis_rows-Reads writable m files u.1))
      | inr large ↦ elim (Bool-cases (writable id)) [
        | inl w ↦
            rw (large, w)
              (add_row-Reads j (RedisEntry.in_memory value id t) _ m
                (redis_rows writable m (insert id value files)) refl (large_back j value id t large)
                u.0 (redis_rows-Reads writable m (insert id value files) u.1))
        | inr w ↦ rw (large, w) tt
      ]
    ]
