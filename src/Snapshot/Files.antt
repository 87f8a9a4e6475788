-- ===== src/Snapshot/Files.antt =====
-- The files under `blobs/` that `save` of src/snapshot.rs writes, against those that were there.
use dockfoxprox.Base.{
  ℕ, ◌≡◌, ◌≢◌, refl, sym, ap, ◌∙◌, Bool, none, some, List, [], ◌∷◌, ◌++◌, Bytes, length, leb,
  Bool-cases, inl, inr, All,
}
use dockfoxprox.Base.Map.{Map, lookup, insert, lookup-insert_ne}
use dockfoxprox.Base.Text.{nat_key}
use dockfoxprox.State.{Digest, Blob, RedisEntry}
use dockfoxprox.Snapshot.Save.{
  Spilled, add_row, blob_entries, redis_rows, snapshot_inline_threshold,
}

-- The ids of the blobs and of the redis entries, which name their files.
abbrev pub blob_ids : Map Digest Blob → List ℕ
blob_ids [] = []
blob_ids ((d, Blob.on_disk id size media t) ∷ m) = id ∷ blob_ids m
blob_ids ((d, Blob.in_memory id content media t) ∷ m) = id ∷ blob_ids m

abbrev pub redis_ids : Map Bytes RedisEntry → List ℕ
redis_ids [] = []
redis_ids ((k, RedisEntry.on_disk size id t) ∷ m) = id ∷ redis_ids m
redis_ids ((k, RedisEntry.in_memory value id t) ∷ m) = id ∷ redis_ids m

abbrev pub IsFresh : ℕ → List ℕ → Type 0
IsFresh id = All (λ j. id ≢ j)

abbrev pub Distinct : List ℕ → Type 0
Distinct [] = Unit
Distinct (id ∷ ids) = IsFresh id ids × Distinct ids

add_row-files : {R : Type 0} (row : R) (r : Spilled R) → (add_row row r).0 ≡ r.0
unfolding add_row
add_row-files row (files, none) = refl
add_row-files row (files, some rows) = refl

-- Only the files of the ids are written.
pub redis_rows-files :
    (writable : ℕ → Bool) (m : Map Bytes RedisEntry) (files : Map ℕ Bytes) (i : ℕ)
    → IsFresh i (redis_ids m)
    → lookup i (redis_rows writable m files).0 ≡ lookup i files
unfolding redis_rows
redis_rows-files writable [] files i h = refl
redis_rows-files writable ((k, RedisEntry.on_disk size id t) ∷ m) files i h =
    ap (lookup i) (add_row-files _ (redis_rows writable m files))
    ∙ redis_rows-files writable m files i h.1
redis_rows-files writable ((k, RedisEntry.in_memory value id t) ∷ m) files i h =
    elim (Bool-cases (leb (length value) snapshot_inline_threshold)) [
      | inl small ↦ rw small (
          ap (lookup i) (add_row-files _ (redis_rows writable m files))
          ∙ redis_rows-files writable m files i h.1)
      | inr large ↦ elim (Bool-cases (writable id)) [
        | inl w ↦
            rw (large, w)
              (ap (lookup i) (add_row-files _ (redis_rows writable m (insert id value files)))
                ∙ redis_rows-files writable m (insert id value files) i h.1
                ∙ lookup-insert_ne i id value files h.0)
        | inr w ↦ rw (large, w) refl
      ]
    ]

pub blob_entries-files :
    (writable : ℕ → Bool) (m : Map Digest Blob) (files : Map ℕ Bytes) (i : ℕ)
    → IsFresh i (blob_ids m)
    → lookup i (blob_entries writable m files).0 ≡ lookup i files
unfolding blob_entries
blob_entries-files writable [] files i h = refl
blob_entries-files writable ((d, Blob.on_disk id size media t) ∷ m) files i h =
    ap (lookup i) (add_row-files _ (blob_entries writable m files))
    ∙ blob_entries-files writable m files i h.1
blob_entries-files writable ((d, Blob.in_memory id content media t) ∷ m) files i h =
    elim (Bool-cases (leb (length content) snapshot_inline_threshold)) [
      | inl small ↦ rw small (
          ap (lookup i) (add_row-files _ (blob_entries writable m files))
          ∙ blob_entries-files writable m files i h.1)
      | inr large ↦ elim (Bool-cases (writable id)) [
        | inl w ↦
            rw (large, w)
              (ap (lookup i) (add_row-files _ (blob_entries writable m (insert id content files)))
                ∙ blob_entries-files writable m (insert id content files) i h.1
                ∙ lookup-insert_ne i id content files h.0)
        | inr w ↦ rw (large, w) refl
      ]
    ]

IsFresh-back : (id : ℕ) (xs ys : List ℕ) → IsFresh id (xs ++ ys) → IsFresh id ys
IsFresh-back id [] ys h = h
IsFresh-back id (x ∷ xs) ys h = IsFresh-back id xs ys h.1

IsFresh-front : (id : ℕ) (xs ys : List ℕ) → IsFresh id (xs ++ ys) → IsFresh id xs
IsFresh-front id [] ys h = tt
IsFresh-front id (x ∷ xs) ys h = (h.0, IsFresh-front id xs ys h.1)

pub Distinct-front : (xs ys : List ℕ) → Distinct (xs ++ ys) → Distinct xs
Distinct-front [] ys h = tt
Distinct-front (x ∷ xs) ys h = (IsFresh-front x xs ys h.0, Distinct-front xs ys h.1)

-- Two disks have the same files under some ids.
abbrev pub Agrees : Map ℕ Bytes → Map ℕ Bytes → List ℕ → Type 0
Agrees a b = All (λ i. lookup i a ≡ lookup i b)

pub Agrees-refl : (a : Map ℕ Bytes) (ids : List ℕ) → Agrees a a ids
Agrees-refl a [] = tt
Agrees-refl a (i ∷ ids) = (refl, Agrees-refl a ids)

-- The files of the redis entries are none of the blobs'.
pub redis_rows-Agrees :
    (writable : ℕ → Bool) (m : Map Bytes RedisEntry) (files : Map ℕ Bytes) (ids : List ℕ)
    → Distinct (ids ++ redis_ids m)
    → Agrees (redis_rows writable m files).0 files ids
redis_rows-Agrees writable m files [] h = tt
redis_rows-Agrees writable m files (i ∷ ids) h = (
  redis_rows-files writable m files i (IsFresh-back i ids (redis_ids m) h.0),
  redis_rows-Agrees writable m files ids h.1,
)

pub Distinct-back : (xs ys : List ℕ) → Distinct (xs ++ ys) → Distinct ys
Distinct-back [] ys h = h
Distinct-back (x ∷ xs) ys h = Distinct-back xs ys h.1

-- An id behind others is none of them.
back-IsFresh : (i : ℕ) (xs ys : List ℕ) → Distinct (xs ++ i ∷ ys) → IsFresh i xs
back-IsFresh i [] ys h = tt
back-IsFresh i (x ∷ xs) ys h =
    (λ e. (IsFresh-back x xs (i ∷ ys) h.0).0 (sym e), back-IsFresh i xs ys h.1)

drop-Distinct : (xs : List ℕ) (i : ℕ) (ys : List ℕ) → Distinct (xs ++ i ∷ ys) → Distinct (xs ++ ys)
drop-Distinct [] i ys h = h.1
drop-Distinct (x ∷ xs) i ys h = (drop-IsFresh x xs i ys h.0, drop-Distinct xs i ys h.1)
  where
    drop-IsFresh :
        (x : ℕ) (xs : List ℕ) (i : ℕ) (ys : List ℕ)
        → IsFresh x (xs ++ i ∷ ys)
        → IsFresh x (xs ++ ys)
    drop-IsFresh x [] i ys h = h.1
    drop-IsFresh x (y ∷ xs) i ys h = (h.0, drop-IsFresh x xs i ys h.1)

-- The files of the blobs are none of the redis entries'.
pub blob_entries-Agrees :
    (writable : ℕ → Bool) (m : Map Digest Blob) (files : Map ℕ Bytes) (ids : List ℕ)
    → Distinct (blob_ids m ++ ids)
    → Agrees (blob_entries writable m files).0 files ids
blob_entries-Agrees writable m files [] h = tt
blob_entries-Agrees writable m files (i ∷ ids) h = (
  blob_entries-files writable m files i (back-IsFresh i (blob_ids m) ids h),
  blob_entries-Agrees writable m files ids (drop-Distinct (blob_ids m) i ids h),
)
