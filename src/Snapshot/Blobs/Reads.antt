-- ===== src/Snapshot/Blobs/Reads.antt =====
-- What `load` of src/snapshot.rs reads of the rows that `save` writes for the blobs.
use dockfoxprox.Base.{
  ℕ, ◌≡◌, refl, sym, ◌∙◌, ◌==◌, Bool, true, false, Option, none, some, [], ◌∷◌, Bytes, length, leb,
  Bool-cases, inl, inr, All, arith,
}
use dockfoxprox.Base.Map.{Map, lookup, insert, Unique}
use dockfoxprox.Base.Text.{bytes_key, nat_key}
use dockfoxprox.Digest.{display}
use dockfoxprox.Digest.RoundTrip.{IsDigest, parse-display}
use dockfoxprox.State.{Digest, Blob}
use dockfoxprox.Snapshot.Save.{BlobEntry, Spilled, add_row, blob_entries, snapshot_inline_threshold}
use dockfoxprox.Snapshot.Load.{restore_blob, load_blob, load_blobs}
use dockfoxprox.Snapshot.RoundTrip.{over, mapped, over-insert-mapped, DigestKeys}
use dockfoxprox.Snapshot.Blobs.{stored_blob, Held}

module _ (disk base : Map ℕ Bytes) where
  -- Rows that are read as the blobs that they were written for.
  abbrev pub ReadsBlobs : Map Digest Blob → Spilled BlobEntry → Type 0
  ReadsBlobs m (files, none) = Unit
  ReadsBlobs m (files, some rows) =
      (k : Digest) (acc : Map Digest Blob)
      → lookup k (load_blobs disk rows acc) ≡ over (mapped stored_blob (lookup k m)) (lookup k acc)

  add_row-ReadsBlobs :
      (d : Digest) (b : Blob) (row : BlobEntry) (m : Map Digest Blob) (r : Spilled BlobEntry)
      → IsDigest d
      → row.digest ≡ display d
      → restore_blob disk row ≡ some (stored_blob b)
      → lookup d m ≡ none
      → ReadsBlobs m r
      → ReadsBlobs ((d, b) ∷ m) (add_row row r)
  unfolding add_row load_blobs load_blob
  add_row-ReadsBlobs d b row m (files, none) digest same back fresh h = tt
  add_row-ReadsBlobs d b row m (files, some rows) digest same back fresh h = λ k acc.
      rw (load_blobs, load_blob, same, parse-display d digest, back)
        (h k (insert d (stored_blob b) acc) ∙ over-insert-mapped stored_blob k d b m acc fresh)

  -- The row of a blob.
  abbrev row_of : Digest → ℕ → Bytes → ℕ → ℕ → Option Bytes → BlobEntry
  row_of d id media size t content = record {
    digest = display d;
    media_type = media;
    size = size;
    last_accessed = t;
    id = id;
    content = content;
  }

  on_disk_back :
      (d : Digest) (id size : ℕ) (media : Bytes) (t : ℕ)
      → Held disk base (Blob.on_disk id size media t)
      → restore_blob disk (row_of d id media size t none)
        ≡ some (stored_blob (Blob.on_disk id size media t))
  unfolding restore_blob stored_blob
  on_disk_back d id size media t (file, e, f, l) = rw (restore_blob, f, l) refl

  small_back :
      (d : Digest) (id : ℕ) (content media : Bytes) (t : ℕ)
      → leb (length content) snapshot_inline_threshold ≡ true
      → restore_blob disk (row_of d id media (length content) t (some content))
        ≡ some (stored_blob (Blob.in_memory id content media t))
  unfolding restore_blob stored_blob
  small_back d id content media t small = rw small refl

  large_back :
      (d : Digest) (id : ℕ) (content media : Bytes) (t : ℕ)
      → leb (length content) snapshot_inline_threshold ≡ false
      → Held disk base (Blob.in_memory id content media t)
      → restore_blob disk (row_of d id media (length content) t none)
        ≡ some (stored_blob (Blob.in_memory id content media t))
  unfolding restore_blob stored_blob
  large_back d id content media t large (inl small) = absurd (cc (sym small ∙ large))
  large_back d id content media t large (inr e) =
      let same : (length content == length content) ≡ true = ground arith in
      rw (restore_blob, stored_blob, e, large, same) refl

  -- The rows that `save` writes for blobs that the disk holds are read back as what is stored of them.
  pub blob_entries-ReadsBlobs :
      (writable : ℕ → Bool) (m : Map Digest Blob) (files : Map ℕ Bytes)
      → Unique m
      → DigestKeys m
      → All (λ e. Held disk base e.1) m
      → ReadsBlobs m (blob_entries writable m files)
  unfolding blob_entries load_blobs lookup
  blob_entries-ReadsBlobs writable [] files u g h = λ k acc. refl
  blob_entries-ReadsBlobs writable ((d, Blob.on_disk id size media t) ∷ m) files u g h =
      add_row-ReadsBlobs d (Blob.on_disk id size media t) _ m (blob_entries writable m files) g.0
        refl (on_disk_back d id size media t h.0) u.0
        (blob_entries-ReadsBlobs writable m files u.1 g.1 h.1)
  blob_entries-ReadsBlobs writable ((d, Blob.in_memory id content media t) ∷ m) files u g h =
      let b = Blob.in_memory id content media t in
      elim (Bool-cases (leb (length content) snapshot_inline_threshold)) [
        | inl small ↦ rw small (
            add_row-ReadsBlobs d b _ m (blob_entries writable m files) g.0 refl
              (small_back d id content media t small) u.0
              (blob_entries-ReadsBlobs writable m files u.1 g.1 h.1))
        | inr large ↦ elim (Bool-cases (writable id)) [
          | inl w ↦
              rw (large, w)
                (add_row-ReadsBlobs d b _ m (blob_entries writable m (insert id content files)) g.0
                  refl (large_back d id content media t large h.0) u.0
                  (blob_entries-ReadsBlobs writable m (insert id content files) u.1 g.1 h.1))
          | inr w ↦ rw (large, w) tt
        ]
      ]
