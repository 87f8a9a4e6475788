-- ===== src/Snapshot/Blobs.antt =====
-- The rows that `save` of src/snapshot.rs writes for the blobs against what `load` makes of them.
pub mod Reads
use mathlib.Core.Path.{subst}
use mathlib.Core.Logic.{if_pos, if_neg}
use dockfoxprox.Base.{
  ℕ, ◌≡◌, refl, sym, ap, ◌∙◌, ◌==◌, Bool, true, false, Option, none, some, List, [], ◌∷◌, Bytes,
  length, leb, if◌then◌else◌, Bool-cases, ◌⊎◌, inl, inr, All,
}
use dockfoxprox.Base.Map.{Map, lookup, insert, Unique, lookup-insert_self, lookup-insert_ne}
use dockfoxprox.Base.Text.{bytes_key, nat_key, Bytes-discrete}
use dockfoxprox.Digest.{display}
use dockfoxprox.Digest.RoundTrip.{parse-display}
use dockfoxprox.State.{Digest, Blob}
use dockfoxprox.Snapshot.Save.{BlobEntry, Spilled, add_row, blob_entries, snapshot_inline_threshold}
use dockfoxprox.Snapshot.Load.{restore_blob, load_blob, load_blobs}
use dockfoxprox.Snapshot.RoundTrip.{over, mapped, over-insert-mapped, DigestKeys}
use dockfoxprox.Snapshot.Files.{blob_ids, IsFresh, Distinct, Agrees, blob_entries-files}

-- What becomes of a blob over a restart: one that is not small is on disk.
unfoldable pub stored_blob : Blob → Blob
stored_blob (Blob.in_memory id content media t) =
    if leb (length content) snapshot_inline_threshold
    then Blob.in_memory id content media t
    else Blob.on_disk id (length content) media t
stored_blob (Blob.on_disk id size media t) = Blob.on_disk id size media t

-- The bytes of a blob, wherever it is.
abbrev pub bytes_of : Map ℕ Bytes → Option Blob → Option Bytes
bytes_of files none = none
bytes_of files (some (Blob.in_memory id content media t)) = some content
bytes_of files (some (Blob.on_disk id size media t)) = lookup id files

-- A blob on disk has a file of its size.
abbrev pub HasFile : Map ℕ Bytes → Blob → Type 0
HasFile files (Blob.in_memory id content media t) = Unit
HasFile files (Blob.on_disk id size media t) =
    (file : Bytes) × (lookup id files ≡ some file) × ((length file == size) ≡ true)

abbrev pub HaveFiles : Map ℕ Bytes → Map Digest Blob → Type 0
HaveFiles files = All (λ e. HasFile files e.1)

pub Agrees-insert :
    (id : ℕ) (content : Bytes) (a b : Map ℕ Bytes) (ids : List ℕ)
    → IsFresh id ids
    → Agrees a b ids
    → Agrees (insert id content a) b ids
Agrees-insert id content a b [] f h = tt
Agrees-insert id content a b (i ∷ ids) f h = (
  lookup-insert_ne i id content a (λ e. f.0 (sym e)) ∙ h.0,
  Agrees-insert id content a b ids f.1 h.1,
)

module _ (disk base : Map ℕ Bytes) where
  -- A blob that a disk has what `load` needs of, with the bytes that it had.
  abbrev pub Held : Blob → Type 0
  Held (Blob.in_memory id content media t) =
      (leb (length content) snapshot_inline_threshold ≡ true) ⊎ (lookup id disk ≡ some content)
  Held (Blob.on_disk id size media t) =
      (file : Bytes) × (lookup id base ≡ some file)
      × (lookup id disk ≡ some file)
      × ((length file == size) ≡ true)

  -- All blobs are held if the disk has still what was written for them.
  abbrev pub HeldIf : List ℕ → Type 0 → {R : Type 0} → Spilled R → Type 0
  HeldIf ids P (files, none) = Unit
  HeldIf ids P (files, some rows) = Agrees disk files ids → P

  pub add_row-HeldIf :
      (id : ℕ) (ids : List ℕ) (P Q : Type 0) {R : Type 0} (row : R) (r : Spilled R)
      → (lookup id disk ≡ lookup id r.0 → Q)
      → HeldIf ids P r
      → HeldIf (id ∷ ids) (Q × P) (add_row row r)
  unfolding add_row
  add_row-HeldIf id ids P Q row (files, none) q h = tt
  add_row-HeldIf id ids P Q row (files, some rows) q h = λ a. (q a.0, h a.1)

  pub blob_entries-HeldIf :
      (writable : ℕ → Bool) (m : Map Digest Blob) (files : Map ℕ Bytes)
      → Distinct (blob_ids m)
      → HaveFiles base m
      → Agrees files base (blob_ids m)
      → HeldIf (blob_ids m) (All (λ e. Held e.1) m) (blob_entries writable m files)
  unfolding blob_entries
  blob_entries-HeldIf writable [] files u h a = λ _. tt
  blob_entries-HeldIf writable ((d, Blob.on_disk id size media t) ∷ m) files u h a =
      let (file, e, l) = h.0 in
      add_row-HeldIf id (blob_ids m) _ _ _ (blob_entries writable m files)
        (λ same. (file, e, same ∙ blob_entries-files writable m files id u.0 ∙ a.0 ∙ e, l))
        (blob_entries-HeldIf writable m files u.1 h.1 a.1)
  blob_entries-HeldIf writable ((d, Blob.in_memory id content media t) ∷ m) files u h a =
      elim (Bool-cases (leb (length content) snapshot_inline_threshold)) [
        | inl small ↦ rw small (
            add_row-HeldIf id (blob_ids m) _ _ _ (blob_entries writable m files) (λ _. inl refl)
              (blob_entries-HeldIf writable m files u.1 h.1 a.1))
        | inr large ↦ elim (Bool-cases (writable id)) [
          | inl w ↦
              let files' = insert id content files in
              rw (large, w)
                (add_row-HeldIf id (blob_ids m) _ _ _ (blob_entries writable m files')
                  (λ same. inr (
                    same
                    ∙ blob_entries-files writable m files' id u.0
                    ∙ lookup-insert_self id content files))
                  (blob_entries-HeldIf writable m files' u.1 h.1
                    (Agrees-insert id content files base (blob_ids m) u.0 a.1)))
          | inr w ↦ rw (large, w) tt
        ]
      ]

  Held-bytes_of :
      (b : Blob) → Held b → bytes_of disk (some (stored_blob b)) ≡ bytes_of base (some b)
  unfolding stored_blob
  Held-bytes_of (Blob.on_disk id size media t) (file, e, f, l) = f ∙ sym e
  Held-bytes_of (Blob.in_memory id content media t) h =
      elim (Bool-cases (leb (length content) snapshot_inline_threshold)) [
        | inl small ↦ rw small refl
        | inr large ↦ elim h [ inl small ↦ absurd (cc (sym small ∙ large)) | inr e ↦ rw large e ]
      ]

  -- Every blob that is held has the bytes that it had.
  pub lookup-bytes_of :
      (k : Digest) (m : Map Digest Blob)
      → All (λ e. Held e.1) m
      → bytes_of disk (mapped stored_blob (lookup k m)) ≡ bytes_of base (lookup k m)
  unfolding lookup
  lookup-bytes_of k [] h = refl
  lookup-bytes_of k ((d, b) ∷ m) h = elim (Bytes-discrete k d) [
    | yes p ↦ rw (if_pos (Bytes-discrete k d) p (some b) (lookup k m)) (Held-bytes_of b h.0)
    | no p ↦ rw (if_neg (Bytes-discrete k d) p (some b) (lookup k m)) (lookup-bytes_of k m h.1)
  ]
