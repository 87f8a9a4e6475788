-- ===== src/Snapshot/Restart.antt =====
-- A restart: `save` and then `load_or_wipe` of src/snapshot.rs.
use dockfoxprox.Base.{
  ℕ, ◌≡◌, refl, ◌∙◌, arith, Bool, true, Option, none, some, List, [], Bytes, inl, inr, Option-cases,
  Bool-cases, ap, ◌++◌, All,
}
use dockfoxprox.Base.Map.{Map, lookup, Unique}
use dockfoxprox.Base.Text.{bytes_key, nat_key, pair_key}
use dockfoxprox.State.{State, Digest, new}
use dockfoxprox.Snapshot.Recount.{recompute_usage}
use dockfoxprox.Snapshot.Save.{
  BlobEntry, RedisRow, Spilled, Snapshot, Folder, snapshot_of, write_snapshot, after_rows,
  after_blobs, blob_entries, redis_rows, save,
}
use dockfoxprox.Snapshot.Load.{Answers, refill, restore, load, after_load, load_or_wipe}
use dockfoxprox.Snapshot.RoundTrip.{
  over, mapped, DigestKeys, DigestValues, stored?, Reads, load_manifests-entries, load_tags-entries,
  redis_rows-Reads,
}
use dockfoxprox.Snapshot.Files.{
  blob_ids, redis_ids, Distinct, Distinct-front, Distinct-back, Agrees, Agrees-refl,
  redis_rows-Agrees, blob_entries-Agrees,
}
use dockfoxprox.Snapshot.Blobs.{
  stored_blob, bytes_of, HaveFiles, Held, HeldIf, blob_entries-HeldIf, lookup-bytes_of,
}
use dockfoxprox.Snapshot.Rows.{value_of, HeldRow, redis_rows-HeldIf, lookup-value_of}
use dockfoxprox.Snapshot.Blobs.Reads.{ReadsBlobs, blob_entries-ReadsBlobs}

-- The manifests and the tags of another state, its redis entries and blobs as they are stored, and the
-- bytes of each blob and redis value, wherever they are.
pub record Restored (s t : State) : Type 0 where
  pub manifests : (k : Digest) → lookup k t.manifests ≡ lookup k s.manifests
  pub tags : (k : Bytes × Bytes) → lookup k t.tags ≡ lookup k s.tags
  pub redis_entries : (k : Bytes) → lookup k t.redis_entries ≡ stored? (lookup k s.redis_entries)
  pub redis_values :
      (k : Bytes)
      → value_of t.disk (lookup k t.redis_entries) ≡ value_of s.disk (lookup k s.redis_entries)
  pub blobs : (k : Digest) → lookup k t.blobs ≡ mapped stored_blob (lookup k s.blobs)
  pub blob_bytes :
      (k : Digest) → bytes_of t.disk (lookup k t.blobs) ≡ bytes_of s.disk (lookup k s.blobs)
  pub next_id : t.next_id ≡ s.next_id

-- What the caches satisfy: keys and ids that are all different, digests of 32 bytes, and a file of the
-- right size for every blob on disk.
pub record IsSavable (s : State) : Type 0 where
  pub manifests_Unique : Unique s.manifests
  pub manifests_DigestKeys : DigestKeys s.manifests
  pub tags_Unique : Unique s.tags
  pub tags_DigestValues : DigestValues s.tags
  pub redis_Unique : Unique s.redis_entries
  pub blobs_Unique : Unique s.blobs
  pub blobs_DigestKeys : DigestKeys s.blobs
  pub blobs_HaveFiles : HaveFiles s.disk s.blobs
  pub ids_Distinct : Distinct (blob_ids s.blobs ++ redis_ids s.redis_entries)

over-none : {V : Type 0} (o : Option V) → over o none ≡ o
over-none none = refl
over-none (some v) = refl

restore-Restored :
    (s : State) (bs : List BlobEntry) (rs : List RedisRow) (now : ℕ) (files : Map ℕ Bytes)
    → IsSavable s
    → Reads s.redis_entries (files, some rs)
    → All (λ e. HeldRow files s.disk e.1) s.redis_entries
    → All (λ e. Held files s.disk e.1) s.blobs
    → ReadsBlobs files s.disk s.blobs (files, some bs)
    → Restored s (restore (snapshot_of s bs rs) (new s.config now files))
unfolding restore refill recompute_usage lookup
restore-Restored s bs rs now files h reads rows held back = record {
  manifests = λ k.
      load_manifests-entries k s.manifests [] h.manifests_Unique h.manifests_DigestKeys
      ∙ over-none _;
  tags = λ k. load_tags-entries k s.tags [] h.tags_Unique h.tags_DigestValues ∙ over-none _;
  redis_entries = λ k. reads k [] ∙ over-none _;
  redis_values = λ k.
      ap (value_of files) (reads k [] ∙ over-none _)
      ∙ lookup-value_of files s.disk k s.redis_entries rows;
  blobs = λ k. back k [] ∙ over-none _;
  blob_bytes = λ k.
      ap (bytes_of files) (back k [] ∙ over-none _) ∙ lookup-bytes_of files s.disk k s.blobs held;
  next_id = refl;
}

module _ (decode : Bytes → Option Snapshot) (env : Answers) where
  load_or_wipe-snapshot_of :
      (s fresh : State) (bs : List BlobEntry) (rs : List RedisRow) (folder : Folder) (buf : Bytes)
      → env.readable ≡ true
      → folder.snapshot ≡ some buf
      → decode buf ≡ some (snapshot_of s bs rs)
      → (load_or_wipe decode env fresh folder).0 ≡ restore (snapshot_of s bs rs) fresh
  unfolding load_or_wipe load after_load
  load_or_wipe-snapshot_of s fresh bs rs folder buf r e d = rw (e, r, d, load_or_wipe, load) refl

module _ (encode : Snapshot → Option Bytes) (decode : Bytes → Option Snapshot) (writable : ℕ → Bool)
    (wrote renamed : Bool) (env : Answers) where
  -- What a restart at the time `now` leads to, from what `save` left.
  abbrev pub restart : ℕ → State × Folder × Bool → State
  restart now (s, folder, good) = (load_or_wipe decode env (new s.config now s.disk) folder).0

  abbrev RestoresIfSaved : State → State × Folder × Bool → Type 0
  RestoresIfSaved s saved = saved.2 ≡ true → (now : ℕ) → Restored s (restart now saved)

  after_rows-Restored :
      (s : State) (folder : Folder) (bs : List BlobEntry) (r : Spilled RedisRow)
      → ((snap : Snapshot) (buf : Bytes) → encode snap ≡ some buf → decode buf ≡ some snap)
      → env.readable ≡ true
      → IsSavable s
      → Reads s.redis_entries r
      → HeldIf r.0 s.disk
          (redis_ids s.redis_entries)
          (All (λ e. HeldRow r.0 s.disk e.1) s.redis_entries)
          r
      → All (λ e. Held r.0 s.disk e.1) s.blobs
      → ReadsBlobs r.0 s.disk s.blobs (r.0, some bs)
      → RestoresIfSaved s (after_rows encode wrote renamed r bs s folder)
  unfolding after_rows write_snapshot
  after_rows-Restored s folder bs (files, none) coded r h reads rows held back =
      λ good now. absurd (ground arith)
  after_rows-Restored s folder bs (files, some rs) coded r h reads rows held back =
      elim (Option-cases (encode (snapshot_of s bs rs))) [
        | inl e ↦ rw (e, write_snapshot) (λ good now. absurd (ground arith))
        | inr (buf, e) ↦ elim (Bool-cases wrote) [
          | inr w ↦ rw (e, w, write_snapshot) (λ good now. absurd (ground arith))
          | inl w ↦ elim (Bool-cases renamed) [
            | inr n ↦ rw (e, w, n, write_snapshot) (λ good now. absurd (ground arith))
            | inl n ↦
                rw (e, w, n, write_snapshot)
                  (λ good now.
                    rw
                      (load_or_wipe-snapshot_of decode env s (new s.config now files) bs rs
                        (record { snapshot = some buf; tmp = none }) buf r refl
                        (coded (snapshot_of s bs rs) buf e))
                      (restore-Restored s bs rs now files h reads
                        (rows (Agrees-refl files (redis_ids s.redis_entries))) held back))
          ]
        ]
      ]

  -- The disk after the rows of the redis entries.
  abbrev written : State → Map ℕ Bytes → Map ℕ Bytes
  written s files = (redis_rows writable s.redis_entries files).0

  after_blobs-Restored :
      (s : State) (folder : Folder) (b : Spilled BlobEntry)
      → ((snap : Snapshot) (buf : Bytes) → encode snap ≡ some buf → decode buf ≡ some snap)
      → env.readable ≡ true
      → IsSavable s
      → Agrees b.0 s.disk (redis_ids s.redis_entries)
      → HeldIf
          (written s b.0)
          s.disk
          (blob_ids s.blobs)
          (All (λ e. Held (written s b.0) s.disk e.1) s.blobs)
          b
      → (All (λ e. Held (written s b.0) s.disk e.1) s.blobs
          → ReadsBlobs (written s b.0) s.disk s.blobs b)
      → RestoresIfSaved s (after_blobs encode writable wrote renamed b s folder)
  unfolding after_blobs
  after_blobs-Restored s folder (files, none) coded r h same held back =
      λ good now. absurd (ground arith)
  after_blobs-Restored s folder (files, some bs) coded r h same held back =
      let kept =
        held (redis_rows-Agrees writable s.redis_entries files (blob_ids s.blobs) h.ids_Distinct) in
      after_rows-Restored s folder bs (redis_rows writable s.redis_entries files) coded r h
        (redis_rows-Reads writable s.redis_entries files h.redis_Unique)
        (redis_rows-HeldIf (written s files) s.disk writable s.redis_entries files
          (Distinct-back (blob_ids s.blobs) (redis_ids s.redis_entries) h.ids_Distinct) same)
        kept (back kept)

  -- After a `save` that succeeded, a restart has every manifest and every tag that there was, every
  -- redis entry, in memory if its value is small and else on disk, with the bytes of the value that it
  -- had in memory or in its file, every blob likewise, and the next id, whenever it takes place. It is so if what is encoded
  -- is decoded again, the snapshot can be read, and the caches have one entry a key, digests of 32
  -- bytes, a different id for each blob and redis entry, and a file of its size for each blob on disk.
  pub save-Restored :
      (s : State) (folder : Folder)
      → ((snap : Snapshot) (buf : Bytes) → encode snap ≡ some buf → decode buf ≡ some snap)
      → env.readable ≡ true
      → IsSavable s
      → (save encode writable wrote renamed s folder).2 ≡ true
      → (now : ℕ) → Restored s (restart now (save encode writable wrote renamed s folder))
  unfolding save
  save-Restored s folder coded r h good now =
      let rows = blob_entries writable s.blobs s.disk in
      let disk = written s rows.0 in
      after_blobs-Restored s folder rows coded r h
        (blob_entries-Agrees writable s.blobs s.disk (redis_ids s.redis_entries) h.ids_Distinct)
        (blob_entries-HeldIf disk s.disk writable s.blobs s.disk
          (Distinct-front (blob_ids s.blobs) (redis_ids s.redis_entries) h.ids_Distinct)
          h.blobs_HaveFiles (Agrees-refl s.disk (blob_ids s.blobs)))
        (blob_entries-ReadsBlobs disk s.disk writable s.blobs s.disk h.blobs_Unique
          h.blobs_DigestKeys)
        good now
