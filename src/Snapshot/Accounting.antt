-- ===== src/Snapshot/Accounting.antt =====
-- The usage counters after a snapshot is loaded, or the cache wiped; src/snapshot.rs.
use dockfoxprox.Base.{
  ℕ, ◌+◌, ◌^◌, ◌%◌, ◌≡◌, refl, arith, true, Option, none, some, [], ◌∷◌, Bytes, length, ltb,
  Bool-cases, ◌==◌, inl, inr,
}
use dockfoxprox.Base.Map.{Map, sum_by}
use dockfoxprox.State.{
  State, Digest, Manifest, Blob, RedisEntry, blob_bucket, redis_value_bucket, memory_tier_threshold,
}
use dockfoxprox.State.Buckets.{Bucket, charge, fetch_add-charge}
use dockfoxprox.State.Measure.{manifest_weight, blob_weight, redis_weight, measured, IsAccounted}
use dockfoxprox.Snapshot.Recount.{
  Recount, add, see_small, empty_recount, recount_manifests, recount_blob, recount_blobs,
  recount_value, recount_redis, recompute_usage,
}
use dockfoxprox.Snapshot.Save.{Snapshot, Folder, snapshot_version}
use dockfoxprox.Snapshot.Load.{
  Loaded, ok, failed, missing, other, Answers, refill, restore, clear, load, wipe_cache, after_load,
  load_or_wipe,
}

-- The sum of one bucket stands at a total.
abbrev StandsAt : Bucket → ℕ → Recount → Type 0
StandsAt c n r = r.sums c ≡ n % 2 ^ 64

add-StandsAt :
    (c b : Bucket) (amount n : ℕ) (r : Recount)
    → StandsAt c n r
    → StandsAt c (n + charge c (b, amount)) (add b amount r)
add-StandsAt c b amount n r h = fetch_add-charge c b amount r.sums n h

recount_blob-StandsAt :
    (c : Bucket) (b : Blob) (n : ℕ) (r : Recount)
    → StandsAt c n r
    → StandsAt c (n + charge c (blob_bucket b)) (recount_blob b r)
unfolding recount_blob blob_bucket
recount_blob-StandsAt c (Blob.in_memory id content media t) n r h =
    elim (Bool-cases (ltb memory_tier_threshold (length content))) [
      | inl e ↦ rw e (add-StandsAt c Bucket.large_blob_memory (length content) n r h)
      | inr e ↦ rw e (add-StandsAt c Bucket.small_blob_memory (length content) n r h)
    ]
recount_blob-StandsAt c (Blob.on_disk id size media t) n r h =
    add-StandsAt c Bucket.blob_disk size n r h

recount_value-StandsAt :
    (c : Bucket) (e : RedisEntry) (n : ℕ) (r : Recount)
    → StandsAt c n r
    → StandsAt c (n + charge c (redis_value_bucket e)) (recount_value e r)
unfolding recount_value redis_value_bucket
recount_value-StandsAt c (RedisEntry.in_memory value id t) n r h =
    elim (Bool-cases (ltb memory_tier_threshold (length value))) [
      | inl e ↦ rw e (add-StandsAt c Bucket.large_redis_memory (length value) n r h)
      | inr e ↦ rw e (add-StandsAt c Bucket.small_redis_memory (length value) n r h)
    ]
recount_value-StandsAt c (RedisEntry.on_disk size id t) n r h =
    add-StandsAt c Bucket.redis_disk size n r h

recount_manifests-StandsAt :
    (c : Bucket) (m : Map Digest Manifest) (n : ℕ) (r : Recount)
    → StandsAt c n r
    → StandsAt c (n + sum_by (manifest_weight c) m) (recount_manifests m r)
unfolding recount_manifests sum_by
recount_manifests-StandsAt c [] n r h = omega (arith, h)
recount_manifests-StandsAt c ((d, m) ∷ ms) n r h =
    let next =
      recount_manifests-StandsAt c ms (n + manifest_weight c d m)
        (see_small m.last_used (add Bucket.manifest_memory (length m.content) r))
        (add-StandsAt c Bucket.manifest_memory (length m.content) n r h) in
    omega (arith, next)

recount_blobs-StandsAt :
    (c : Bucket) (m : Map Digest Blob) (n : ℕ) (r : Recount)
    → StandsAt c n r
    → StandsAt c (n + sum_by (blob_weight c) m) (recount_blobs m r)
unfolding recount_blobs sum_by
recount_blobs-StandsAt c [] n r h = omega (arith, h)
recount_blobs-StandsAt c ((d, b) ∷ m) n r h =
    let next =
      recount_blobs-StandsAt c m (n + blob_weight c d b) (recount_blob b r)
        (recount_blob-StandsAt c b n r h) in
    omega (arith, next)

recount_redis-StandsAt :
    (c : Bucket) (m : Map Bytes RedisEntry) (n : ℕ) (r : Recount)
    → StandsAt c n r
    → StandsAt c (n + sum_by (redis_weight c) m) (recount_redis m r)
unfolding recount_redis sum_by
recount_redis-StandsAt c [] n r h = omega (arith, h)
recount_redis-StandsAt c ((k, e) ∷ m) n r h =
    let key = add-StandsAt c Bucket.small_redis_memory (length k) n r h in
    let next =
      recount_redis-StandsAt c m
        (n + charge c (Bucket.small_redis_memory, length k) + charge c (redis_value_bucket e))
        (recount_value e (add Bucket.small_redis_memory (length k) r))
        (recount_value-StandsAt c e _ (add Bucket.small_redis_memory (length k) r) key) in
    omega (arith, next)

-- Whatever the counters held before, after `recompute_usage` each holds the bytes that the caches
-- hold in its bucket, modulo 2^64.
pub recompute_usage-IsAccounted : (s : State) → IsAccounted (recompute_usage s)
unfolding recompute_usage measured
recompute_usage-IsAccounted s c =
    let ms = recount_manifests-StandsAt c s.manifests 0 empty_recount refl in
    let r = recount_manifests s.manifests empty_recount in
    let bs = recount_blobs-StandsAt c s.blobs _ r ms in
    let rs = recount_redis-StandsAt c s.redis_entries _ (recount_blobs s.blobs r) bs in
    omega (arith, rs)

restore-IsAccounted : (snap : Snapshot) (s : State) → IsAccounted (restore snap s)
unfolding restore measured
restore-IsAccounted snap s c = recompute_usage-IsAccounted (refill snap s) c

module _ (decode : Bytes → Option Snapshot) (env : Answers) where
  wipe_cache-IsAccounted : (s : State) → IsAccounted (wipe_cache decode env s)
  unfolding wipe_cache measured
  wipe_cache-IsAccounted s c = recompute_usage-IsAccounted (clear decode env s) c

  -- What `load` leaves: a state whose counters are right, or an error.
  abbrev LoadedRight : Loaded → Type 0
  LoadedRight (ok s) = IsAccounted s
  LoadedRight (failed e) = Unit

  load-LoadedRight : (s : State) (folder : Folder) → LoadedRight (load decode env s folder)
  unfolding load
  load-LoadedRight s folder = read folder.snapshot refl
    where
      decoded :
          (o : Option Snapshot) (buf : Bytes)
          → decode buf ≡ o
          → folder.snapshot ≡ some buf
          → (env.readable ≡ true)
          → LoadedRight (load decode env s folder)
      decoded none buf d e r = rw (e, r, d, load) tt
      decoded (some snap) buf d e r = elim (Bool-cases (snap.version == snapshot_version)) [
        | inl v ↦ rw (e, r, d, v, load) (restore-IsAccounted snap s)
        | inr v ↦ rw (e, r, d, v, load) tt
      ]

      read : (o : Option Bytes) → folder.snapshot ≡ o → LoadedRight (load decode env s folder)
      read none e = rw (e, load) tt
      read (some buf) e = elim (Bool-cases env.readable) [
        | inl r ↦ decoded (decode buf) buf refl e r
        | inr r ↦ rw (e, r, load) tt
      ]

  after_load-IsAccounted :
      (l : Loaded) (s : State) (folder : Folder)
      → LoadedRight l
      → IsAccounted (after_load decode env l s folder).0
  unfolding after_load
  after_load-IsAccounted (ok loaded) s folder h = h
  after_load-IsAccounted (failed missing) s folder h = wipe_cache-IsAccounted s
  after_load-IsAccounted (failed other) s folder h = wipe_cache-IsAccounted s

  -- Whatever the snapshot file holds and whatever the file system answers, the start leaves counters
  -- that hold the bytes in the caches, modulo 2^64.
  pub load_or_wipe-IsAccounted :
      (s : State) (folder : Folder) → IsAccounted (load_or_wipe decode env s folder).0
  unfolding load_or_wipe
  load_or_wipe-IsAccounted s folder =
      after_load-IsAccounted (load decode env s folder) s folder (load-LoadedRight s folder)
