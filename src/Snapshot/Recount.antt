-- ===== src/Snapshot/Recount.antt =====
-- `recompute_usage` of src/snapshot.rs: the seven counters and the three touch times from scratch.
use Prim.Native.Nat.{min}
use dockfoxprox.Base.{ℕ, ◌-◌, ◌^◌, [], ◌∷◌, Bytes, length, ltb, ◌==◌, if◌then◌else◌}
use dockfoxprox.Base.Map.{Map}
use dockfoxprox.State.{State, Digest, Manifest, Blob, RedisEntry, memory_tier_threshold}
use dockfoxprox.State.Buckets.{Bucket, Usage, fetch_add}

abbrev pub u64_max : ℕ
u64_max = 2 ^ 64 - 1

-- The local variables: the seven sums by their bucket, which wrap like the counters, and the oldest
-- time of each pool.
pub record Recount : Type 0 where
  pub sums : Usage
  pub oldest_small : ℕ
  pub oldest_large : ℕ
  pub oldest_disk : ℕ

abbrev pub add : Bucket → ℕ → Recount → Recount
add b n r = record r { sums = fetch_add b n r.sums }

abbrev pub see_small : ℕ → Recount → Recount
see_small t r = record r { oldest_small = min r.oldest_small t }

abbrev pub see_large : ℕ → Recount → Recount
see_large t r = record r { oldest_large = min r.oldest_large t }

abbrev pub see_disk : ℕ → Recount → Recount
see_disk t r = record r { oldest_disk = min r.oldest_disk t }

unfoldable pub recount_manifests : Map Digest Manifest → Recount → Recount
recount_manifests [] r = r
recount_manifests ((d, m) ∷ ms) r =
    recount_manifests ms (see_small m.last_used (add Bucket.manifest_memory (length m.content) r))

unfoldable pub recount_blob : Blob → Recount → Recount
recount_blob (Blob.in_memory id content media t) r =
    if ltb memory_tier_threshold (length content)
    then see_large t (add Bucket.large_blob_memory (length content) r)
    else see_small t (add Bucket.small_blob_memory (length content) r)
recount_blob (Blob.on_disk id size media t) r = see_disk t (add Bucket.blob_disk size r)

unfoldable pub recount_blobs : Map Digest Blob → Recount → Recount
recount_blobs [] r = r
recount_blobs ((d, b) ∷ m) r = recount_blobs m (recount_blob b r)

unfoldable pub recount_value : RedisEntry → Recount → Recount
recount_value (RedisEntry.in_memory value id t) r =
    if ltb memory_tier_threshold (length value)
    then see_large t (add Bucket.large_redis_memory (length value) r)
    else see_small t (add Bucket.small_redis_memory (length value) r)
recount_value (RedisEntry.on_disk size id t) r = see_disk t (add Bucket.redis_disk size r)

-- The key is in memory wherever the value is.
unfoldable pub recount_redis : Map Bytes RedisEntry → Recount → Recount
recount_redis [] r = r
recount_redis ((k, e) ∷ m) r =
    recount_redis m (recount_value e (add Bucket.small_redis_memory (length k) r))

-- An empty pool has the time `now`.
unfoldable pub fallback : ℕ → ℕ → ℕ
fallback now v = if v == u64_max then now else v

abbrev pub empty_recount : Recount
empty_recount = record {
  sums = λ b. 0;
  oldest_small = u64_max;
  oldest_large = u64_max;
  oldest_disk = u64_max;
}

unfoldable pub recompute_usage : State → State
recompute_usage s =
    let r =
      recount_redis s.redis_entries
        (recount_blobs s.blobs (recount_manifests s.manifests empty_recount)) in
    record s {
      usage = r.sums;
      metrics = record (s.metrics) {
        oldest_small_memory_touch_time = fallback s.now r.oldest_small;
        oldest_large_memory_touch_time = fallback s.now r.oldest_large;
        oldest_disk_touch_time = fallback s.now r.oldest_disk;
      };
    }
