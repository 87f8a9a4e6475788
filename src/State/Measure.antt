-- ===== src/State/Measure.antt =====
-- What the usage counters of src/state.rs stand for: the bytes that the caches hold, bucket by
-- bucket.
use dockfoxprox.Base.{ℕ, ◌+◌, ◌%◌, ◌^◌, ◌≡◌, Bytes, length}
use dockfoxprox.Base.Map.{sum_by}
use dockfoxprox.State.{State, Digest, Manifest, Blob, RedisEntry, blob_bucket, redis_value_bucket}
use dockfoxprox.State.Buckets.{Bucket, charge}

abbrev pub manifest_weight : Bucket → Digest → Manifest → ℕ
manifest_weight c d m = charge c (Bucket.manifest_memory, length m.content)

abbrev pub blob_weight : Bucket → Digest → Blob → ℕ
blob_weight c d b = charge c (blob_bucket b)

-- The key stays in memory wherever the value is.
abbrev pub redis_weight : Bucket → Bytes → RedisEntry → ℕ
redis_weight c k r =
    charge c (Bucket.small_redis_memory, length k) + charge c (redis_value_bucket r)

unfoldable pub measured : Bucket → State → ℕ
measured c s =
    sum_by (manifest_weight c) s.manifests
    + sum_by (blob_weight c) s.blobs
    + sum_by (redis_weight c) s.redis_entries

-- Every counter holds the measured bytes, up to the wrap-around of a 64-bit cell.
abbrev pub IsAccounted : State → Type 0
IsAccounted s = (c : Bucket) → s.usage c ≡ measured c s % 2 ^ 64
