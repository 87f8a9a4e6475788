-- ===== src/Metrics/Render.antt =====
-- The text that `render` of src/metrics.rs publishes for Prometheus.
use dockfoxprox.Base.{ℕ, ◌^◌, List, [], ◌∷◌, ◌++◌, Bytes, bytes, length, ltb, if◌then◌else◌}
use dockfoxprox.Config.{small_memory_limit}
use dockfoxprox.State.{
  State, small_memory_usage, large_memory_usage, total_memory_usage, total_disk_usage,
}
use dockfoxprox.State.Buckets.{Bucket}
use dockfoxprox.Redis.Text.{decimal}

-- The arguments of one call of `write_metric`.
pub record Metric : Type 0 where
  pub name : Bytes
  pub help : Bytes
  pub kind : Bytes
  pub value : ℕ

abbrev counter : Bytes → Bytes → ℕ → Metric
counter name help value = record { name = name; help = help; kind = bytes "counter"; value = value }

abbrev gauge : Bytes → Bytes → ℕ → Metric
gauge name help value = record { name = name; help = help; kind = bytes "gauge"; value = value }

-- `.max(0) as u64` of a 64-bit cell read as signed.
unfoldable pub at_least_zero : ℕ → ℕ
at_least_zero n = if ltb n (2 ^ 63) then n else 0

unfoldable pub gauges : State → List Metric
unfolding at_least_zero small_memory_usage large_memory_usage total_memory_usage total_disk_usage
gauges s =
    gauge (bytes "dockfoxprox_memory_usage_bytes")
      (bytes "Total in-memory cache size (manifests + blobs + redis entries).")
      (at_least_zero (total_memory_usage s))
    ∷ gauge (bytes "dockfoxprox_small_memory_usage_bytes")
        (bytes "Small-pool memory usage (manifests + small blobs + small redis entries).")
        (at_least_zero (small_memory_usage s))
    ∷ gauge (bytes "dockfoxprox_large_memory_usage_bytes")
        (bytes "Large-pool memory usage (large in-memory blobs + large redis entries).")
        (at_least_zero (large_memory_usage s))
    ∷ gauge (bytes "dockfoxprox_disk_usage_bytes")
        (bytes "Total on-disk cache size (blobs + redis entries).")
        (at_least_zero (total_disk_usage s))
    ∷ gauge (bytes "dockfoxprox_manifest_memory_usage_bytes")
        (bytes "Bytes of manifest content held in memory.")
        (at_least_zero (s.usage Bucket.manifest_memory))
    ∷ gauge (bytes "dockfoxprox_small_blob_memory_usage_bytes")
        (bytes "Bytes of small in-memory blob content (at or below the small/large threshold).")
        (at_least_zero (s.usage Bucket.small_blob_memory))
    ∷ gauge (bytes "dockfoxprox_large_blob_memory_usage_bytes")
        (bytes "Bytes of large in-memory blob content (above the small/large threshold).")
        (at_least_zero (s.usage Bucket.large_blob_memory))
    ∷ gauge (bytes "dockfoxprox_small_redis_memory_usage_bytes")
        (bytes
          "Bytes of small in-memory redis entries (key + value, value at or below the threshold).")
        (at_least_zero (s.usage Bucket.small_redis_memory))
    ∷ gauge (bytes "dockfoxprox_large_redis_memory_usage_bytes")
        (bytes "Bytes of large in-memory redis entries (key + value, value above the threshold).")
        (at_least_zero (s.usage Bucket.large_redis_memory))
    ∷ gauge (bytes "dockfoxprox_blob_disk_usage_bytes")
        (bytes "Bytes of blob content stored on disk.") (at_least_zero (s.usage Bucket.blob_disk))
    ∷ gauge (bytes "dockfoxprox_redis_disk_usage_bytes")
        (bytes "Bytes of redis-protocol entries stored on disk.")
        (at_least_zero (s.usage Bucket.redis_disk))
    ∷ gauge (bytes "dockfoxprox_oldest_small_memory_touch_time_seconds")
        (bytes "Unix time of the oldest last_accessed across small-pool items (0 if none).")
        (s.metrics.oldest_small_memory_touch_time)
    ∷ gauge (bytes "dockfoxprox_oldest_large_memory_touch_time_seconds")
        (bytes "Unix time of the oldest last_accessed across large-pool items (0 if none).")
        (s.metrics.oldest_large_memory_touch_time)
    ∷ gauge (bytes "dockfoxprox_oldest_disk_touch_time_seconds")
        (bytes "Unix time of the oldest last_accessed across disk-pool items (0 if none).")
        (s.metrics.oldest_disk_touch_time)
    ∷ gauge (bytes "dockfoxprox_memory_limit_bytes") (bytes "Configured total memory budget.")
        (s.config.memory_limit)
    ∷ gauge (bytes "dockfoxprox_small_memory_limit_bytes")
        (bytes "Configured small-pool reservation within the memory budget.")
        (small_memory_limit s.config)
    ∷ gauge (bytes "dockfoxprox_disk_limit_bytes") (bytes "Configured on-disk budget.")
        (s.config.disk_limit)
    ∷ gauge (bytes "dockfoxprox_blobs_cached")
        (bytes "Number of blobs currently in the cache (memory + disk).") (length s.blobs)
    ∷ gauge (bytes "dockfoxprox_manifests_cached")
        (bytes "Number of manifests currently in the cache.") (length s.manifests)
    ∷ gauge (bytes "dockfoxprox_tags_cached") (bytes "Number of `self`-host tag mappings.")
        (length s.tags)
    ∷ gauge (bytes "dockfoxprox_uploads_in_progress") (bytes "Number of in-flight blob uploads.")
        (length s.uploads)
    ∷ gauge (bytes "dockfoxprox_redis_entries")
        (bytes "Number of entries in the Redis-protocol cache.") (length s.redis_entries)
    ∷ gauge (bytes "dockfoxprox_upstream_tokens_cached")
        (bytes "Number of cached upstream bearer tokens.") (length s.tokens)
    ∷ []

unfoldable pub docker_counters : State → List Metric
docker_counters s =
    counter (bytes "dockfoxprox_docker_manifest_get_total") (bytes "Manifest GET requests served.")
      (s.metrics.docker_manifest_get)
    ∷ counter (bytes "dockfoxprox_docker_manifest_head_total")
        (bytes "Manifest HEAD requests served.") (s.metrics.docker_manifest_head)
    ∷ counter (bytes "dockfoxprox_docker_manifest_put_total")
        (bytes "Manifest PUT requests served.") (s.metrics.docker_manifest_put)
    ∷ counter (bytes "dockfoxprox_docker_manifest_cache_hit_total")
        (bytes "Manifest lookups served from cache.") (s.metrics.docker_manifest_cache_hit)
    ∷ counter (bytes "dockfoxprox_docker_manifest_cache_miss_total")
        (bytes "Manifest lookups that required an upstream fetch.")
        (s.metrics.docker_manifest_cache_miss)
    ∷ counter (bytes "dockfoxprox_docker_blob_get_total") (bytes "Blob GET requests served.")
        (s.metrics.docker_blob_get)
    ∷ counter (bytes "dockfoxprox_docker_blob_head_total") (bytes "Blob HEAD requests served.")
        (s.metrics.docker_blob_head)
    ∷ counter (bytes "dockfoxprox_docker_blob_cache_hit_memory_total")
        (bytes "Blob lookups served from the in-memory tier.")
        (s.metrics.docker_blob_cache_hit_memory)
    ∷ counter (bytes "dockfoxprox_docker_blob_cache_hit_disk_total")
        (bytes "Blob lookups served from the on-disk tier.") (s.metrics.docker_blob_cache_hit_disk)
    ∷ counter (bytes "dockfoxprox_docker_blob_cache_miss_total")
        (bytes "Blob lookups that required an upstream fetch.") (s.metrics.docker_blob_cache_miss)
    ∷ counter (bytes "dockfoxprox_docker_blob_upload_post_total")
        (bytes "Blob upload sessions started (POST).") (s.metrics.docker_blob_upload_post)
    ∷ counter (bytes "dockfoxprox_docker_blob_upload_patch_total")
        (bytes "Blob upload chunks received (PATCH).") (s.metrics.docker_blob_upload_patch)
    ∷ counter (bytes "dockfoxprox_docker_blob_upload_put_total")
        (bytes "Blob upload sessions finalised (PUT).") (s.metrics.docker_blob_upload_put)
    ∷ counter (bytes "dockfoxprox_docker_blob_upload_delete_total")
        (bytes "Blob upload sessions cancelled (DELETE).") (s.metrics.docker_blob_upload_delete)
    ∷ counter (bytes "dockfoxprox_docker_auth_failures_total")
        (bytes "Authentication failures against the docker endpoint.")
        (s.metrics.docker_auth_failures)
    ∷ counter (bytes "dockfoxprox_docker_upstream_requests_total")
        (bytes "Requests sent to upstream registries.") (s.metrics.docker_upstream_requests)
    ∷ counter (bytes "dockfoxprox_docker_upstream_errors_total")
        (bytes "Upstream requests that failed at the transport layer.")
        (s.metrics.docker_upstream_errors)
    ∷ []

unfoldable pub other_counters : State → List Metric
other_counters s =
    counter (bytes "dockfoxprox_redis_connections_total")
      (bytes "Redis-protocol connections accepted.") (s.metrics.redis_connections)
    ∷ counter (bytes "dockfoxprox_redis_commands_total")
        (bytes "Redis-protocol commands processed.") (s.metrics.redis_commands)
    ∷ counter (bytes "dockfoxprox_redis_get_hit_total")
        (bytes "Redis GET commands that returned a value.") (s.metrics.redis_get_hit)
    ∷ counter (bytes "dockfoxprox_redis_get_miss_total")
        (bytes "Redis GET commands that returned nil.") (s.metrics.redis_get_miss)
    ∷ counter (bytes "dockfoxprox_redis_set_total") (bytes "Redis SET commands served.")
        (s.metrics.redis_set)
    ∷ counter (bytes "dockfoxprox_redis_del_total") (bytes "Keys removed via DEL/UNLINK.")
        (s.metrics.redis_del)
    ∷ counter (bytes "dockfoxprox_redis_auth_failures_total")
        (bytes "Redis AUTH attempts with the wrong password.") (s.metrics.redis_auth_failures)
    ∷ counter (bytes "dockfoxprox_eviction_runs_total") (bytes "Eviction passes executed.")
        (s.metrics.eviction_runs)
    ∷ counter (bytes "dockfoxprox_eviction_blobs_to_disk_total")
        (bytes "Blobs demoted from memory to disk by eviction.") (s.metrics.eviction_blobs_to_disk)
    ∷ counter (bytes "dockfoxprox_eviction_blobs_deleted_total")
        (bytes "Blobs deleted (from memory or disk) by eviction.")
        (s.metrics.eviction_blobs_deleted)
    ∷ counter (bytes "dockfoxprox_eviction_manifests_deleted_total")
        (bytes "Manifests deleted by eviction.") (s.metrics.eviction_manifests_deleted)
    ∷ counter (bytes "dockfoxprox_eviction_redis_entries_total")
        (bytes "Redis entries dropped by eviction.") (s.metrics.eviction_redis_entries)
    ∷ []

-- What is published, in its order.
unfoldable pub published : State → List Metric
unfolding gauges docker_counters other_counters
published s = gauges s ++ docker_counters s ++ other_counters s

unfoldable pub write_metric : Metric → Bytes
unfolding decimal
write_metric m =
    bytes "# HELP "
    ++ m.name
    ++ bytes " "
    ++ m.help
    ++ bytes "\n"
    ++ bytes "# TYPE "
    ++ m.name
    ++ bytes " "
    ++ m.kind
    ++ bytes "\n"
    ++ m.name
    ++ bytes " "
    ++ decimal m.value
    ++ bytes "\n"

unfoldable pub write_metrics : List Metric → Bytes
unfolding write_metric
write_metrics [] = []
write_metrics (m ∷ ms) = write_metric m ++ write_metrics ms

unfoldable pub render : State → Bytes
unfolding published write_metrics
render s = write_metrics (published s)
