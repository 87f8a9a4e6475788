-- ===== src/Metrics.antt =====
-- The counters of src/metrics.rs, each an AtomicU64.
pub mod Render
use dockfoxprox.Base.{ℕ}

pub record Metrics : Type 0 where
  pub docker_manifest_get : ℕ
  pub docker_manifest_head : ℕ
  pub docker_manifest_put : ℕ
  pub docker_manifest_cache_hit : ℕ
  pub docker_manifest_cache_miss : ℕ
  pub docker_blob_get : ℕ
  pub docker_blob_head : ℕ
  pub docker_blob_cache_hit_memory : ℕ
  pub docker_blob_cache_hit_disk : ℕ
  pub docker_blob_cache_miss : ℕ
  pub docker_blob_upload_post : ℕ
  pub docker_blob_upload_patch : ℕ
  pub docker_blob_upload_put : ℕ
  pub docker_blob_upload_delete : ℕ
  pub docker_auth_failures : ℕ
  pub docker_upstream_requests : ℕ
  pub docker_upstream_errors : ℕ
  pub redis_connections : ℕ
  pub redis_commands : ℕ
  pub redis_get_hit : ℕ
  pub redis_get_miss : ℕ
  pub redis_set : ℕ
  pub redis_del : ℕ
  pub redis_auth_failures : ℕ
  pub eviction_runs : ℕ
  pub eviction_blobs_to_disk : ℕ
  pub eviction_blobs_deleted : ℕ
  pub eviction_manifests_deleted : ℕ
  pub eviction_redis_entries : ℕ
  pub oldest_small_memory_touch_time : ℕ
  pub oldest_large_memory_touch_time : ℕ
  pub oldest_disk_touch_time : ℕ

-- `Metrics::default()`.
abbrev pub zero_metrics : Metrics
zero_metrics = record {
  docker_manifest_get = 0;
  docker_manifest_head = 0;
  docker_manifest_put = 0;
  docker_manifest_cache_hit = 0;
  docker_manifest_cache_miss = 0;
  docker_blob_get = 0;
  docker_blob_head = 0;
  docker_blob_cache_hit_memory = 0;
  docker_blob_cache_hit_disk = 0;
  docker_blob_cache_miss = 0;
  docker_blob_upload_post = 0;
  docker_blob_upload_patch = 0;
  docker_blob_upload_put = 0;
  docker_blob_upload_delete = 0;
  docker_auth_failures = 0;
  docker_upstream_requests = 0;
  docker_upstream_errors = 0;
  redis_connections = 0;
  redis_commands = 0;
  redis_get_hit = 0;
  redis_get_miss = 0;
  redis_set = 0;
  redis_del = 0;
  redis_auth_failures = 0;
  eviction_runs = 0;
  eviction_blobs_to_disk = 0;
  eviction_blobs_deleted = 0;
  eviction_manifests_deleted = 0;
  eviction_redis_entries = 0;
  oldest_small_memory_touch_time = 0;
  oldest_large_memory_touch_time = 0;
  oldest_disk_touch_time = 0;
}
