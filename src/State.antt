-- ===== src/State.antt =====
-- The shared state of the proxy, src/state.rs: the caches, the seven usage counters, and the
-- operations that insert and remove. The DashMaps are association lists, an `Arc` is its value (what
-- is stored through one is stored in its map), and `disk` is the directory `<data_folder>/blobs`,
-- whose files are named by the ids of `cache_path`.
pub mod Buckets
pub mod Measure
pub mod Accounting
pub mod Paths
use dockfoxprox.Base.{
  ℕ, Bool, true, false, Option, none, some, [], ◌∷◌, Bytes, length, ltb, if◌then◌else◌, add64,
  sub64,
}
use dockfoxprox.Base.Text.{bytes_key, nat_key}
use dockfoxprox.Base.Map.{Map, lookup, insert, remove}
use dockfoxprox.Config.{Config}
use dockfoxprox.Metrics.{Metrics, zero_metrics}
use Buckets.{Bucket, Usage, fetch_add, fetch_sub, store}

abbrev pub memory_tier_threshold : ℕ
memory_tier_threshold = 1024

-- The 32 bytes of a SHA-256 digest; src/digest.rs.
abbrev pub Digest : Type 0
Digest = Bytes

pub record Manifest : Type 0 where
  pub content : Bytes
  pub media_type : Bytes
  pub last_used : ℕ
  pub evicted : Bool

-- `on_disk id size media_type last_accessed` and `in_memory id content media_type last_accessed`.
pub data Blob : Type 0 where
  on_disk : ℕ → ℕ → Bytes → ℕ → Blob
  in_memory : ℕ → Bytes → Bytes → ℕ → Blob

unfoldable pub last_accessed : Blob → ℕ
last_accessed (Blob.on_disk id size media t) = t
last_accessed (Blob.in_memory id content media t) = t

-- `in_memory value id last_accessed` and `on_disk size id last_accessed`.
pub data RedisEntry : Type 0 where
  in_memory : Bytes → ℕ → ℕ → RedisEntry
  on_disk : ℕ → ℕ → ℕ → RedisEntry

-- A resumable upload. The hasher is the bytes that it was fed.
pub record UploadInner : Type 0 where
  pub buf : Bytes
  pub hasher : Bytes

pub record State : Type 0 where
  pub tokens : Map (Bytes × Bytes) Bytes
  pub manifests : Map Digest Manifest
  pub blobs : Map Digest Blob
  pub tags : Map (Bytes × Bytes) Digest
  pub uploads : Map ℕ UploadInner
  pub config : Config
  pub now : ℕ
  pub usage : Usage
  pub redis_entries : Map Bytes RedisEntry
  pub metrics : Metrics
  pub next_id : ℕ
  pub eviction_notify : Bool
  pub disk : Map ℕ Bytes

-- `State::new` at the time `now`, over the files that are on disk.
abbrev pub new : Config → ℕ → Map ℕ Bytes → State
new config now disk = record {
  tokens = [];
  manifests = [];
  blobs = [];
  tags = [];
  uploads = [];
  config = config;
  now = now;
  usage = λ b. 0;
  redis_entries = [];
  metrics = record zero_metrics {
    oldest_large_memory_touch_time = now;
    oldest_small_memory_touch_time = now;
    oldest_disk_touch_time = now;
  };
  next_id = 0;
  eviction_notify = false;
  disk = disk;
}

-- The bucket that a blob is charged to, and its size.
unfoldable pub blob_bucket : Blob → Bucket × ℕ
blob_bucket (Blob.in_memory id content media t) =
    if ltb memory_tier_threshold (length content)
    then (Bucket.large_blob_memory, length content)
    else (Bucket.small_blob_memory, length content)
blob_bucket (Blob.on_disk id size media t) = (Bucket.blob_disk, size)

-- The bucket that the value of a redis entry is charged to, and its size.
unfoldable pub redis_value_bucket : RedisEntry → Bucket × ℕ
redis_value_bucket (RedisEntry.in_memory value id t) =
    if ltb memory_tier_threshold (length value)
    then (Bucket.large_redis_memory, length value)
    else (Bucket.small_redis_memory, length value)
redis_value_bucket (RedisEntry.on_disk size id t) = (Bucket.redis_disk, size)

abbrev pub charge_blob : Blob → Usage → Usage
charge_blob b = fetch_add (blob_bucket b).0 (blob_bucket b).1

abbrev pub refund_blob : Blob → Usage → Usage
refund_blob b = fetch_sub (blob_bucket b).0 (blob_bucket b).1

abbrev pub charge_value : RedisEntry → Usage → Usage
charge_value r = fetch_add (redis_value_bucket r).0 (redis_value_bucket r).1

abbrev pub refund_value : RedisEntry → Usage → Usage
refund_value r = fetch_sub (redis_value_bucket r).0 (redis_value_bucket r).1

-- `State::insert_blob`.
unfoldable pub insert_blob : Digest → Blob → State → State
insert_blob digest blob s = record s {
  usage = elim (lookup digest s.blobs) [
    | some old ↦ refund_blob old (charge_blob blob s.usage)
    | none ↦ charge_blob blob s.usage
  ];
  blobs = insert digest blob s.blobs;
  eviction_notify = true;
}

-- `State::remove_blob`: the state after it, and the blob that was removed.
unfoldable pub remove_blob : Digest → State → State × Option Blob
remove_blob digest s = elim (lookup digest s.blobs) [
  | none ↦ (s, none)
  | some b ↦ (record s { blobs = remove digest s.blobs; usage = refund_blob b s.usage }, some b)
]

-- `State::insert_manifest`: the counter moves by the difference of the lengths, which may be negative.
unfoldable pub insert_manifest : Digest → Manifest → State → State
insert_manifest digest m s =
    let old_len : ℕ = elim (lookup digest s.manifests) [
      | none ↦ 0
      | some old ↦ length old.content
    ] in
    record s {
      manifests = insert digest m s.manifests;
      usage = fetch_add Bucket.manifest_memory (sub64 (length m.content) old_len) s.usage;
      eviction_notify = true;
    }

-- `State::remove_manifest`.
unfoldable pub remove_manifest : Digest → State → State × Option Manifest
remove_manifest digest s = elim (lookup digest s.manifests) [
  | none ↦ (s, none)
  | some m ↦ (
    record s {
      manifests = remove digest s.manifests;
      usage = fetch_sub Bucket.manifest_memory (length m.content) s.usage;
    },
    some m,
  )
]

-- The spawned `remove_file` of the file behind an entry.
unfoldable pub unlink_entry : RedisEntry → Map ℕ Bytes → Map ℕ Bytes
unlink_entry (RedisEntry.on_disk size id t) disk = remove id disk
unlink_entry (RedisEntry.in_memory value id t) disk = disk

-- `State::insert_redis`: the state after it, and the entry.
unfoldable pub insert_redis : Bytes → Bytes → State → State × RedisEntry
unfolding unlink_entry
insert_redis key value s =
    let entry = RedisEntry.in_memory value s.next_id s.now in
    let charged = charge_value entry s.usage in
    (
      record s {
        next_id = add64 s.next_id 1;
        redis_entries = insert key entry s.redis_entries;
        usage = elim (lookup key s.redis_entries) [
          | some old ↦ refund_value old charged
          | none ↦ fetch_add Bucket.small_redis_memory (length key) charged
        ];
        disk = elim (lookup key s.redis_entries) [
          | some old ↦ unlink_entry old s.disk
          | none ↦ s.disk
        ];
        eviction_notify = true;
      },
      entry,
    )

-- `State::remove_redis`.
unfoldable pub remove_redis : Bytes → State → State × Bool
unfolding unlink_entry
remove_redis key s = elim (lookup key s.redis_entries) [
  | none ↦ (s, false)
  | some v ↦ (
    record s {
      redis_entries = remove key s.redis_entries;
      usage = fetch_sub Bucket.small_redis_memory (length key) (refund_value v s.usage);
      disk = unlink_entry v s.disk;
    },
    true,
  )
]

unfoldable pub unlink_all : Map Bytes RedisEntry → Map ℕ Bytes → Map ℕ Bytes
unfolding unlink_entry
unlink_all [] disk = disk
unlink_all ((k, v) ∷ m) disk = unlink_all m (unlink_entry v disk)

abbrev pub flush_usage : Usage → Usage
flush_usage u =
    store Bucket.redis_disk 0
      (store Bucket.large_redis_memory 0 (store Bucket.small_redis_memory 0 u))

-- `State::flush_redis`.
unfoldable pub flush_redis : State → State
unfolding unlink_all
flush_redis s = record s {
  redis_entries = [];
  usage = flush_usage s.usage;
  disk = unlink_all s.redis_entries s.disk;
}

unfoldable pub large_memory_usage : State → ℕ
large_memory_usage s = add64 (s.usage Bucket.large_blob_memory) (s.usage Bucket.large_redis_memory)

unfoldable pub small_memory_usage : State → ℕ
small_memory_usage s =
    add64 (add64 (s.usage Bucket.manifest_memory) (s.usage Bucket.small_blob_memory))
      (s.usage Bucket.small_redis_memory)

unfoldable pub total_memory_usage : State → ℕ
unfolding large_memory_usage small_memory_usage
total_memory_usage s = add64 (large_memory_usage s) (small_memory_usage s)

unfoldable pub total_disk_usage : State → ℕ
total_disk_usage s = add64 (s.usage Bucket.blob_disk) (s.usage Bucket.redis_disk)
