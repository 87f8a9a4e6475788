-- ===== src/Eviction/Pass.antt =====
-- The bookkeeping of one eviction pass, and the scan of the caches that begins it: `evict` of
-- src/eviction.rs up to its loop.
use dockfoxprox.Base.{
  ℕ, ◌+◌, ◌*◌, ◌%◌, ◌^◌, Bool, true, false, ◌||◌, Option, none, some, List, [], ◌∷◌, ◌++◌, Bytes,
  length, ltb, leb, if◌then◌else◌, add64,
}
use dockfoxprox.Base.Map.{Map, lookup, insert}
use dockfoxprox.Base.Text.{bytes_key}
use dockfoxprox.State.{
  State, Digest, Manifest, Blob, RedisEntry, last_accessed, memory_tier_threshold,
}
use dockfoxprox.Eviction.Json.{Value, referenced_digests}

abbrev pub blob_grace_seconds : ℕ
blob_grace_seconds = 5 * 3600

-- `manifest last_accesses digest` and `redis key last_accessed size`.
pub data Candidate : Type 0 where
  manifest : ℕ → Digest → Candidate
  redis : Bytes → ℕ → ℕ → Candidate

unfoldable pub last_access_time : Candidate → ℕ
last_access_time (manifest t d) = t
last_access_time (redis k t size) = t

-- The choice between a candidate and the oldest of those behind it.
unfoldable pub choose :
    Candidate
    → List Candidate
    → Option (Candidate × List Candidate)
    → Option (Candidate × List Candidate)
unfolding last_access_time
choose c cs none = some (c, [])
choose c cs (some (d, ds)) =
    if leb (last_access_time c) (last_access_time d) then some (c, cs) else some (d, c ∷ ds)

-- `BinaryHeap::pop`: an oldest candidate, and the others. Of several that are equally old the library
-- may take any; here it is the one that was pushed first.
unfoldable pub pop : List Candidate → Option (Candidate × List Candidate)
unfolding choose
pop [] = none
pop (c ∷ cs) = choose c cs (pop cs)

abbrev pub push : Candidate → List Candidate → List Candidate
push c cs = cs ++ c ∷ []

pub data BlobTier : Type 0 where
  small_mem large_mem disk : BlobTier

unfoldable pub is_large : BlobTier → Bool
is_large large_mem = true
is_large _ = false

unfoldable pub is_disk : BlobTier → Bool
is_disk disk = true
is_disk _ = false

-- `BlobBk`; `touched` is its `last_accessed`, and the counts are u32.
pub record BlobBk : Type 0 where
  pub tier : BlobTier
  pub refs : ℕ
  pub unevicted_refs : ℕ
  pub touched : ℕ

-- The local variables of `evict`, with the state that it works on. The sums are u64.
pub record Pass : Type 0 where
  pub state : State
  pub small_blob_memory : ℕ
  pub large_blob_memory : ℕ
  pub blob_disk : ℕ
  pub small_redis_memory : ℕ
  pub large_redis_memory : ℕ
  pub redis_disk : ℕ
  pub manifest_memory : ℕ
  pub small_candidates : List Candidate
  pub large_candidates : List Candidate
  pub disk_candidates : List Candidate
  pub blobs : Map Digest BlobBk

unfoldable pub tier_of : Blob → BlobTier
tier_of (Blob.in_memory id content media t) =
    if ltb memory_tier_threshold (length content) then large_mem else small_mem
tier_of (Blob.on_disk id size media t) = disk

unfoldable pub size_of : Blob → ℕ
size_of (Blob.in_memory id content media t) = length content
size_of (Blob.on_disk id size media t) = size

unfoldable pub add_blob : BlobTier → ℕ → Pass → Pass
add_blob small_mem size p = record p { small_blob_memory = add64 p.small_blob_memory size }
add_blob large_mem size p = record p { large_blob_memory = add64 p.large_blob_memory size }
add_blob disk size p = record p { blob_disk = add64 p.blob_disk size }

unfoldable pub new_bk : Blob → BlobBk
unfolding tier_of last_accessed
new_bk b = record { tier = tier_of b; refs = 0; unevicted_refs = 0; touched = last_accessed b }

unfoldable pub scan_blobs : Map Digest Blob → Pass → Pass
scan_blobs [] p = p
scan_blobs ((d, b) ∷ m) p =
    let q = add_blob (tier_of b) (size_of b) p in
    scan_blobs m (record q { blobs = insert d (new_bk b) q.blobs })

-- One more reference to a blob, from a manifest that was evicted before or not.
unfoldable pub count_ref : Bool → BlobBk → BlobBk
count_ref old bb = record bb {
  refs = (bb.refs + 1) % 2 ^ 32;
  unevicted_refs = if old then bb.unevicted_refs else (bb.unevicted_refs + 1) % 2 ^ 32;
}

-- The bookkeeping, and whether one of a manifest's blobs is large in memory, or on disk.
abbrev pub Referred : Type 0
Referred = Map Digest BlobBk × Bool × Bool

-- One digest that a manifest refers to.
unfoldable pub scan_ref : Bool → Digest → Referred → Referred
scan_ref old r (bks, large, on_disk) = elim (lookup r bks) [
  | none ↦ (bks, large, on_disk)
  | some bb ↦
      (insert r (count_ref old bb) bks, large || is_large bb.tier, on_disk || is_disk bb.tier)
]

unfoldable pub scan_refs : Bool → List Digest → Referred → Referred
scan_refs old [] acc = acc
scan_refs old (r ∷ rs) acc = scan_refs old rs (scan_ref old r acc)

unfoldable pub scan_manifest : (Bytes → Option Value) → Digest → Manifest → Pass → Pass
scan_manifest json d m p =
    let (bks, large, on_disk) =
      scan_refs m.evicted (referenced_digests json m.content) (p.blobs, false, false) in
    let c = manifest m.last_used d in
    record p {
      blobs = bks;
      small_candidates = push c p.small_candidates;
      large_candidates = if large then push c p.large_candidates else p.large_candidates;
      disk_candidates = if on_disk then push c p.disk_candidates else p.disk_candidates;
      manifest_memory = add64 p.manifest_memory (length m.content);
    }

unfoldable pub scan_manifests : (Bytes → Option Value) → Map Digest Manifest → Pass → Pass
scan_manifests json [] p = p
scan_manifests json ((d, m) ∷ ms) p = scan_manifests json ms (scan_manifest json d m p)

unfoldable pub scan_entry : Bytes → RedisEntry → Pass → Pass
scan_entry k (RedisEntry.in_memory value id t) p =
    if ltb memory_tier_threshold (length value)
    then record p {
      large_candidates = push (redis k t (length value)) p.large_candidates;
      large_redis_memory = add64 p.large_redis_memory (length value);
    }
    else record p {
      small_candidates = push (redis k t (length value)) p.small_candidates;
      small_redis_memory = add64 p.small_redis_memory (length value);
    }
scan_entry k (RedisEntry.on_disk size id t) p = record p {
  disk_candidates = push (redis k t size) p.disk_candidates;
  redis_disk = add64 p.redis_disk size;
}

-- The key is counted with the small entries, wherever the value is.
unfoldable pub scan_redis : Map Bytes RedisEntry → Pass → Pass
scan_redis [] p = p
scan_redis ((k, e) ∷ m) p =
    scan_redis m
      (scan_entry k e (record p { small_redis_memory = add64 p.small_redis_memory (length k) }))

unfoldable pub empty_pass : State → Pass
empty_pass s = record {
  state = s;
  small_blob_memory = 0;
  large_blob_memory = 0;
  blob_disk = 0;
  small_redis_memory = 0;
  large_redis_memory = 0;
  redis_disk = 0;
  manifest_memory = 0;
  small_candidates = [];
  large_candidates = [];
  disk_candidates = [];
  blobs = [];
}

unfoldable pub scan : (Bytes → Option Value) → State → Pass
scan json s =
    scan_redis s.redis_entries (scan_manifests json s.manifests (scan_blobs s.blobs (empty_pass s)))
