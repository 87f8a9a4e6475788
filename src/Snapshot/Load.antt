-- ===== src/Snapshot/Load.antt =====
-- `load`, `load_or_wipe` and `wipe_cache` of src/snapshot.rs. What is not modelled of `load` are its
-- statistics, which are only logged.
use dockfoxprox.Base.{
  ℕ, Bool, true, Option, none, some, List, [], ◌∷◌, Bytes, length, ◌==◌, if◌then◌else◌,
}
use dockfoxprox.Base.Map.{Map, lookup, insert}
use dockfoxprox.Base.Text.{nat_key, bytes_key, pair_key}
use dockfoxprox.Digest.{parse}
use dockfoxprox.State.{State, Digest, Manifest, Blob, RedisEntry}
use dockfoxprox.Snapshot.Recount.{recompute_usage}
use dockfoxprox.Snapshot.Save.{
  TagEntry, ManifestEntry, BlobEntry, RedisRow, Snapshot, Folder, snapshot_version,
}

unfoldable pub load_manifests : List ManifestEntry → Map Digest Manifest → Map Digest Manifest
load_manifests [] acc = acc
load_manifests (m ∷ ms) acc = elim (parse m.digest) [
  | none ↦ load_manifests ms acc
  | some d ↦ load_manifests ms (
      insert d
        (record {
          content = m.content;
          media_type = m.media_type;
          last_used = m.last_used;
          evicted = m.evicted;
        })
        acc)
]

-- A row whose bytes are not inlined counts only if the file is there and has the size.
unfoldable pub restore_blob : Map ℕ Bytes → BlobEntry → Option Blob
restore_blob files b = elim b.content [
  | some content ↦ some (Blob.in_memory b.id content b.media_type b.last_accessed)
  | none ↦ elim (lookup b.id files) [
    | none ↦ none
    | some file ↦
        if length file == b.size
        then some (Blob.on_disk b.id b.size b.media_type b.last_accessed)
        else none
  ]
]

unfoldable pub load_blob : Map ℕ Bytes → BlobEntry → Map Digest Blob → Map Digest Blob
unfolding restore_blob
load_blob files b acc = elim (parse b.digest) [
  | none ↦ acc
  | some d ↦ elim (restore_blob files b) [ none ↦ acc | some blob ↦ insert d blob acc ]
]

unfoldable pub load_blobs : Map ℕ Bytes → List BlobEntry → Map Digest Blob → Map Digest Blob
unfolding load_blob
load_blobs files [] acc = acc
load_blobs files (b ∷ bs) acc = load_blobs files bs (load_blob files b acc)

unfoldable pub load_tags : List TagEntry → Map (Bytes × Bytes) Digest → Map (Bytes × Bytes) Digest
load_tags [] acc = acc
load_tags (t ∷ ts) acc = elim (parse t.digest) [
  | none ↦ load_tags ts acc
  | some d ↦ load_tags ts (insert (t.repo, t.reference) d acc)
]

unfoldable pub restore_entry : RedisRow → RedisEntry
restore_entry r = elim r.value [
  | some value ↦ RedisEntry.in_memory value r.id r.last_accessed
  | none ↦ RedisEntry.on_disk r.size r.id r.last_accessed
]

unfoldable pub load_redis : List RedisRow → Map Bytes RedisEntry → Map Bytes RedisEntry
unfolding restore_entry
load_redis [] acc = acc
load_redis (r ∷ rs) acc = load_redis rs (insert r.key (restore_entry r) acc)

-- The caches with what a snapshot holds put into them.
unfoldable pub refill : Snapshot → State → State
unfolding load_manifests load_blobs load_tags load_redis
refill snap s = record s {
  manifests = load_manifests snap.manifests s.manifests;
  blobs = load_blobs s.disk snap.blobs s.blobs;
  tags = load_tags snap.tags s.tags;
  redis_entries = load_redis snap.redis_entries s.redis_entries;
}

-- What `load` does with a snapshot of the right version.
unfoldable pub restore : Snapshot → State → State
unfolding refill recompute_usage
restore snap s = record (recompute_usage (refill snap s)) { next_id = snap.next_id }

pub data LoadError : Type 0 where
  missing other : LoadError

pub data Loaded : Type 0 where
  ok : State → Loaded
  failed : LoadError → Loaded

-- What the file system answers: whether the snapshot can be read if it is there, whether it can be
-- removed, and what is left of the directory of blobs after its removal.
pub record Answers : Type 0 where
  pub readable : Bool
  pub removable : Bool
  pub left : Map ℕ Bytes → Map ℕ Bytes

module _ (decode : Bytes → Option Snapshot) (env : Answers) where
  unfoldable pub load : State → Folder → Loaded
  unfolding restore
  load s folder = elim folder.snapshot [
    | none ↦ failed missing
    | some buf ↦
        if env.readable
        then elim (decode buf) [
          | none ↦ failed other
          | some snap ↦
              if snap.version == snapshot_version then ok (restore snap s) else failed other
        ]
        else failed other
  ]

  -- The directory of blobs removed, and the caches emptied.
  unfoldable pub clear : State → State
  clear s = record s {
    disk = env.left s.disk;
    blobs = [];
    manifests = [];
    tags = [];
    redis_entries = [];
  }

  unfoldable pub wipe_cache : State → State
  unfolding clear recompute_usage
  wipe_cache s = record (recompute_usage (clear s)) { next_id = 0 }

  -- `remove_file` of the snapshot.
  unfoldable pub remove_snapshot : Folder → Folder
  remove_snapshot folder = if env.removable then record folder { snapshot = none } else folder

  unfoldable pub after_load : Loaded → State → Folder → State × Folder × Bool
  unfolding wipe_cache remove_snapshot
  after_load (ok loaded) s folder = (loaded, remove_snapshot folder, env.removable)
  after_load (failed missing) s folder = (wipe_cache s, folder, true)
  after_load (failed other) s folder = (wipe_cache s, remove_snapshot folder, true)

  -- `load_or_wipe`: the state and the folder after it, and whether it returns `Ok`.
  unfoldable pub load_or_wipe : State → Folder → State × Folder × Bool
  unfolding load after_load
  load_or_wipe s folder = after_load (load s folder) s folder
