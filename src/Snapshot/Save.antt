-- ===== src/Snapshot/Save.antt =====
-- `save` of src/snapshot.rs.
use dockfoxprox.Base.{
  ℕ, Bool, true, false, Option, none, some, List, [], ◌∷◌, Bytes, length, leb, if◌then◌else◌,
}
use dockfoxprox.Base.Map.{Map, insert}
use dockfoxprox.Base.Text.{nat_key}
use dockfoxprox.Digest.{display}
use dockfoxprox.State.{State, Digest, Manifest, Blob, RedisEntry}

abbrev pub snapshot_version : ℕ
snapshot_version = 2

abbrev pub snapshot_inline_threshold : ℕ
snapshot_inline_threshold = 1024

pub record TagEntry : Type 0 where
  pub repo : Bytes
  pub reference : Bytes
  pub digest : Bytes

pub record ManifestEntry : Type 0 where
  pub digest : Bytes
  pub media_type : Bytes
  pub last_used : ℕ
  pub content : Bytes
  pub evicted : Bool

pub record BlobEntry : Type 0 where
  pub digest : Bytes
  pub media_type : Bytes
  pub size : ℕ
  pub last_accessed : ℕ
  pub id : ℕ
  pub content : Option Bytes

-- `RedisEntryEntry`.
pub record RedisRow : Type 0 where
  pub key : Bytes
  pub id : ℕ
  pub value : Option Bytes
  pub last_accessed : ℕ
  pub size : ℕ

pub record Snapshot : Type 0 where
  pub version : ℕ
  pub tags : List TagEntry
  pub manifests : List ManifestEntry
  pub blobs : List BlobEntry
  pub redis_entries : List RedisRow
  pub next_id : ℕ

-- The two files in the data folder.
pub record Folder : Type 0 where
  pub snapshot : Option Bytes
  pub tmp : Option Bytes

unfoldable pub manifest_entries : Map Digest Manifest → List ManifestEntry
manifest_entries [] = []
manifest_entries ((d, m) ∷ ms) =
    record {
      digest = display d;
      media_type = m.media_type;
      last_used = m.last_used;
      content = m.content;
      evicted = m.evicted;
    }
    ∷ manifest_entries ms

unfoldable pub tag_entries : Map (Bytes × Bytes) Digest → List TagEntry
tag_entries [] = []
tag_entries (((repo, reference), d) ∷ m) =
    record { repo = repo; reference = reference; digest = display d } ∷ tag_entries m

-- The rows of a cache, and the files on disk after the spills; `none` where a spill failed.
abbrev pub Spilled : Type 0 → Type 0
Spilled R = Map ℕ Bytes × Option (List R)

unfoldable pub add_row : {R : Type 0} → R → Spilled R → Spilled R
add_row row (files, none) = (files, none)
add_row row (files, some rows) = (files, some (row ∷ rows))

module _ (writable : ℕ → Bool) where
  unfoldable pub blob_entries : Map Digest Blob → Map ℕ Bytes → Spilled BlobEntry
  unfolding add_row
  blob_entries [] files = (files, some [])
  blob_entries ((d, Blob.on_disk id size media t) ∷ m) files =
      let row : BlobEntry = record {
        digest = display d;
        media_type = media;
        size = size;
        last_accessed = t;
        id = id;
        content = none;
      } in
      add_row row (blob_entries m files)
  blob_entries ((d, Blob.in_memory id content media t) ∷ m) files =
      let row : Option Bytes → BlobEntry = λ kept. record {
        digest = display d;
        media_type = media;
        size = length content;
        last_accessed = t;
        id = id;
        content = kept;
      } in
      let inlined = blob_entries m files in
      let spilled = blob_entries m (insert id content files) in
      if leb (length content) snapshot_inline_threshold
      then add_row (row (some content)) inlined
      else if writable id
      then add_row (row none) spilled
      else (files, none)

  unfoldable pub redis_rows : Map Bytes RedisEntry → Map ℕ Bytes → Spilled RedisRow
  unfolding add_row
  redis_rows [] files = (files, some [])
  redis_rows ((k, RedisEntry.on_disk size id t) ∷ m) files =
      let row : RedisRow = record {
        key = k;
        id = id;
        value = none;
        last_accessed = t;
        size = size;
      } in
      add_row row (redis_rows m files)
  redis_rows ((k, RedisEntry.in_memory value id t) ∷ m) files =
      let row : Option Bytes → RedisRow =
        λ kept. record { key = k; id = id; value = kept; last_accessed = t; size = length value } in
      let inlined = redis_rows m files in
      let spilled = redis_rows m (insert id value files) in
      if leb (length value) snapshot_inline_threshold
      then add_row (row (some value)) inlined
      else if writable id
      then add_row (row none) spilled
      else (files, none)

abbrev pub snapshot_of : State → List BlobEntry → List RedisRow → Snapshot
snapshot_of s blobs rows = record {
  version = snapshot_version;
  tags = tag_entries s.tags;
  manifests = manifest_entries s.manifests;
  blobs = blobs;
  redis_entries = rows;
  next_id = s.next_id;
}

-- The encoded snapshot goes to `snapshot.cbor.tmp`, which is renamed to `snapshot.cbor`: `wrote` and
-- `renamed` say whether the two succeed.
unfoldable pub write_snapshot : Bool → Bool → Option Bytes → Folder → Folder × Bool
write_snapshot wrote renamed none folder = (folder, false)
write_snapshot wrote renamed (some buf) folder =
    if wrote
    then if renamed
      then (record { snapshot = some buf; tmp = none }, true)
      else (record folder { tmp = some buf }, false)
    else (folder, false)

module _ (encode : Snapshot → Option Bytes) (wrote renamed : Bool) where
  -- The end of `save`, from the rows of the redis entries on.
  unfoldable pub after_rows :
      Spilled RedisRow → List BlobEntry → State → Folder → State × Folder × Bool
  unfolding write_snapshot
  after_rows (files, none) bs s folder = (record s { disk = files }, folder, false)
  after_rows (files, some rs) bs s folder =
      let (folder', good) = write_snapshot wrote renamed (encode (snapshot_of s bs rs)) folder in
      (record s { disk = files }, folder', good)

module _ (encode : Snapshot → Option Bytes) (writable : ℕ → Bool) (wrote renamed : Bool) where
  -- `save` from the entries of the blobs on.
  unfoldable pub after_blobs : Spilled BlobEntry → State → Folder → State × Folder × Bool
  unfolding after_rows redis_rows
  after_blobs (files, none) s folder = (record s { disk = files }, folder, false)
  after_blobs (files, some bs) s folder =
      after_rows encode wrote renamed (redis_rows writable s.redis_entries files) bs s folder

  -- `save`: the files under `blobs/` and the folder after it, and whether it succeeded. The state
  -- itself is only read.
  unfoldable pub save : State → Folder → State × Folder × Bool
  unfolding after_blobs blob_entries
  save s folder = after_blobs (blob_entries writable s.blobs s.disk) s folder
