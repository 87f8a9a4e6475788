-- ===== src/Tests/Restart.antt =====
-- The theorems on src/snapshot.rs at concrete inputs.
use dockfoxprox.Base.{
  ℕ, ℕ_discrete, ◌≡◌, refl, ap, ◌∙◌, arith, Bool, true, Option, none, some, List, [], ◌∷◌, Bytes,
  bytes, ◌==◌, subst_some,
}
use dockfoxprox.Base.Map.{lookup}
use dockfoxprox.Base.Text.{bytes_key}
use dockfoxprox.State.{State, RedisEntry, Blob}
use dockfoxprox.State.Measure.{IsAccounted}
use dockfoxprox.Snapshot.Recount.{recompute_usage}
use dockfoxprox.Snapshot.Restart.{Restored, IsSavable, restart, save-Restored}
use dockfoxprox.Snapshot.Save.{
  TagEntry, ManifestEntry, BlobEntry, RedisRow, save, after_blobs, after_rows, blob_entries,
  redis_rows, add_row, write_snapshot, tag_entries, manifest_entries, Snapshot, Folder, snapshot_of,
}
use dockfoxprox.Snapshot.Load.{Answers, load_or_wipe}
use dockfoxprox.Snapshot.Accounting.{recompute_usage-IsAccounted, load_or_wipe-IsAccounted}
use dockfoxprox.Tests.Data.{start, filled, layer}

abbrev answers : Answers
answers = record { readable = true; removable = true; left = λ files. [] }

abbrev decode : Bytes → Option Snapshot
decode buf = some (snapshot_of filled [] [])

abbrev folder : Folder
folder = record { snapshot = some (bytes "saved"); tmp = none }

recompute_usage_example : IsAccounted (recompute_usage filled)
recompute_usage_example = recompute_usage-IsAccounted filled

load_or_wipe_example : IsAccounted (load_or_wipe decode answers start folder).0
load_or_wipe_example = load_or_wipe-IsAccounted decode answers start folder

-- A coding, for the tests, of the snapshots that hold one redis entry with a key and a value of one
-- byte, and one blob that is on disk and has no media type.
abbrev rows_code :
    ℕ → Bytes → ℕ → Option Bytes → ℕ → ℕ → Bytes → Bytes → ℕ → ℕ → ℕ → Option Bytes → Option Bytes
rows_code next (k ∷ []) id (some (v ∷ [])) t size digest [] bsize used bid none =
    some (next ∷ k ∷ id ∷ t ∷ size ∷ v ∷ bsize ∷ used ∷ bid ∷ digest)
rows_code next key id value t size digest media bsize used bid content = none

abbrev code :
    Bool → List TagEntry → List ManifestEntry → List BlobEntry → List RedisRow → ℕ → Option Bytes
code true [] [] (b ∷ []) (r ∷ []) next =
    rows_code next r.key r.id r.value r.last_accessed r.size b.digest b.media_type b.size
      b.last_accessed b.id b.content
code b tags manifests blobs rows next = none

abbrev encode_one : Snapshot → Option Bytes
encode_one snap =
    code (snap.version == 2) snap.tags snap.manifests snap.blobs snap.redis_entries snap.next_id

abbrev one_each : ℕ → BlobEntry → RedisRow → Snapshot
one_each next b row = record {
  version = 2;
  tags = [];
  manifests = [];
  blobs = b ∷ [];
  redis_entries = row ∷ [];
  next_id = next;
}

abbrev blob_row : Bytes → Bytes → ℕ → ℕ → ℕ → Option Bytes → BlobEntry
blob_row digest media size used id content = record {
  digest = digest;
  media_type = media;
  size = size;
  last_accessed = used;
  id = id;
  content = content;
}

abbrev redis_row : Bytes → ℕ → Option Bytes → ℕ → ℕ → RedisRow
redis_row key id value t size = record {
  key = key;
  id = id;
  value = value;
  last_accessed = t;
  size = size;
}

abbrev decode_one : Bytes → Option Snapshot
decode_one (next ∷ k ∷ id ∷ t ∷ size ∷ v ∷ bsize ∷ used ∷ bid ∷ digest) = some (
    one_each next (blob_row digest [] bsize used bid none)
      (redis_row (k ∷ []) id (some (v ∷ [])) t size))
decode_one buf = none

rows_coded :
    (next : ℕ) (key : Bytes) (id : ℕ) (value : Option Bytes) (t size : ℕ) (digest media : Bytes)
    (bsize used bid : ℕ) (content : Option Bytes) (buf : Bytes)
    → rows_code next key id value t size digest media bsize used bid content ≡ some buf
    → decode_one buf
      ≡ some (
          one_each next
            (blob_row digest media bsize used bid content)
            (redis_row key id value t size))
rows_coded next (k ∷ []) id (some (v ∷ [])) t size digest [] bsize used bid none buf e =
    subst_some
      (λ b.
        decode_one b
        ≡ some (
            one_each next (blob_row digest [] bsize used bid none)
              (redis_row (k ∷ []) id (some (v ∷ [])) t size)))
      e refl
rows_coded next key id value t size digest media bsize used bid content buf e = absurd (cc)

code_coded :
    (b : Bool) (v : ℕ) (tags : List TagEntry) (manifests : List ManifestEntry)
    (blobs : List BlobEntry) (rows : List RedisRow) (next : ℕ) (buf : Bytes)
    → (b ≡ true → 2 ≡ v)
    → code b tags manifests blobs rows next ≡ some buf
    → decode_one buf
      ≡ some (record {
        version = v;
        tags = tags;
        manifests = manifests;
        blobs = blobs;
        redis_entries = rows;
        next_id = next;
      })
code_coded true v [] [] (b ∷ []) (r ∷ []) next buf same e =
    rows_coded next r.key r.id r.value r.last_accessed r.size b.digest b.media_type b.size
      b.last_accessed b.id b.content buf e
    ∙ ap (λ v. some (record (one_each next b r) { version = v })) (same refl)
code_coded b v tags manifests blobs rows next buf same e = absurd (cc)

encode_one-coded :
    (snap : Snapshot) (buf : Bytes) → encode_one snap ≡ some buf → decode_one buf ≡ some snap
encode_one-coded snap buf e =
    code_coded (snap.version == 2) snap.version snap.tags snap.manifests snap.blobs
      snap.redis_entries snap.next_id buf (λ same. ground (arith, same)) e

abbrev one_entry : State
one_entry = record start {
  redis_entries = (bytes "k", RedisEntry.in_memory (bytes "v") 3 900000) ∷ [];
  blobs = (layer, Blob.on_disk 9 2 [] 900000) ∷ [];
  disk = (9, bytes "hi") ∷ [];
}

one_entry-IsSavable : IsSavable one_entry
unfolding lookup ℕ_discrete
one_entry-IsSavable = record {
  manifests_Unique = tt;
  manifests_DigestKeys = tt;
  tags_Unique = tt;
  tags_DigestValues = tt;
  redis_Unique = (refl, tt);
  blobs_Unique = (refl, tt);
  blobs_DigestKeys = ((refl, ground arith), tt);
  blobs_HaveFiles = ((bytes "hi", refl, refl), tt);
  ids_Distinct = ((omega arith, tt), (tt, tt));
}

abbrev every : ℕ → Bool
every id = true

saved_one : (save encode_one every true true one_entry folder).2 ≡ true
unfolding save after_blobs after_rows blob_entries redis_rows add_row write_snapshot tag_entries
    manifest_entries
saved_one = refl

save-Restored_example : Restored one_entry (
    restart encode_one decode_one every true true answers 1000500
      (save encode_one every true true one_entry folder))
save-Restored_example =
    save-Restored encode_one decode_one every true true answers one_entry folder encode_one-coded
      refl one_entry-IsSavable saved_one 1000500
