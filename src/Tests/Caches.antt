-- ===== src/Tests/Caches.antt =====
-- The theorems on src/state.rs and src/eviction.rs at concrete inputs.
use dockfoxprox.Base.{ℕ, ◌≡◌, ◌≢◌, ◌^◌, refl, arith, Bool, true, some, bytes, ltb}
use dockfoxprox.Base.Map.{Unique, lookup, sum_by}
use dockfoxprox.Base.Text.{bytes_key, Bytes-discrete, bytes_eq}
use dockfoxprox.State.{
  insert_blob, remove_blob, insert_manifest, remove_manifest, insert_redis, remove_redis,
  flush_redis, last_accessed,
}
use dockfoxprox.State.Measure.{IsAccounted}
use dockfoxprox.State.Accounting.{
  insert_blob-IsAccounted, remove_blob-IsAccounted, insert_manifest-IsAccounted,
  remove_manifest-IsAccounted, insert_redis-IsAccounted, remove_redis-IsAccounted,
  flush_redis-IsAccounted,
}
use dockfoxprox.State.Paths.{cache_path-injective}
use dockfoxprox.Base.Hex.{to_digit, hex_digit}
use dockfoxprox.Digest.{parse, display}
use dockfoxprox.Eviction.Json.{referenced_digests}
use dockfoxprox.Eviction.Evict.{evict, stuck}
use dockfoxprox.Eviction.Ends.{evict_ends}
use dockfoxprox.Eviction.Budget.Whole.{Ends, evict_relieves}
use dockfoxprox.Eviction.Keeps.Tracked.{references, occurrences}
use dockfoxprox.Eviction.Keeps.Whole.{Leaves, Kept, evict_keeps}
use dockfoxprox.Tests.Data.{
  start, start-IsAccounted, filled, layer, index, layer_blob, index_manifest, json,
}

abbrev writable : ℕ → Bool
writable id = true

insert_blob_example : IsAccounted (insert_blob layer layer_blob start)
insert_blob_example = insert_blob-IsAccounted layer layer_blob start start-IsAccounted

one_blob-IsAccounted : IsAccounted (insert_blob layer layer_blob start)
one_blob-IsAccounted = insert_blob-IsAccounted layer layer_blob start start-IsAccounted

remove_blob_example : IsAccounted (remove_blob layer (insert_blob layer layer_blob start)).0
remove_blob_example =
    remove_blob-IsAccounted layer (insert_blob layer layer_blob start) one_blob-IsAccounted

insert_manifest_example : IsAccounted (insert_manifest index index_manifest start)
insert_manifest_example = insert_manifest-IsAccounted index index_manifest start start-IsAccounted

one_manifest-IsAccounted : IsAccounted (insert_manifest index index_manifest start)
one_manifest-IsAccounted = insert_manifest-IsAccounted index index_manifest start start-IsAccounted

remove_manifest_example :
    IsAccounted (remove_manifest index (insert_manifest index index_manifest start)).0
remove_manifest_example =
    remove_manifest-IsAccounted index (insert_manifest index index_manifest start)
      one_manifest-IsAccounted

insert_redis_example : IsAccounted (insert_redis (bytes "k") (bytes "value") start).0
insert_redis_example = insert_redis-IsAccounted (bytes "k") (bytes "value") start start-IsAccounted

one_entry-IsAccounted : IsAccounted (insert_redis (bytes "k") (bytes "value") start).0
one_entry-IsAccounted = insert_redis-IsAccounted (bytes "k") (bytes "value") start start-IsAccounted

remove_redis_example :
    IsAccounted (remove_redis (bytes "k") (insert_redis (bytes "k") (bytes "value") start).0).0
remove_redis_example =
    remove_redis-IsAccounted (bytes "k") (insert_redis (bytes "k") (bytes "value") start).0
      one_entry-IsAccounted

flush_redis_example : IsAccounted (flush_redis (insert_redis (bytes "k") (bytes "value") start).0)
flush_redis_example =
    flush_redis-IsAccounted (insert_redis (bytes "k") (bytes "value") start).0 one_entry-IsAccounted

abbrev three_hundred : ℕ
three_hundred = 300

cache_path_example : three_hundred ≡ three_hundred
cache_path_example =
    cache_path-injective start three_hundred three_hundred (omega arith) (omega arith) refl

evict_ends_example : evict json writable filled ≢ stuck
evict_ends_example = evict_ends json writable filled

filled_manifests-Unique : Unique filled.manifests
unfolding lookup
filled_manifests-Unique = (refl, tt)

evict_relieves_example : Ends writable filled (evict json writable filled)
unfolding sum_by
evict_relieves_example = evict_relieves json writable filled filled_manifests-Unique (omega arith)

filled-Unique : Unique filled.blobs
unfolding lookup Bytes-discrete
filled-Unique = (refl, (refl, tt))

layer_found : lookup layer filled.blobs ≡ some layer_blob
unfolding lookup Bytes-discrete
layer_found = refl

few_references : ltb (references json layer filled.manifests) (2 ^ 32) ≡ true
unfolding references sum_by occurrences referenced_digests bytes_eq parse display to_digit hex_digit
few_references = refl

evict_keeps_example : Leaves (Kept json layer 900000 1000000) (evict json writable filled)
unfolding last_accessed
evict_keeps_example =
    evict_keeps json writable layer layer_blob filled filled-Unique layer_found
      (ground (arith, few_references))
