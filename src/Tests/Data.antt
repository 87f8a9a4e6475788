-- ===== src/Tests/Data.antt =====
-- A small cache for the tests: a manifest, the two blobs that it refers to, a tag and a redis entry.
use dockfoxprox.Base.{
  ℕ, suc, zero, refl, false, Option, none, some, [], ◌∷◌, Bytes, bytes, bytes_eq, if◌then◌else◌,
}
use dockfoxprox.Base.Map.{sum_by}
use dockfoxprox.Config.{Config, default_data_folder}
use dockfoxprox.Digest.{display}
use dockfoxprox.State.{State, Digest, Manifest, Blob, RedisEntry, new}
use dockfoxprox.State.Measure.{measured, IsAccounted}
use dockfoxprox.Eviction.Json.{Value, object, string, field, end}

abbrev pub repeat : ℕ → ℕ → Bytes
repeat zero c = []
repeat (suc n) c = c ∷ repeat n c

abbrev pub config : Config
config = record {
  https_port = none;
  http_port = some 80;
  data_folder = default_data_folder;
  memory_limit = 1600;
  small_limit = some 100;
  disk_limit = 100000;
  docker_user = [];
  docker_registry = [];
  redis_port = some 6379;
  redis_password = some (bytes "secret");
}

abbrev pub start : State
start = new config 1000000 []

abbrev pub layer : Digest
layer = repeat 32 7

abbrev pub other_layer : Digest
other_layer = repeat 32 9

abbrev pub index : Digest
index = repeat 32 1

abbrev pub layer_blob : Blob
layer_blob = Blob.in_memory 1 (repeat 2000 5) (bytes "application/octet-stream") 900000

abbrev pub disk_blob : Blob
disk_blob = Blob.on_disk 2 50 (bytes "application/octet-stream") 800000

abbrev pub index_content : Bytes
index_content = bytes "{}"

abbrev pub index_manifest : Manifest
index_manifest = record {
  content = index_content;
  media_type = bytes "application/json";
  last_used = 900001;
  evicted = false;
}

-- The reading of the manifest that the tests work with.
abbrev pub json : Bytes → Option Value
json content =
    if bytes_eq content index_content
    then some (object (field (bytes "digest") (string (display layer)) end))
    else none

abbrev pub filled : State
filled = record start {
  blobs = (layer, layer_blob) ∷ (other_layer, disk_blob) ∷ [];
  manifests = (index, index_manifest) ∷ [];
  tags = ((bytes "repo", bytes "latest"), index) ∷ [];
  redis_entries = (bytes "k", RedisEntry.in_memory (bytes "v") 3 900000) ∷ [];
}

pub start-IsAccounted : IsAccounted start
unfolding measured sum_by
start-IsAccounted c = refl
