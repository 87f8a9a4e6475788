-- ===== src/Eviction/Step.antt =====
-- What happens to one candidate: the bodies of the loop of `evict`, src/eviction.rs. A write to disk
-- may fail, which ends the pass; `writable` says for which files it succeeds.
use dockfoxprox.Base.{
  ℕ, ◌+◌, ◌-◌, ◌^◌, Bool, true, ◌||◌, not, Option, none, some, List, [], ◌∷◌, Bytes, bytes_eq,
  length, ltb, ◌==◌, if◌then◌else◌, add64,
}
use Prim.Native.Nat.{min}
use dockfoxprox.Base.Map.{Map, lookup, insert, remove}
use dockfoxprox.Base.Text.{bytes_key, nat_key}
use dockfoxprox.Metrics.{Metrics}
use dockfoxprox.State.{
  State, Digest, Manifest, Blob, RedisEntry, memory_tier_threshold, insert_blob, remove_blob,
  remove_manifest, remove_redis,
}
use dockfoxprox.Eviction.Json.{Value, referenced_digests}
use dockfoxprox.Eviction.Pass.{Pass, BlobBk, manifest, redis, push, is_large, blob_grace_seconds}

-- The result of a step that may fail: `?` returns early, and what was done stays done.
pub data Outcome : Type 0 where
  ok : Pass → Outcome
  failed : Pass → Outcome

infixl 5 ◌>>=◌
abbrev pub ◌>>=◌ : Outcome → (Pass → Outcome) → Outcome
ok p >>= f = f p
failed p >>= f = failed p

abbrev pub saturating_add : ℕ → ℕ → ℕ
saturating_add a b = min (a + b) (2 ^ 64 - 1)

abbrev pub count : (Metrics → Metrics) → State → State
count f s = record s { metrics = f s.metrics }

abbrev pub count_redis : State → State
count_redis = count (λ m. record m { eviction_redis_entries = add64 m.eviction_redis_entries 1 })

abbrev pub count_deleted : State → State
count_deleted = count (λ m. record m { eviction_blobs_deleted = add64 m.eviction_blobs_deleted 1 })

abbrev pub count_spilled : State → State
count_spilled = count (λ m. record m { eviction_blobs_to_disk = add64 m.eviction_blobs_to_disk 1 })

abbrev pub count_manifest : State → State
count_manifest =
    count (λ m. record m { eviction_manifests_deleted = add64 m.eviction_manifests_deleted 1 })

-- `write_blob_to_disk`.
abbrev pub write_file : ℕ → Bytes → State → State
write_file id content s = record s { disk = insert id content s.disk }

-- `delete_disk_blob`.
abbrev pub delete_file : ℕ → State → State
delete_file id s = record s { disk = remove id s.disk }

-- `tags.retain(|_, d| d != digest)`.
unfoldable pub retain_tags : Digest → Map (Bytes × Bytes) Digest → Map (Bytes × Bytes) Digest
retain_tags digest [] = []
retain_tags digest ((k, d) ∷ m) =
    let rest = retain_tags digest m in if bytes_eq d digest then rest else (k, d) ∷ rest

-- A reference from a manifest that was not evicted before no longer counts as unevicted.
unfoldable pub unevict : Bool → BlobBk → BlobBk
unevict old bb = record bb {
  unevicted_refs = if old then bb.unevicted_refs else bb.unevicted_refs - 1;
}

-- `evicted.swap(true)`.
unfoldable pub mark_evicted : Digest → Manifest → State → State
mark_evicted digest mb s = record s {
  manifests = insert digest (record mb { evicted = true }) s.manifests;
}

module _ (writable : ℕ → Bool) where
  unfoldable pub spill_blob : Digest → Pass → Outcome
  spill_blob r p = elim (lookup r p.state.blobs) [
    | none ↦ ok p
    | some (Blob.on_disk id size media t) ↦ ok p
    | some (Blob.in_memory id content media t) ↦
        if writable id
        then ok (record p {
          state = count_spilled (
              insert_blob r (Blob.on_disk id (length content) media t)
                (write_file id content p.state));
          large_blob_memory = p.large_blob_memory - length content;
          blob_disk = saturating_add p.blob_disk (length content);
        })
        else failed p
  ]

  unfoldable pub spill_if : BlobBk → Digest → Pass → Outcome
  spill_if bb r p =
      if not (bb.unevicted_refs == 0) || not (is_large bb.tier) then ok p else spill_blob r p

  -- One digest of a manifest under pressure on the memory.
  unfoldable pub spill_ref : Bool → Digest → Pass → Outcome
  spill_ref old r p = elim (lookup r p.blobs) [
    | none ↦ ok p
    | some bb ↦
        let bb' = unevict old bb in spill_if bb' r (record p { blobs = insert r bb' p.blobs })
  ]

  unfoldable pub spill_refs : Bool → List Digest → Pass → Outcome
  spill_refs old [] p = ok p
  spill_refs old (r ∷ rs) p = spill_ref old r p >>= spill_refs old rs

  -- A manifest under pressure on the memory: it is marked, its large blobs are spilled where no other
  -- manifest that is in use refers to them, and it becomes a candidate for the disk.
  unfoldable pub spill_manifest : (Bytes → Option Value) → ℕ → Digest → Pass → Outcome
  spill_manifest json t digest p = elim (lookup digest p.state.manifests) [
    | none ↦ ok p
    | some mb ↦
        spill_refs mb.evicted (referenced_digests json mb.content)
          (record p { state = mark_evicted digest mb p.state })
        >>= λ q. ok (record q { disk_candidates = push (manifest t digest) q.disk_candidates })
  ]

  -- A large redis entry under pressure on the memory is written to disk. The map is changed directly,
  -- not through `insert_redis`.
  unfoldable pub spill_redis : Bytes → ℕ → ℕ → Pass → Outcome
  spill_redis key t size p = elim (lookup key p.state.redis_entries) [
    | none ↦ ok p
    | some (RedisEntry.on_disk size' id t') ↦ ok p
    | some (RedisEntry.in_memory value id t') ↦
        if writable id
        then ok (record p {
          state = count_redis (record (write_file id value p.state) {
            redis_entries = insert key (RedisEntry.on_disk size id t) p.state.redis_entries;
          });
          large_redis_memory = p.large_redis_memory - size;
          redis_disk = saturating_add p.redis_disk size;
          disk_candidates = push (redis key t size) p.disk_candidates;
        })
        else failed p
  ]

-- A small redis entry under pressure on the small pool.
unfoldable pub drop_small_redis : Bytes → ℕ → Pass → Pass
drop_small_redis key size p =
    let (s, removed) = remove_redis key p.state in
    if removed
    then record p { state = count_redis s; small_redis_memory = p.small_redis_memory - size }
    else record p { state = s }

-- A redis entry on disk under pressure on the disk.
unfoldable pub drop_disk_redis : Bytes → ℕ → Pass → Pass
drop_disk_redis key size p =
    let (s, removed) = remove_redis key p.state in
    if removed
    then record p { state = count_redis s; redis_disk = p.redis_disk - size }
    else record p { state = s }

-- A blob that lost its last reference and is old enough: out of the cache, and its file deleted.
unfoldable pub settle : Option Blob → Pass → Pass
settle none p = p
settle (some (Blob.in_memory id content media t)) p =
    let q = record p { state = count_deleted p.state } in
    if ltb memory_tier_threshold (length content)
    then record q { large_blob_memory = q.large_blob_memory - length content }
    else record q { small_blob_memory = q.small_blob_memory - length content }
settle (some (Blob.on_disk id size media t)) p = record p {
  state = delete_file id (count_deleted p.state);
  blob_disk = p.blob_disk - size;
}

unfoldable pub reap : Digest → Pass → Pass
reap r p = let (s, gone) = remove_blob r p.state in settle gone (record p { state = s })

unfoldable pub reap_if : ℕ → BlobBk → Digest → Pass → Pass
reap_if now bb r p =
    if not (bb.refs == 0) || ltb (now - blob_grace_seconds) bb.touched then p else reap r p

unfoldable pub release : Bool → BlobBk → BlobBk
unfolding unevict
release old bb = record (unevict old bb) { refs = bb.refs - 1 }

-- One digest of a manifest that is dropped.
unfoldable pub drop_ref : ℕ → Bool → Digest → Pass → Pass
drop_ref now old r p = elim (lookup r p.blobs) [
  | none ↦ p
  | some bb ↦
      let bb' = release old bb in reap_if now bb' r (record p { blobs = insert r bb' p.blobs })
]

unfoldable pub drop_refs : ℕ → Bool → List Digest → Pass → Pass
drop_refs now old [] p = p
drop_refs now old (r ∷ rs) p = drop_refs now old rs (drop_ref now old r p)

-- A manifest is dropped, its tags with it, and every blob whose last reference it was.
unfoldable pub drop_manifest : (Bytes → Option Value) → ℕ → Digest → Pass → Pass
drop_manifest json now digest p =
    let (s, gone) = remove_manifest digest p.state in
    elim gone [
      | none ↦ record p { state = s }
      | some m ↦ drop_refs now m.evicted (referenced_digests json m.content) (record p {
        state = record (count_manifest s) { tags = retain_tags digest s.tags };
        manifest_memory = p.manifest_memory - length m.content;
      })
    ]
