-- ===== src/State/Accounting.antt =====
-- The usage counters under the operations of src/state.rs.
use dockfoxprox.Base.{
  ℕ, ◌+◌, ◌-◌, ◌%◌, ◌^◌, ◌≡◌, refl, ap, inl, inr, arith, Bytes, length, Option-cases, Bool, true,
  false, Bool-cases, if◌then◌else◌, [], ◌∷◌,
}
use dockfoxprox.Base.Text.{bytes_key}
use dockfoxprox.Base.Map.{Map, lookup, sum_by, weight, sum_by-insert, sum_by-remove}
use dockfoxprox.State.{
  State, Digest, Manifest, Blob, RedisEntry, blob_bucket, redis_value_bucket, charge_value,
  insert_blob, remove_blob, insert_manifest, remove_manifest, insert_redis, remove_redis,
  flush_redis, flush_usage,
}
use dockfoxprox.State.Buckets.{
  Bucket, Usage, fetch_add, fetch_sub, store, charge, fetch_add-charge, fetch_sub-charge,
}
use dockfoxprox.State.Measure.{measured, IsAccounted, manifest_weight, blob_weight, redis_weight}

-- The counter after an amount is charged and, if there was another, refunded.
replaced :
    (c b old : Bucket) (n m : ℕ) (u : Usage) (total rest : ℕ)
    → u c ≡ total % 2 ^ 64
    → rest + charge c (old, m) ≡ total + charge c (b, n)
    → fetch_sub old m (fetch_add b n u) c ≡ rest % 2 ^ 64
replaced c b old n m u total rest h e =
    fetch_sub-charge c old m (fetch_add b n u) _ rest (fetch_add-charge c b n u total h) e

-- If every usage counter holds the bytes of its bucket, modulo 2^64, it does so after a blob is inserted,
-- be it new or in the place of another.
pub insert_blob-IsAccounted :
    (d : Digest) (b : Blob) (s : State) → IsAccounted s → IsAccounted (insert_blob d b s)
unfolding insert_blob measured
insert_blob-IsAccounted d b s h c =
    let sum = sum_by-insert (blob_weight c) d b s.blobs in
    elim (Option-cases (lookup d s.blobs)) [
      | inl e ↦
          rw (e, insert_blob)
            (omega (
              arith,
              fetch_add-charge c (blob_bucket b).0 (blob_bucket b).1 s.usage _ (h c),
              ap (weight (blob_weight c) d) e,
            ))
      | inr (old, e) ↦
          rw (e, insert_blob)
            (replaced c _ _ _ _ s.usage _ _ (h c) (omega (arith, ap (weight (blob_weight c) d) e)))
    ]

-- If every usage counter holds the bytes of its bucket, modulo 2^64, it does so after a blob is removed,
-- or none was found.
pub remove_blob-IsAccounted :
    (d : Digest) (s : State) → IsAccounted s → IsAccounted (remove_blob d s).0
unfolding remove_blob measured
remove_blob-IsAccounted d s h = elim (Option-cases (lookup d s.blobs)) [
  | inl e ↦ rw (e, remove_blob) h
  | inr (old, e) ↦
      rw (e, remove_blob)
        (λ c.
          fetch_sub-charge c _ _ s.usage _ _ (h c) (
            omega
              (arith, sum_by-remove (blob_weight c) d s.blobs, ap (weight (blob_weight c) d) e)))
]

-- If every usage counter holds the bytes of its bucket, modulo 2^64, it does so after a manifest is
-- stored, be it new or in the place of a shorter or longer one.
pub insert_manifest-IsAccounted :
    (d : Digest) (m : Manifest) (s : State) → IsAccounted s → IsAccounted (insert_manifest d m s)
unfolding insert_manifest measured charge fetch_add
insert_manifest-IsAccounted d m s h c =
    let sum = sum_by-insert (manifest_weight c) d m s.manifests in
    elim (Option-cases (lookup d s.manifests)) [
      | inl e ↦
          rw (e, insert_manifest) (ground (arith, h c, ap (weight (manifest_weight c) d) e, sum))
      | inr (old, e) ↦
          rw (e, insert_manifest) (ground (arith, h c, ap (weight (manifest_weight c) d) e, sum))
    ]

-- If every usage counter holds the bytes of its bucket, modulo 2^64, it does so after a manifest is
-- removed, or none was found.
pub remove_manifest-IsAccounted :
    (d : Digest) (s : State) → IsAccounted s → IsAccounted (remove_manifest d s).0
unfolding remove_manifest measured
remove_manifest-IsAccounted d s h = elim (Option-cases (lookup d s.manifests)) [
  | inl e ↦ rw (e, remove_manifest) h
  | inr (old, e) ↦
      rw (e, remove_manifest)
        (λ c. fetch_sub-charge c _ _ s.usage _ _ (h c) (
          omega (
            arith,
            sum_by-remove (manifest_weight c) d s.manifests,
            ap (weight (manifest_weight c) d) e,
          )))
]

-- If every usage counter holds the bytes of its bucket, modulo 2^64, it does so after a redis entry is
-- stored, be it new or in the place of one in memory or on disk.
pub insert_redis-IsAccounted :
    (k v : Bytes) (s : State) → IsAccounted s → IsAccounted (insert_redis k v s).0
unfolding insert_redis measured
insert_redis-IsAccounted k v s h c =
    let entry = RedisEntry.in_memory v s.next_id s.now in
    let sum = sum_by-insert (redis_weight c) k entry s.redis_entries in
    let charged =
      fetch_add-charge c (redis_value_bucket entry).0 (redis_value_bucket entry).1 s.usage _
        (h c) in
    elim (Option-cases (lookup k s.redis_entries)) [
      | inl e ↦
          rw (e, insert_redis)
            (omega (
              arith,
              fetch_add-charge c Bucket.small_redis_memory (length k) (charge_value entry s.usage)
                  (measured c s + charge c (redis_value_bucket entry)) charged,
              ap (weight (redis_weight c) k) e,
            ))
      | inr (old, e) ↦
          rw (e, insert_redis)
            (fetch_sub-charge c _ _ _ _ _ charged (omega (arith, ap (weight (redis_weight c) k) e)))
    ]

-- If every usage counter holds the bytes of its bucket, modulo 2^64, it does so after a redis entry is
-- removed, or none was found.
pub remove_redis-IsAccounted :
    (k : Bytes) (s : State) → IsAccounted s → IsAccounted (remove_redis k s).0
unfolding remove_redis measured
remove_redis-IsAccounted k s h = elim (Option-cases (lookup k s.redis_entries)) [
  | inl e ↦ rw (e, remove_redis) h
  | inr (old, e) ↦
      rw (e, remove_redis)
        (λ c.
          let gone = sum_by-remove (redis_weight c) k s.redis_entries in
          let was = ap (weight (redis_weight c) k) e in
          fetch_sub-charge c Bucket.small_redis_memory (length k) _ _ _
            (fetch_sub-charge c _ _ s.usage _ (measured c s - charge c (redis_value_bucket old))
              (h c) (omega (arith, gone, was)))
            (omega (arith, gone, was)))
]

sum_by-zero :
    {K V : Type 0} (w : K → V → ℕ) (m : Map K V) → ((k : K) (v : V) → w k v ≡ 0) → sum_by w m ≡ 0
unfolding sum_by
sum_by-zero w [] h = refl
sum_by-zero w ((k, v) ∷ m) h = omega (arith, h k v, sum_by-zero w m h)

abbrev is_redis : Bucket → Bool
is_redis Bucket.small_redis_memory = true
is_redis Bucket.large_redis_memory = true
is_redis Bucket.redis_disk = true
is_redis _ = false

manifest_weight-zero :
    (c : Bucket) → is_redis c ≡ true → (d : Digest) (m : Manifest) → manifest_weight c d m ≡ 0
unfolding charge
manifest_weight-zero c h d m = ground arith

blob_weight-zero :
    (c : Bucket) → is_redis c ≡ true → (d : Digest) (b : Blob) → blob_weight c d b ≡ 0
unfolding charge blob_bucket
blob_weight-zero c h d b = ground arith

redis_weight-zero :
    (c : Bucket) → is_redis c ≡ false → (k : Bytes) (r : RedisEntry) → redis_weight c k r ≡ 0
unfolding charge redis_value_bucket
redis_weight-zero c h k r = ground arith

flushed : (c : Bucket) (u : Usage) → (flush_usage u) c ≡ (if is_redis c then 0 else u c)
unfolding store
flushed c u = ground arith

-- If every usage counter holds the bytes of its bucket, modulo 2^64, it does so after all redis entries
-- are dropped.
pub flush_redis-IsAccounted : (s : State) → IsAccounted s → IsAccounted (flush_redis s)
unfolding flush_redis measured sum_by
flush_redis-IsAccounted s h c = elim (Bool-cases (is_redis c)) [
  | inl e ↦
      rw (flushed, e)
        (omega (
          arith,
          sum_by-zero (manifest_weight c) s.manifests (manifest_weight-zero c e),
          sum_by-zero (blob_weight c) s.blobs (blob_weight-zero c e),
        ))
  | inr e ↦
      rw (flushed, e)
        (omega (arith, h c, sum_by-zero (redis_weight c) s.redis_entries (redis_weight-zero c e)))
]
