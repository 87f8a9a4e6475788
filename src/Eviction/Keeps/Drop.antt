-- ===== src/Eviction/Keeps/Drop.antt =====
-- The blobs in the cache when a manifest is dropped: `evict` of src/eviction.rs.
use mathlib.Core.Path.{subst}
use mathlib.Core.Logic.{if_pos}
use dockfoxprox.Base.{
  ℕ, ◌+◌, ◌-◌, ◌≤◌, ◌≡◌, ◌≢◌, ◌⊎◌, inl, inr, refl, sym, ap, ◌∙◌, arith, Bool, false, Option, none,
  some, List, [], ◌∷◌, Bytes, ite, length, ltb, ◌==◌, not, ◌||◌, Option-cases, Bool-cases,
}
use dockfoxprox.Base.Map.{Map, lookup, insert, remove, lookup-remove_ne, sum_by-remove, weight}
use dockfoxprox.Base.Text.{bytes_key, Bytes-discrete}
use dockfoxprox.State.{State, Digest, Manifest, Blob, remove_blob, remove_manifest, remove_redis}
use dockfoxprox.State.Buckets.{Bucket, fetch_sub}
use dockfoxprox.Eviction.Json.{Value, referenced_digests}
use dockfoxprox.Eviction.Pass.{Pass, BlobBk, blob_grace_seconds}
use dockfoxprox.Eviction.Step.{
  settle, reap, reap_if, release, drop_ref, drop_refs, drop_manifest, drop_small_redis,
  drop_disk_redis,
}
use dockfoxprox.Eviction.Keeps.Tracked.{
  occurrences, references, AllAt-lookup, AllAt-insert, AllAt-imp, Present, IsFree, Counts,
  IsTracked,
}

-- The bookkeeping and the manifests are left alone.
abbrev Settled : Pass → Pass → Type 0
Settled p q = (q.blobs ≡ p.blobs) × (q.state.manifests ≡ p.state.manifests)

settle-Settled :
    (o : Option Blob) (p : Pass)
    → ((settle o p).blobs ≡ p.blobs)
      × ((settle o p).state.manifests ≡ p.state.manifests)
      × ((settle o p).state.blobs ≡ p.state.blobs)
unfolding settle
settle-Settled o p = ground arith

pub lookup-remove_blob_ne :
    (d r : Digest) (s : State) → d ≢ r → lookup d (remove_blob r s).0.blobs ≡ lookup d s.blobs
unfolding remove_blob
lookup-remove_blob_ne d r s h = ground (arith, lookup-remove_ne d r s.blobs h)

pub manifests-remove_blob : (r : Digest) (s : State) → (remove_blob r s).0.manifests ≡ s.manifests
unfolding remove_blob
manifests-remove_blob r s = ground arith

reap-Settled : (r : Digest) (p : Pass) → Settled p (reap r p)
unfolding reap
reap-Settled r p =
    let h =
      settle-Settled (remove_blob r p.state).1 (record p { state = (remove_blob r p.state).0 }) in
    (h.0, h.1 ∙ manifests-remove_blob r p.state)

lookup-reap_ne :
    (d r : Digest) (p : Pass) → d ≢ r → lookup d (reap r p).state.blobs ≡ lookup d p.state.blobs
unfolding reap
lookup-reap_ne d r p h =
    let k =
      settle-Settled (remove_blob r p.state).1 (record p { state = (remove_blob r p.state).0 }) in
    rw k.2 (lookup-remove_blob_ne d r p.state h)

pub remove_manifest-none :
    (k : Digest) (s : State) → lookup k s.manifests ≡ none → remove_manifest k s ≡ (s, none)
unfolding remove_manifest
remove_manifest-none k s e = rw (e, remove_manifest) refl

pub remove_manifest-some :
    (k : Digest) (s : State) (m : Manifest)
    → lookup k s.manifests ≡ some m
    → remove_manifest k s ≡ (
      record s {
        manifests = remove k s.manifests;
        usage = fetch_sub Bucket.manifest_memory (length m.content) s.usage;
      },
      some m,
    )
unfolding remove_manifest
remove_manifest-some k s m e = rw (e, remove_manifest) refl

module _ (json : Bytes → Option Value) (d : Digest) (t now : ℕ) where
  -- What is kept stays so under a change that leaves the manifests alone and this blob.
  kept_of_same :
      (p q : Pass)
      → q.state.manifests ≡ p.state.manifests
      → lookup d q.state.blobs ≡ lookup d p.state.blobs
      → Present json d t now p.state.blobs ⊎ IsFree json d t now p.state.manifests
      → Present json d t now q.state.blobs ⊎ IsFree json d t now q.state.manifests
  kept_of_same p q e f (inl (b, found, time)) = inl (b, f ∙ found, time)
  kept_of_same p q e f (inr (none_left, old)) = inr (rw e none_left, old)

  reap-IsTracked :
      (n : ℕ) (r : Digest) (p : Pass)
      → IsTracked json d t now n p
      → (r ≡ d → IsFree json d t now p.state.manifests)
      → IsTracked json d t now n (reap r p)
  reap-IsTracked n r p h free =
      let (same, left) = reap-Settled r p in
      record {
        counted = rw (same, left) h.counted;
        kept = elim (Bytes-discrete d r) [
          | yes e ↦ inr (rw left (free (sym e)))
          | no e ↦ kept_of_same p (reap r p) left (lookup-reap_ne d r p e) h.kept
        ];
      }

  -- The test before a blob is reaped.
  IsFree-of_test :
      (bb : BlobBk) (m : Map Digest Manifest) (n : ℕ)
      → Counts json d t now n m bb
      → (not (bb.refs == 0) || ltb (now - blob_grace_seconds) bb.touched) ≡ false
      → IsFree json d t now m
  IsFree-of_test bb m n c e = ground (arith, c.0, c.1)

  reap_if-IsTracked :
      (n : ℕ) (bb : BlobBk) (r : Digest) (p : Pass)
      → IsTracked json d t now n p
      → (r ≡ d → Counts json d t now n p.state.manifests bb)
      → IsTracked json d t now n (reap_if now bb r p)
  unfolding reap_if
  reap_if-IsTracked n bb r p h c =
      elim (Bool-cases (not (bb.refs == 0) || ltb (now - blob_grace_seconds) bb.touched)) [
        | inl e ↦ rw e h
        | inr e ↦
            rw e (reap-IsTracked n r p h (λ same. IsFree-of_test bb p.state.manifests n (c same) e))
      ]

  weaken : (n k : ℕ) (p : Pass) → n ≤ k → IsTracked json d t now k p → IsTracked json d t now n p
  weaken n k p l h = record {
    counted = AllAt-imp d _ _ p.blobs (λ bb c. (c.0, omega (arith, c.1))) h.counted;
    kept = h.kept;
  }

  -- The bookkeeping of the blob itself, one reference less.
  release-Counts :
      (n : ℕ) (old : Bool) (r : Digest) (bb : BlobBk) (p : Pass)
      → IsTracked json d t now (ite (Bytes-discrete d r) 1 0 + n) p
      → lookup r p.blobs ≡ some bb
      → r ≡ d
      → Counts json d t now n p.state.manifests (release old bb)
  unfolding release
  release-Counts n old r bb p h e same =
      let found : lookup d p.blobs ≡ some bb = subst (λ x. lookup x p.blobs ≡ some bb) same e in
      let one : ite {C = ℕ} (Bytes-discrete d r) 1 0 ≡ 1 =
        if_pos (Bytes-discrete d r) (sym same) 1 0 in
      let c = AllAt-lookup d _ p.blobs h.counted found in (c.0, omega (arith, c.1))

  drop_ref-IsTracked :
      (n : ℕ) (old : Bool) (r : Digest) (p : Pass)
      → IsTracked json d t now (ite (Bytes-discrete d r) 1 0 + n) p
      → IsTracked json d t now n (drop_ref now old r p)
  unfolding drop_ref
  drop_ref-IsTracked n old r p h = elim (Option-cases (lookup r p.blobs)) [
    | inl e ↦ rw (e, drop_ref) (weaken n _ p (omega arith) h)
    | inr (bb, e) ↦
        let c = release-Counts n old r bb p h e in
        let bb' = release old bb in
        let less = weaken n _ p (omega arith) h in
        rw (e, drop_ref)
          (reap_if-IsTracked n bb' r (record p { blobs = insert r bb' p.blobs })
            (record { counted = AllAt-insert d _ r bb' p.blobs less.counted c; kept = h.kept }) c)
  ]

  drop_refs-IsTracked :
      (old : Bool) (rs : List Digest) (p : Pass)
      → IsTracked json d t now (occurrences d rs) p
      → IsTracked json d t now 0 (drop_refs now old rs p)
  unfolding drop_refs occurrences
  drop_refs-IsTracked old [] p h = h
  drop_refs-IsTracked old (r ∷ rs) p h =
      drop_refs-IsTracked old rs (drop_ref now old r p)
        (drop_ref-IsTracked (occurrences d rs) old r p h)

  -- Without one manifest there are as many references less as it made.
  references-remove :
      (k : Digest) (m : Manifest) (ms : Map Digest Manifest)
      → lookup k ms ≡ some m
      → references json d (remove k ms) + occurrences d (referenced_digests json m.content)
        ≡ references json d ms
  unfolding references
  references-remove k m ms e =
      let w = λ (k : Digest) (m : Manifest). occurrences d (referenced_digests json m.content) in
      omega (arith, sum_by-remove w k ms, ap (weight w k) e)

  pub drop_manifest-IsTracked :
      (k : Digest) (p : Pass)
      → IsTracked json d t now 0 p
      → IsTracked json d t now 0 (drop_manifest json now k p)
  unfolding drop_manifest
  drop_manifest-IsTracked k p h = elim (Option-cases (lookup k p.state.manifests)) [
    | inl e ↦
        let shut = remove_manifest-none k p.state e in
        rw (shut, drop_manifest) (rw shut (record { counted = h.counted; kept = h.kept }))
    | inr (m, e) ↦
        let less = references-remove k m p.state.manifests e in
        let shut = remove_manifest-some k p.state m e in
        rw (shut, drop_manifest)
          (rw shut (
            drop_refs-IsTracked m.evicted (referenced_digests json m.content) _ (record {
              counted = AllAt-imp d _ _ p.blobs (λ bb c. (c.0, omega (arith, c.1, less))) h.counted;
              kept = fewer _ _ _ (omega (arith, less)) h.kept;
            })))
  ]
    where
      fewer :
          (m : Map Digest Blob) (ms ns : Map Digest Manifest)
          → references json d ns ≤ references json d ms
          → Present json d t now m ⊎ IsFree json d t now ms
          → Present json d t now m ⊎ IsFree json d t now ns
      fewer m ms ns l (inl there) = inl there
      fewer m ms ns l (inr free) = inr (omega (arith, free.0), free.1)

  pub drop_small_redis-IsTracked :
      (k : Bytes) (size : ℕ) (p : Pass)
      → IsTracked json d t now 0 p
      → IsTracked json d t now 0 (drop_small_redis k size p)
  unfolding drop_small_redis remove_redis
  drop_small_redis-IsTracked k size p h = elim (Option-cases (lookup k p.state.redis_entries)) [
    | inl e ↦ rw (e, drop_small_redis, remove_redis) (record { counted = h.counted; kept = h.kept })
    | inr (r, e) ↦
        rw (e, drop_small_redis, remove_redis) (record { counted = h.counted; kept = h.kept })
  ]

  pub drop_disk_redis-IsTracked :
      (k : Bytes) (size : ℕ) (p : Pass)
      → IsTracked json d t now 0 p
      → IsTracked json d t now 0 (drop_disk_redis k size p)
  unfolding drop_disk_redis remove_redis
  drop_disk_redis-IsTracked k size p h = elim (Option-cases (lookup k p.state.redis_entries)) [
    | inl e ↦ rw (e, drop_disk_redis, remove_redis) (record { counted = h.counted; kept = h.kept })
    | inr (r, e) ↦
        rw (e, drop_disk_redis, remove_redis) (record { counted = h.counted; kept = h.kept })
  ]
