-- ===== src/Eviction/Keeps/Spill.antt =====
-- The blobs in the cache when those of a manifest are written to disk: `evict` of src/eviction.rs.
use mathlib.Core.Path.{subst}
use dockfoxprox.Base.{
  ℕ, ◌≡◌, ◌⊎◌, inl, inr, refl, sym, ap, ◌∙◌, arith, Bool, true, Option, none, some, List, [], ◌∷◌,
  Bytes, length, ◌==◌, not, ◌||◌, Option-cases, Bool-cases,
}
use dockfoxprox.Base.Map.{
  Map, lookup, insert, lookup-insert_self, lookup-insert_ne, sum_by-insert, weight,
}
use dockfoxprox.Base.Text.{bytes_key, Bytes-discrete}
use dockfoxprox.State.{State, Digest, Manifest, Blob, RedisEntry, last_accessed, insert_blob}
use dockfoxprox.Eviction.Json.{Value, referenced_digests}
use dockfoxprox.Eviction.Pass.{Pass, BlobBk, is_large}
use dockfoxprox.Eviction.Step.{
  Outcome, ok, failed, spill_blob, spill_if, spill_ref, spill_refs, spill_manifest, spill_redis,
  ◌>>=◌, unevict, mark_evicted,
}
use dockfoxprox.Eviction.Keeps.Tracked.{
  occurrences, references, AllAt-lookup, AllAt-insert, AllAt-imp, Present, IsFree, Counts,
  IsTracked,
}

-- A property of the pass, whether it goes on or ends with an error.
abbrev pub Either : (Pass → Type 0) → Outcome → Type 0
Either P (ok p) = P p
Either P (failed p) = P p

module _ (json : Bytes → Option Value) (writable : ℕ → Bool) (d : Digest) (t now : ℕ) where
  -- A blob put in another's place, with the same time.
  Present-insert :
      (r : Digest) (old new : Blob) (m : Map Digest Blob)
      → lookup r m ≡ some old
      → last_accessed new ≡ last_accessed old
      → Present json d t now m
      → Present json d t now (insert r new m)
  Present-insert r old new m e same (b, found, time) = elim (Bytes-discrete d r) [
    | yes p ↦
        let here : lookup d m ≡ some old = subst (λ x. lookup x m ≡ some old) (sym p) e in
        (
          new,
          subst (λ x. lookup x (insert r new m) ≡ some new) (sym p) (lookup-insert_self r new m),
          same ∙ (ground arith) ∙ time,
        )
    | no p ↦ (b, lookup-insert_ne d r new m p ∙ found, time)
  ]

  kept-insert :
      (r : Digest) (old new : Blob) (m : Map Digest Blob) (ms : Map Digest Manifest)
      → lookup r m ≡ some old
      → last_accessed new ≡ last_accessed old
      → Present json d t now m ⊎ IsFree json d t now ms
      → Present json d t now (insert r new m) ⊎ IsFree json d t now ms
  kept-insert r old new m ms e same (inl there) = inl (Present-insert r old new m e same there)
  kept-insert r old new m ms e same (inr free) = inr free

  spill_blob-IsTracked :
      (r : Digest) (p : Pass)
      → IsTracked json d t now 0 p
      → Either (IsTracked json d t now 0) (spill_blob writable r p)
  unfolding spill_blob insert_blob last_accessed
  spill_blob-IsTracked r p h = found (lookup r p.state.blobs) refl
    where
      found :
          (o : Option Blob)
          → lookup r p.state.blobs ≡ o
          → Either (IsTracked json d t now 0) (spill_blob writable r p)
      found none e = rw (e, spill_blob) h
      found (some (Blob.on_disk id size media u)) e = rw (e, spill_blob) h
      found (some (Blob.in_memory id content media u)) e = elim (Bool-cases (writable id)) [
        | inl w ↦
            rw (e, spill_blob, w)
              (record {
                counted = h.counted;
                kept = kept-insert r _ (Blob.on_disk id (length content) media u) _ _ e refl h.kept;
              })
        | inr w ↦ rw (e, spill_blob, w) h
      ]

  spill_if-IsTracked :
      (bb : BlobBk) (r : Digest) (p : Pass)
      → IsTracked json d t now 0 p
      → Either (IsTracked json d t now 0) (spill_if writable bb r p)
  unfolding spill_if
  spill_if-IsTracked bb r p h =
      elim (Bool-cases (not (bb.unevicted_refs == 0) || not (is_large bb.tier))) [
        | inl e ↦ rw e h
        | inr e ↦ rw e (spill_blob-IsTracked r p h)
      ]

  spill_ref-IsTracked :
      (old : Bool) (r : Digest) (p : Pass)
      → IsTracked json d t now 0 p
      → Either (IsTracked json d t now 0) (spill_ref writable old r p)
  unfolding spill_ref unevict
  spill_ref-IsTracked old r p h = elim (Option-cases (lookup r p.blobs)) [
    | inl e ↦ rw (e, spill_ref) h
    | inr (bb, e) ↦
        let bb' = unevict old bb in
        rw (e, spill_ref)
          (spill_if-IsTracked bb' r (record p { blobs = insert r bb' p.blobs })
            (record {
              counted = AllAt-insert d _ r bb' p.blobs h.counted (λ same.
                  AllAt-lookup d (Counts json d t now 0 p.state.manifests) p.blobs h.counted
                    (subst (λ x. lookup x p.blobs ≡ some bb) same e));
              kept = h.kept;
            }))
  ]

  pub bind-IsTracked :
      (o : Outcome) (f : Pass → Outcome)
      → ((p : Pass) → IsTracked json d t now 0 p → Either (IsTracked json d t now 0) (f p))
      → Either (IsTracked json d t now 0) o
      → Either (IsTracked json d t now 0) (o >>= f)
  bind-IsTracked (ok p) f g h = g p h
  bind-IsTracked (failed p) f g h = h

  spill_refs-IsTracked :
      (old : Bool) (rs : List Digest) (p : Pass)
      → IsTracked json d t now 0 p
      → Either (IsTracked json d t now 0) (spill_refs writable old rs p)
  unfolding spill_refs
  spill_refs-IsTracked old [] p h = h
  spill_refs-IsTracked old (r ∷ rs) p h =
      bind-IsTracked (spill_ref writable old r p) (spill_refs writable old rs)
        (spill_refs-IsTracked old rs) (spill_ref-IsTracked old r p h)

  -- Marking a manifest as evicted leaves its references.
  references-mark_evicted :
      (k : Digest) (m : Manifest) (s : State)
      → lookup k s.manifests ≡ some m
      → references json d (mark_evicted k m s).manifests ≡ references json d s.manifests
  unfolding references mark_evicted
  references-mark_evicted k m s e =
      let w = λ (k : Digest) (m : Manifest). occurrences d (referenced_digests json m.content) in
      omega (arith, sum_by-insert w k (record m { evicted = true }) s.manifests, ap (weight w k) e)

  kept-mark_evicted :
      (k : Digest) (m : Manifest) (s : State)
      → references json d (mark_evicted k m s).manifests ≡ references json d s.manifests
      → Present json d t now s.blobs ⊎ IsFree json d t now s.manifests
      → Present json d t now (mark_evicted k m s).blobs
        ⊎ IsFree json d t now (mark_evicted k m s).manifests
  unfolding mark_evicted
  kept-mark_evicted k m s same (inl there) = inl there
  kept-mark_evicted k m s same (inr free) = inr (same ∙ free.0, free.1)

  mark_evicted-IsTracked :
      (k : Digest) (m : Manifest) (p : Pass)
      → lookup k p.state.manifests ≡ some m
      → IsTracked json d t now 0 p
      → IsTracked json d t now 0 (record p { state = mark_evicted k m p.state })
  mark_evicted-IsTracked k m p e h =
      let same = references-mark_evicted k m p.state e in
      record {
        counted = AllAt-imp d _ _ p.blobs (λ bb c. (c.0, omega (arith, c.1, same))) h.counted;
        kept = kept-mark_evicted k m p.state same h.kept;
      }

  pub spill_manifest-IsTracked :
      (u : ℕ) (k : Digest) (p : Pass)
      → IsTracked json d t now 0 p
      → Either (IsTracked json d t now 0) (spill_manifest writable json u k p)
  unfolding spill_manifest
  spill_manifest-IsTracked u k p h = elim (Option-cases (lookup k p.state.manifests)) [
    | inl e ↦ rw (e, spill_manifest) h
    | inr (m, e) ↦
        rw (e, spill_manifest)
          (bind-IsTracked
            (spill_refs writable m.evicted (referenced_digests json m.content)
              (record p { state = mark_evicted k m p.state }))
            _ (λ q g. record { counted = g.counted; kept = g.kept })
            (spill_refs-IsTracked m.evicted (referenced_digests json m.content) _
              (mark_evicted-IsTracked k m p e h)))
  ]

  pub spill_redis-IsTracked :
      (k : Bytes) (u size : ℕ) (p : Pass)
      → IsTracked json d t now 0 p
      → Either (IsTracked json d t now 0) (spill_redis writable k u size p)
  unfolding spill_redis
  spill_redis-IsTracked k u size p h = found (lookup k p.state.redis_entries) refl
    where
      found :
          (o : Option RedisEntry)
          → lookup k p.state.redis_entries ≡ o
          → Either (IsTracked json d t now 0) (spill_redis writable k u size p)
      found none e = rw (e, spill_redis) h
      found (some (RedisEntry.on_disk size' id u')) e = rw (e, spill_redis) h
      found (some (RedisEntry.in_memory value id u')) e = elim (Bool-cases (writable id)) [
        | inl w ↦ rw (e, spill_redis, w) (record { counted = h.counted; kept = h.kept })
        | inr w ↦ rw (e, spill_redis, w) h
      ]
