-- ===== src/System/Evict/Spill.antt =====
-- Spilling to disk, `evict` of src/eviction.rs, under the digests of the blobs.
use dockfoxprox.Base.{
  ℕ, ◌≡◌, refl, Bool, ◌||◌, not, ◌==◌, Option, none, some, List, [], ◌∷◌, Bytes, length,
  Option-cases, Bool-cases, inl, inr,
}
use dockfoxprox.Base.Map.{lookup, insert}
use dockfoxprox.Base.Text.{bytes_key, nat_key}
use dockfoxprox.State.{Digest, Blob, RedisEntry, insert_blob}
use dockfoxprox.Eviction.Json.{Value, referenced_digests}
use dockfoxprox.Eviction.Pass.{Pass, is_large}
use dockfoxprox.Eviction.Step.{
  Outcome, ok, failed, ◌>>=◌, mark_evicted, unevict, spill_blob, spill_if, spill_ref, spill_refs,
  spill_manifest, spill_redis,
}
use dockfoxprox.Eviction.Keeps.Spill.{Either}
use dockfoxprox.Docker.Upload.Addressed.{IsNamed, All-insert}
use dockfoxprox.System.Blobs.{Holds}

module _ (sha256 : Bytes → Digest) where
  spill_blob-Holds :
      (writable : ℕ → Bool) (r : Digest) (p : Pass)
      → Holds sha256 p
      → Either (Holds sha256) (spill_blob writable r p)
  unfolding spill_blob insert_blob
  spill_blob-Holds writable r p h = found (lookup r p.state.blobs) refl
    where
      found :
          (o : Option Blob)
          → lookup r p.state.blobs ≡ o
          → Either (Holds sha256) (spill_blob writable r p)
      found none e = rw (e, spill_blob) h
      found (some (Blob.on_disk id size media u)) e = rw (e, spill_blob) h
      found (some (Blob.in_memory id content media u)) e = elim (Bool-cases (writable id)) [
        | inl w ↦
            rw (e, spill_blob, w)
              (record {
                blobs =
                    All-insert (IsNamed sha256) r (Blob.on_disk id (length content) media u)
                      p.state.blobs h.blobs tt;
                uploads = h.uploads;
              })
        | inr w ↦ rw (e, spill_blob, w) h
      ]

  spill_ref-Holds :
      (writable : ℕ → Bool) (old : Bool) (r : Digest) (p : Pass)
      → Holds sha256 p
      → Either (Holds sha256) (spill_ref writable old r p)
  unfolding spill_ref spill_if
  spill_ref-Holds writable old r p h = elim (Option-cases (lookup r p.blobs)) [
    | inl e ↦ rw (e, spill_ref) h
    | inr (bb, e) ↦
        elim (Bool-cases
          (not ((unevict old bb).unevicted_refs == 0) || not (is_large (unevict old bb).tier))) [
            | inl f ↦ rw (e, spill_ref, f) h
            | inr f ↦
                rw (e, spill_ref, f)
                  (spill_blob-Holds writable r
                    (record p { blobs = insert r (unevict old bb) p.blobs }) h)
          ]
  ]

  bind-Holds :
      (o : Outcome) (f : Pass → Outcome)
      → ((p : Pass) → Holds sha256 p → Either (Holds sha256) (f p))
      → Either (Holds sha256) o
      → Either (Holds sha256) (o >>= f)
  bind-Holds (ok p) f g h = g p h
  bind-Holds (failed p) f g h = h

  spill_refs-Holds :
      (writable : ℕ → Bool) (old : Bool) (rs : List Digest) (p : Pass)
      → Holds sha256 p
      → Either (Holds sha256) (spill_refs writable old rs p)
  unfolding spill_refs
  spill_refs-Holds writable old [] p h = h
  spill_refs-Holds writable old (r ∷ rs) p h =
      bind-Holds (spill_ref writable old r p) (spill_refs writable old rs)
        (spill_refs-Holds writable old rs) (spill_ref-Holds writable old r p h)

  pub spill_manifest-Holds :
      (writable : ℕ → Bool) (json : Bytes → Option Value) (u : ℕ) (k : Digest) (p : Pass)
      → Holds sha256 p
      → Either (Holds sha256) (spill_manifest writable json u k p)
  unfolding spill_manifest mark_evicted
  spill_manifest-Holds writable json u k p h = elim (Option-cases (lookup k p.state.manifests)) [
    | inl e ↦ rw (e, spill_manifest) h
    | inr (m, e) ↦
        rw (e, spill_manifest)
          (bind-Holds
            (spill_refs writable m.evicted (referenced_digests json m.content)
              (record p { state = mark_evicted k m p.state }))
            _ (λ q g. g)
            (spill_refs-Holds writable m.evicted (referenced_digests json m.content) _
              (record { blobs = h.blobs; uploads = h.uploads })))
  ]

  pub spill_redis-Holds :
      (writable : ℕ → Bool) (k : Bytes) (u size : ℕ) (p : Pass)
      → Holds sha256 p
      → Either (Holds sha256) (spill_redis writable k u size p)
  unfolding spill_redis
  spill_redis-Holds writable k u size p h = found (lookup k p.state.redis_entries) refl
    where
      found :
          (o : Option RedisEntry)
          → lookup k p.state.redis_entries ≡ o
          → Either (Holds sha256) (spill_redis writable k u size p)
      found none e = rw (e, spill_redis) h
      found (some (RedisEntry.on_disk size' id u')) e = rw (e, spill_redis) h
      found (some (RedisEntry.in_memory value id u')) e = elim (Bool-cases (writable id)) [
        | inl w ↦ rw (e, spill_redis, w) (record { blobs = h.blobs; uploads = h.uploads })
        | inr w ↦ rw (e, spill_redis, w) h
      ]
