-- ===== src/System/Evict/Drop.antt =====
-- Dropping a manifest or a redis entry, `evict` of src/eviction.rs, under the digests of the blobs.
use dockfoxprox.Base.{
  ℕ, ◌-◌, arith, Bool, ◌||◌, not, ◌==◌, Option, none, some, List, [], ◌∷◌, Bytes, ltb, Option-cases,
  Bool-cases, inl, inr,
}
use dockfoxprox.Base.Map.{lookup, insert}
use dockfoxprox.Base.Text.{bytes_key, nat_key}
use dockfoxprox.State.{State, Digest, Blob, remove_blob, remove_redis, remove_manifest}
use dockfoxprox.Eviction.Json.{Value, referenced_digests}
use dockfoxprox.Eviction.Pass.{Pass, BlobBk, blob_grace_seconds}
use dockfoxprox.Eviction.Step.{
  drop_small_redis, drop_disk_redis, settle, reap, reap_if, release, drop_ref, drop_refs,
  drop_manifest,
}
use dockfoxprox.Docker.Upload.Addressed.{IsNamed, IsAddressed, All-remove}
use dockfoxprox.System.Blobs.{
  KeepsBlobs-IsAddressed, remove_redis-KeepsBlobs, remove_manifest-KeepsBlobs, Holds,
}

module _ (sha256 : Bytes → Digest) where
  pub remove_blob-IsAddressed :
      (r : Digest) (s : State) → IsAddressed sha256 s → IsAddressed sha256 (remove_blob r s).0
  unfolding remove_blob
  remove_blob-IsAddressed r s h = elim (Option-cases (lookup r s.blobs)) [
    | inl e ↦ rw (e, remove_blob) h
    | inr (b, e) ↦
        rw (e, remove_blob)
          (record { blobs = All-remove (IsNamed sha256) r s.blobs h.blobs; uploads = h.uploads })
  ]

  settle-Holds : (gone : Option Blob) (p : Pass) → Holds sha256 p → Holds sha256 (settle gone p)
  unfolding settle
  settle-Holds none p h = h
  settle-Holds (some (Blob.in_memory id content media t)) p h =
      KeepsBlobs-IsAddressed sha256 p.state _ (ground arith) h
  settle-Holds (some (Blob.on_disk id size media t)) p h = record {
    blobs = h.blobs;
    uploads = h.uploads;
  }

  reap_if-Holds :
      (now : ℕ) (bb : BlobBk) (r : Digest) (p : Pass)
      → Holds sha256 p
      → Holds sha256 (reap_if now bb r p)
  unfolding reap_if reap
  reap_if-Holds now bb r p h =
      elim (Bool-cases (not (bb.refs == 0) || ltb (now - blob_grace_seconds) bb.touched)) [
        | inl e ↦ rw e h
        | inr e ↦ rw e (
            settle-Holds (remove_blob r p.state).1 (record p { state = (remove_blob r p.state).0 })
              (remove_blob-IsAddressed r p.state h))
      ]

  drop_refs-Holds :
      (now : ℕ) (old : Bool) (rs : List Digest) (p : Pass)
      → Holds sha256 p
      → Holds sha256 (drop_refs now old rs p)
  unfolding drop_refs drop_ref
  drop_refs-Holds now old [] p h = h
  drop_refs-Holds now old (r ∷ rs) p h = drop_refs-Holds now old rs (drop_ref now old r p) one
    where
      one : Holds sha256 (drop_ref now old r p)
      one = elim (Option-cases (lookup r p.blobs)) [
        | inl e ↦ rw (e, drop_ref) h
        | inr (bb, e) ↦
            rw (e, drop_ref)
              (reap_if-Holds now (release old bb) r
                (record p { blobs = insert r (release old bb) p.blobs }) h)
      ]

  pub drop_manifest-Holds :
      (json : Bytes → Option Value) (now : ℕ) (d : Digest) (p : Pass)
      → Holds sha256 p
      → Holds sha256 (drop_manifest json now d p)
  unfolding drop_manifest
  drop_manifest-Holds json now d p h =
      let k = KeepsBlobs-IsAddressed sha256 p.state _ (remove_manifest-KeepsBlobs d p.state) h in
      elim (Option-cases (remove_manifest d p.state).1) [
        | inl e ↦ rw (e, drop_manifest) k
        | inr (m, e) ↦
            rw (e, drop_manifest)
              (drop_refs-Holds now m.evicted (referenced_digests json m.content) _
                (record { blobs = k.blobs; uploads = k.uploads }))
      ]

  pub drop_small_redis-Holds :
      (k : Bytes) (size : ℕ) (p : Pass) → Holds sha256 p → Holds sha256 (drop_small_redis k size p)
  unfolding drop_small_redis
  drop_small_redis-Holds k size p h =
      let g = KeepsBlobs-IsAddressed sha256 p.state _ (remove_redis-KeepsBlobs k p.state) h in
      elim (Bool-cases (remove_redis k p.state).1) [
        | inl e ↦ rw e (record { blobs = g.blobs; uploads = g.uploads })
        | inr e ↦ rw e g
      ]

  pub drop_disk_redis-Holds :
      (k : Bytes) (size : ℕ) (p : Pass) → Holds sha256 p → Holds sha256 (drop_disk_redis k size p)
  unfolding drop_disk_redis
  drop_disk_redis-Holds k size p h =
      let g = KeepsBlobs-IsAddressed sha256 p.state _ (remove_redis-KeepsBlobs k p.state) h in
      elim (Bool-cases (remove_redis k p.state).1) [
        | inl e ↦ rw e (record { blobs = g.blobs; uploads = g.uploads })
        | inr e ↦ rw e g
      ]
