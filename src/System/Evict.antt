-- ===== src/System/Evict.antt =====
-- What a pass of `evict`, src/eviction.rs, leaves of the digests that blobs are stored under.
pub mod Drop
pub mod Spill
use mathlib.Core.Path.{subst}
use dockfoxprox.Base.{
  ℕ, zero, suc, ◌+◌, ◌-◌, ◌≡◌, ◌≢◌, refl, sym, ◌∙◌, arith, Bool, true, false, ◌||◌, not, ◌==◌,
  Option, none, some, List, [], ◌∷◌, Bytes, length, ltb, Option-cases, Bool-cases, inl, inr, All,
}
use dockfoxprox.Base.Map.{Map, lookup, insert, remove}
use dockfoxprox.Base.Text.{bytes_key, nat_key}
use dockfoxprox.State.{
  State, Digest, Manifest, Blob, RedisEntry, remove_blob, insert_blob, remove_redis,
  remove_manifest,
}
use dockfoxprox.Eviction.Json.{Value, referenced_digests}
use dockfoxprox.Eviction.Pass.{
  Pass, BlobBk, Candidate, manifest, redis, blob_grace_seconds, is_large, scan, scan_blobs,
  scan_manifests, scan_manifest, scan_redis, tier_of, size_of, empty_pass, new_bk, add_blob,
}
use dockfoxprox.Eviction.Step.{
  Outcome, ok, failed, ◌>>=◌, mark_evicted, unevict, spill_blob, spill_if, spill_ref, spill_refs,
  spill_manifest, spill_redis, drop_small_redis, drop_disk_redis, settle, reap, reap_if, release,
  drop_ref, drop_refs, drop_manifest,
}
use dockfoxprox.Eviction.Evict.{
  Round, again, finished, stopped, of_outcome, pop_if, over_small, over_memory, over_disk,
  relieve_small, relieve_large, relieve_disk, round, after_round, loop, sweep_one, sweep, swept,
  rounds, Result, done, error, stuck, count_run, of_loop, publish, finish, evict,
}
use dockfoxprox.Eviction.Ends.{loop_ends}
use dockfoxprox.Eviction.Keeps.Scan.{add_blob-state, scan_redis-same}
use dockfoxprox.Eviction.Keeps.Spill.{Either}
use dockfoxprox.Eviction.Keeps.Whole.{Leaves, AfterRound, AfterLoop, of_Either, after_round_lem}
use dockfoxprox.Docker.Upload.Addressed.{IsNamed, IsAddressed, All-insert, All-remove}
use dockfoxprox.System.Blobs.{
  KeepsBlobs, KeepsBlobs-IsAddressed, remove_redis-KeepsBlobs, remove_manifest-KeepsBlobs, Holds,
}
use Drop.{
  remove_blob-IsAddressed, drop_manifest-Holds, drop_small_redis-Holds, drop_disk_redis-Holds,
}
use Spill.{spill_manifest-Holds, spill_redis-Holds}

module _ (sha256 : Bytes → Digest) where
  module _ (json : Bytes → Option Value) (writable : ℕ → Bool) (now : ℕ) where
    relieve_large-Holds :
        (c : Candidate) (p : Pass)
        → Holds sha256 p
        → AfterRound (Holds sha256) (relieve_large json writable now c p)
    unfolding relieve_large
    relieve_large-Holds (manifest u k) p h =
        of_Either (Holds sha256) _ (spill_manifest-Holds sha256 writable json u k p h)
    relieve_large-Holds (redis k u size) p h =
        of_Either (Holds sha256) _ (spill_redis-Holds sha256 writable k u size p h)

    relieve_small-Holds :
        (c : Candidate) (p : Pass)
        → Holds sha256 p
        → AfterRound (Holds sha256) (relieve_small json writable now c p)
    unfolding relieve_small
    relieve_small-Holds (manifest u k) p h = drop_manifest-Holds sha256 json now k p h
    relieve_small-Holds (redis k u size) p h = drop_small_redis-Holds sha256 k size p h

    relieve_disk-Holds :
        (c : Candidate) (p : Pass)
        → Holds sha256 p
        → AfterRound (Holds sha256) (relieve_disk json writable now c p)
    unfolding relieve_disk
    relieve_disk-Holds (manifest u k) p h = drop_manifest-Holds sha256 json now k p h
    relieve_disk-Holds (redis k u size) p h = drop_disk_redis-Holds sha256 k size p h

    round-Holds :
        (p : Pass) → Holds sha256 p → AfterRound (Holds sha256) (round json writable now p)
    unfolding round
    round-Holds p h = elim (Option-cases (pop_if (over_small p) p.small_candidates)) [
      | inr ((c, cs), e) ↦
          rw (e, round) (relieve_small-Holds c (record p { small_candidates = cs }) h)
      | inl e ↦ elim (Option-cases (pop_if (over_memory p) p.large_candidates)) [
        | inr ((c, cs), f) ↦
            rw (e, f, round) (relieve_large-Holds c (record p { large_candidates = cs }) h)
        | inl f ↦ elim (Option-cases (pop_if (over_disk p) p.disk_candidates)) [
          | inr ((c, cs), g) ↦
              rw (e, f, g, round) (relieve_disk-Holds c (record p { disk_candidates = cs }) h)
          | inl g ↦ rw (e, f, g, round) h
        ]
      ]
    ]

    loop-Holds :
        (fuel : ℕ) (p : Pass)
        → Holds sha256 p
        → AfterLoop (Holds sha256) (loop json writable now fuel p)
    unfolding loop
    loop-Holds zero p h = tt
    loop-Holds (suc fuel) p h =
        after_round_lem (Holds sha256) _ (round json writable now p) (loop-Holds fuel)
          (round-Holds p h)

  swept-IsAddressed :
      (gone : Option Blob) (s : State) → IsAddressed sha256 s → IsAddressed sha256 (swept s gone)
  unfolding swept
  swept-IsAddressed none s h = h
  swept-IsAddressed (some (Blob.in_memory id content media t)) s h = record {
    blobs = h.blobs;
    uploads = h.uploads;
  }
  swept-IsAddressed (some (Blob.on_disk id size media t)) s h = record {
    blobs = h.blobs;
    uploads = h.uploads;
  }

  sweep-IsAddressed :
      (now : ℕ) (m : Map Digest BlobBk) (s : State)
      → IsAddressed sha256 s
      → IsAddressed sha256 (sweep now m s)
  unfolding sweep sweep_one
  sweep-IsAddressed now [] s h = h
  sweep-IsAddressed now ((d, bb) ∷ m) s h = sweep-IsAddressed now m (sweep_one now d bb s) one
    where
      one : IsAddressed sha256 (sweep_one now d bb s)
      one = elim (Bool-cases (not (bb.refs == 0) || ltb (now - bb.touched) blob_grace_seconds)) [
        | inl e ↦ rw e h
        | inr e ↦ rw e (
            swept-IsAddressed (remove_blob d s).1 (remove_blob d s).0
              (remove_blob-IsAddressed sha256 d s h))
      ]

  of_loop-Holds :
      (now : ℕ) (o : Option Outcome)
      → o ≢ none
      → AfterLoop (Holds sha256) o
      → Leaves (IsAddressed sha256) (of_loop now o)
  unfolding of_loop finish publish
  of_loop-Holds now none n h = n refl
  of_loop-Holds now (some (failed p)) n h = h
  of_loop-Holds now (some (ok p)) n h =
      let g = sweep-IsAddressed now p.blobs p.state h in
      record { blobs = g.blobs; uploads = g.uploads }

  scan_blobs-state : (m : Map Digest Blob) (p : Pass) → (scan_blobs m p).state ≡ p.state
  unfolding scan_blobs
  scan_blobs-state [] p = refl
  scan_blobs-state ((d, b) ∷ m) p =
      scan_blobs-state m _ ∙ (add_blob-state (tier_of b) (size_of b) p).0

  scan_manifests-state :
      (json : Bytes → Option Value) (m : Map Digest Manifest) (p : Pass)
      → (scan_manifests json m p).state ≡ p.state
  unfolding scan_manifests scan_manifest
  scan_manifests-state json [] p = refl
  scan_manifests-state json ((d, b) ∷ m) p = scan_manifests-state json m (scan_manifest json d b p)

  scan-state : (json : Bytes → Option Value) (s : State) → (scan json s).state ≡ s
  unfolding scan empty_pass
  scan-state json s =
      (scan_redis-same s.redis_entries _).0
      ∙ scan_manifests-state json s.manifests _
      ∙ scan_blobs-state s.blobs (empty_pass s)

  -- If every blob in memory stands under the digest of its bytes, and every upload's hasher was fed what is
  -- in its buffer, this holds after a pass of the eviction, which ends, be it with an error.
  pub evict-IsAddressed :
      (json : Bytes → Option Value) (writable : ℕ → Bool) (s : State)
      → IsAddressed sha256 s
      → Leaves (IsAddressed sha256) (evict json writable s)
  unfolding evict
  evict-IsAddressed json writable s h =
      let p = scan json (count_run s) in
      let g : IsAddressed sha256 (count_run s) = record { blobs = h.blobs; uploads = h.uploads } in
      of_loop-Holds s.now (loop json writable s.now (rounds p + 1) p)
        (loop_ends json writable s.now (rounds p + 1) p (omega arith))
        (loop-Holds json writable s.now (rounds p + 1) p
          (subst (IsAddressed sha256) (sym (scan-state json (count_run s))) g))
