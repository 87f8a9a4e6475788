-- ===== src/Eviction/Keeps/Whole.antt =====
-- What a whole pass of `evict`, src/eviction.rs, leaves in the cache.
use dockfoxprox.Base.{
  ℕ, zero, suc, ◌+◌, ◌-◌, ◌<◌, ◌^◌, ◌≡◌, ◌≢◌, ◌⊎◌, inl, inr, refl, sym, ◌∙◌, arith, Bool, false,
  Option, none, some, [], ◌∷◌, Bytes, ltb, ◌==◌, not, ◌||◌, Option-cases, Bool-cases,
}
use dockfoxprox.Base.Map.{Map, lookup, Unique}
use dockfoxprox.Base.Text.{bytes_key, Bytes-discrete}
use dockfoxprox.State.{State, Digest, Manifest, Blob, last_accessed, remove_blob}
use dockfoxprox.Eviction.Json.{Value}
use dockfoxprox.Eviction.Pass.{Pass, BlobBk, Candidate, manifest, redis, blob_grace_seconds, scan}
use dockfoxprox.Eviction.Step.{Outcome, ok, failed}
use dockfoxprox.Eviction.Evict.{
  Round, again, finished, stopped, of_outcome, pop_if, over_small, over_memory, over_disk,
  relieve_small, relieve_large, relieve_disk, round, after_round, loop, sweep_one, sweep, swept,
  rounds, Result, done, error, stuck, count_run, of_loop, publish, finish, evict,
}
use dockfoxprox.Eviction.Ends.{loop_ends}
use dockfoxprox.Eviction.Keeps.Scan.{scan-IsTracked}
use dockfoxprox.Eviction.Keeps.Tracked.{references, AllAt, Present, IsFree, Counts, IsTracked}
use dockfoxprox.Eviction.Keeps.Spill.{Either, spill_manifest-IsTracked, spill_redis-IsTracked}
use dockfoxprox.Eviction.Keeps.Drop.{
  drop_manifest-IsTracked, drop_small_redis-IsTracked, drop_disk_redis-IsTracked,
  lookup-remove_blob_ne, manifests-remove_blob,
}

-- What the result of a pass satisfies, whether it returns or fails; running out of rounds is neither.
abbrev pub Leaves : (State → Type 0) → Result → Type 0
Leaves P (done s) = P s
Leaves P (error s) = P s
Leaves P stuck = ⊥

-- What holds of the bookkeeping after a round, and after the loop.
abbrev pub AfterRound : (Pass → Type 0) → Round → Type 0
AfterRound P (again p) = P p
AfterRound P (finished p) = P p
AfterRound P (stopped p) = P p

abbrev pub AfterLoop : (Pass → Type 0) → Option Outcome → Type 0
AfterLoop P none = Unit
AfterLoop P (some o) = Either P o

pub of_Either : (P : Pass → Type 0) (o : Outcome) → Either P o → AfterRound P (of_outcome o)
of_Either P (ok p) h = h
of_Either P (failed p) h = h

pub after_round_lem :
    (P : Pass → Type 0) (next : Pass → Option Outcome) (r : Round)
    → ((p : Pass) → P p → AfterLoop P (next p))
    → AfterRound P r
    → AfterLoop P (after_round next r)
unfolding after_round
after_round_lem P next (again q) f h = f q h
after_round_lem P next (finished q) f h = h
after_round_lem P next (stopped q) f h = h

module _ (json : Bytes → Option Value) (writable : ℕ → Bool) (d : Digest) (t now : ℕ) where
  abbrev Tracked : Pass → Type 0
  Tracked = IsTracked json d t now 0

  relieve_small-IsTracked :
      (c : Candidate) (p : Pass)
      → Tracked p
      → AfterRound Tracked (relieve_small json writable now c p)
  unfolding relieve_small
  relieve_small-IsTracked (manifest u k) p h = drop_manifest-IsTracked json d t now k p h
  relieve_small-IsTracked (redis k u size) p h = drop_small_redis-IsTracked json d t now k size p h

  relieve_disk-IsTracked :
      (c : Candidate) (p : Pass)
      → Tracked p
      → AfterRound Tracked (relieve_disk json writable now c p)
  unfolding relieve_disk
  relieve_disk-IsTracked (manifest u k) p h = drop_manifest-IsTracked json d t now k p h
  relieve_disk-IsTracked (redis k u size) p h = drop_disk_redis-IsTracked json d t now k size p h

  relieve_large-IsTracked :
      (c : Candidate) (p : Pass)
      → Tracked p
      → AfterRound Tracked (relieve_large json writable now c p)
  unfolding relieve_large
  relieve_large-IsTracked (manifest u k) p h =
      of_Either Tracked _ (spill_manifest-IsTracked json writable d t now u k p h)
  relieve_large-IsTracked (redis k u size) p h =
      of_Either Tracked _ (spill_redis-IsTracked json writable d t now k u size p h)

  round-IsTracked : (p : Pass) → Tracked p → AfterRound Tracked (round json writable now p)
  unfolding round
  round-IsTracked p h = elim (Option-cases (pop_if (over_small p) p.small_candidates)) [
    | inr ((c, cs), e) ↦
        rw (e, round)
          (relieve_small-IsTracked c (record p { small_candidates = cs })
            (record { counted = h.counted; kept = h.kept }))
    | inl e ↦ elim (Option-cases (pop_if (over_memory p) p.large_candidates)) [
      | inr ((c, cs), f) ↦
          rw (e, f, round)
            (relieve_large-IsTracked c (record p { large_candidates = cs })
              (record { counted = h.counted; kept = h.kept }))
      | inl f ↦ elim (Option-cases (pop_if (over_disk p) p.disk_candidates)) [
        | inr ((c, cs), g) ↦
            rw (e, f, g, round)
              (relieve_disk-IsTracked c (record p { disk_candidates = cs })
                (record { counted = h.counted; kept = h.kept }))
        | inl g ↦ rw (e, f, g, round) h
      ]
    ]
  ]

  pub loop-IsTracked :
      (fuel : ℕ) (p : Pass) → Tracked p → AfterLoop Tracked (loop json writable now fuel p)
  unfolding loop
  loop-IsTracked zero p h = tt
  loop-IsTracked (suc fuel) p h =
      after_round_lem Tracked _ (round json writable now p) (loop-IsTracked fuel)
        (round-IsTracked p h)

module _ (json : Bytes → Option Value) (d : Digest) (t now : ℕ) where
  -- Still in the cache with the same time, or unreferenced by any manifest and past the grace period.
  abbrev pub Kept : State → Type 0
  Kept s = Present json d t now s.blobs ⊎ IsFree json d t now s.manifests

  remove_blob-Kept :
      (r : Digest) (s : State)
      → (r ≡ d → IsFree json d t now s.manifests)
      → Kept s
      → Kept (remove_blob r s).0
  remove_blob-Kept r s free (inr h) = inr (rw (manifests-remove_blob r s) h.0, h.1)
  remove_blob-Kept r s free (inl (b, found, time)) = elim (Bytes-discrete d r) [
    | yes e ↦ let h = free (sym e) in inr (rw (manifests-remove_blob r s) h.0, h.1)
    | no e ↦ inl (b, lookup-remove_blob_ne d r s e ∙ found, time)
  ]

  -- The test before a blob is swept away.
  IsFree-of_sweep :
      (bb : BlobBk) (m : Map Digest Manifest)
      → Counts json d t now 0 m bb
      → (not (bb.refs == 0) || ltb (now - bb.touched) blob_grace_seconds) ≡ false
      → IsFree json d t now m
  IsFree-of_sweep bb m c e = ground (arith, c.0, c.1)

  abbrev Swept : State → State → Type 0
  Swept s s' = Kept s' × (s'.manifests ≡ s.manifests)

  sweep_one-Kept :
      (r : Digest) (bb : BlobBk) (s : State)
      → (r ≡ d → Counts json d t now 0 s.manifests bb)
      → Kept s
      → Swept s (sweep_one now r bb s)
  unfolding sweep_one
  sweep_one-Kept r bb s c h =
      elim (Bool-cases (not (bb.refs == 0) || ltb (now - bb.touched) blob_grace_seconds)) [
        | inl e ↦ rw e (h, refl)
        | inr e ↦ rw e (
            gone (remove_blob r s).0 (remove_blob r s).1
              (remove_blob-Kept r s (λ same. IsFree-of_sweep bb s.manifests (c same) e) h)
              (manifests-remove_blob r s))
      ]
    where
      gone :
          (s' : State) (o : Option Blob)
          → Kept s'
          → s'.manifests ≡ s.manifests
          → Swept s (swept s' o)
      gone s' none k e = (k, e)
      gone s' (some (Blob.in_memory id content media u)) k e = (k, e)
      gone s' (some (Blob.on_disk id size media u)) k e = (k, e)

  sweep-Kept :
      (m : Map Digest BlobBk) (s : State)
      → AllAt d (Counts json d t now 0 s.manifests) m
      → Kept s
      → Kept (sweep now m s)
  unfolding sweep
  sweep-Kept [] s c h = h
  sweep-Kept ((r, bb) ∷ m) s c h =
      let (k, e) = sweep_one-Kept r bb s c.0 h in sweep-Kept m (sweep_one now r bb s) (rw e c.1) k

  finish-Kept : (p : Pass) → IsTracked json d t now 0 p → Kept (finish now p)
  unfolding finish publish
  finish-Kept p h = sweep-Kept p.blobs p.state h.counted h.kept

  of_loop-Kept :
      (o : Option Outcome)
      → o ≢ none
      → AfterLoop (IsTracked json d t now 0) o
      → Leaves Kept (of_loop now o)
  unfolding of_loop
  of_loop-Kept none n h = n refl
  of_loop-Kept (some (ok p)) n h = finish-Kept p h
  of_loop-Kept (some (failed p)) n h = h.kept

-- Every blob that is in the cache before a pass is in the cache after it, with the time of its last
-- access, unless no manifest that is left in the cache refers to it and its last access lies at least
-- the grace period back; the pass always ends, and this holds also where it ends with an error. It
-- is so for every cache with one entry a digest and fewer than 2^32 references to the blob.
pub evict_keeps :
    (json : Bytes → Option Value) (writable : ℕ → Bool) (d : Digest) (b : Blob) (s : State)
    → Unique s.blobs
    → lookup d s.blobs ≡ some b
    → references json d s.manifests < 2 ^ 32
    → Leaves (Kept json d (last_accessed b) s.now) (evict json writable s)
unfolding evict
evict_keeps json writable d b s u e l =
    let t = last_accessed b in
    let p = scan json (count_run s) in
    let h = scan-IsTracked json d t s.now b (count_run s) u e refl l in
    of_loop-Kept json d t s.now (loop json writable s.now (rounds p + 1) p)
      (loop_ends json writable s.now (rounds p + 1) p (omega arith))
      (loop-IsTracked json writable d t s.now (rounds p + 1) p h)
