-- ===== src/Eviction/Evict.antt =====
-- The whole pass: the loop of `evict`, its final sweep and what it publishes; src/eviction.rs. And the
-- test by which `evict_loop` runs it.
use dockfoxprox.Base.{
  ℕ, zero, suc, ◌+◌, ◌-◌, ◌/◌, Bool, false, ◌||◌, not, Option, none, some, List, [], ◌∷◌, Bytes,
  length, ltb, ◌==◌, if◌then◌else◌, add64, signed_gt,
}
use dockfoxprox.Base.Map.{Map}
use dockfoxprox.Config.{small_memory_limit}
use dockfoxprox.State.{
  State, Digest, Blob, remove_blob, small_memory_usage, total_memory_usage, total_disk_usage,
}
use dockfoxprox.State.Buckets.{Bucket, store}
use dockfoxprox.Eviction.Json.{Value}
use dockfoxprox.Eviction.Pass.{
  Pass, BlobBk, Candidate, manifest, redis, pop, last_access_time, blob_grace_seconds, scan,
}
use dockfoxprox.Eviction.Step.{
  Outcome, ok, failed, count, count_deleted, delete_file, spill_manifest, spill_redis,
  drop_small_redis, drop_disk_redis, drop_manifest,
}

-- Three quarters of a limit.
abbrev pub target : ℕ → ℕ
target limit = limit - limit / 4

unfoldable pub over_small : Pass → Bool
over_small p =
    ltb (target (small_memory_limit p.state.config))
      (add64 (add64 p.small_blob_memory p.small_redis_memory) p.manifest_memory)

unfoldable pub over_memory : Pass → Bool
over_memory p = ltb (target p.state.config.memory_limit) (
    add64
      (add64 (add64 (add64 p.large_blob_memory p.large_redis_memory) p.manifest_memory)
        p.small_blob_memory)
      p.small_redis_memory)

unfoldable pub over_disk : Pass → Bool
over_disk p = ltb (target p.state.config.disk_limit) (add64 p.blob_disk p.redis_disk)

-- `condition && let Some(candidate) = heap.pop()`.
abbrev pub pop_if : Bool → List Candidate → Option (Candidate × List Candidate)
pop_if c heap = if c then pop heap else none

-- A round of the loop: on to the next one, out of the loop by `break`, or out of `evict` by an error.
pub data Round : Type 0 where
  again : Pass → Round
  finished : Pass → Round
  stopped : Pass → Round

abbrev pub of_outcome : Outcome → Round
of_outcome (ok p) = again p
of_outcome (failed p) = stopped p

module _ (json : Bytes → Option Value) (writable : ℕ → Bool) (now : ℕ) where
  unfoldable pub relieve_small : Candidate → Pass → Round
  relieve_small (manifest t d) p = again (drop_manifest json now d p)
  relieve_small (redis k t size) p = again (drop_small_redis k size p)

  unfoldable pub relieve_large : Candidate → Pass → Round
  relieve_large (manifest t d) p = of_outcome (spill_manifest writable json t d p)
  relieve_large (redis k t size) p = of_outcome (spill_redis writable k t size p)

  unfoldable pub relieve_disk : Candidate → Pass → Round
  relieve_disk (manifest t d) p = again (drop_manifest json now d p)
  relieve_disk (redis k t size) p = again (drop_disk_redis k size p)

  unfoldable pub round : Pass → Round
  round p = elim (pop_if (over_small p) p.small_candidates) [
    | some (c, cs) ↦ relieve_small c (record p { small_candidates = cs })
    | none ↦ elim (pop_if (over_memory p) p.large_candidates) [
      | some (c, cs) ↦ relieve_large c (record p { large_candidates = cs })
      | none ↦ elim (pop_if (over_disk p) p.disk_candidates) [
        | some (c, cs) ↦ relieve_disk c (record p { disk_candidates = cs })
        | none ↦ finished p
      ]
    ]
  ]

-- What follows a round, `next` being the loop.
unfoldable pub after_round : (Pass → Option Outcome) → Round → Option Outcome
after_round next (again q) = next q
after_round next (finished q) = some (ok q)
after_round next (stopped q) = some (failed q)

module _ (json : Bytes → Option Value) (writable : ℕ → Bool) (now : ℕ) where
  -- The loop; `none` is no outcome of it but the end of the fuel.
  unfoldable pub loop : ℕ → Pass → Option Outcome
  unfolding after_round
  loop zero p = none
  loop (suc fuel) p = after_round (loop fuel) (round json writable now p)

-- What the sweep does once a blob is out of the cache.
unfoldable pub swept : State → Option Blob → State
swept s none = s
swept s (some (Blob.in_memory id content media t)) = count_deleted s
swept s (some (Blob.on_disk id size media t)) = delete_file id (count_deleted s)

module _ (now : ℕ) where
  -- The sweep over the bookkeeping: what has no reference and is old enough goes.
  unfoldable pub sweep_one : Digest → BlobBk → State → State
  unfolding swept
  sweep_one d bb s =
      if not (bb.refs == 0) || ltb (now - bb.touched) blob_grace_seconds
      then s
      else let (s', gone) = remove_blob d s in swept s' gone

  unfoldable pub sweep : Map Digest BlobBk → State → State
  sweep [] s = s
  sweep ((d, bb) ∷ m) s = sweep m (sweep_one d bb s)

  abbrev pub oldest : List Candidate → ℕ
  oldest heap = elim (pop heap) [ none ↦ now | some (c, cs) ↦ last_access_time c ]

  -- What the end of `evict` stores: the three touch times, and six of the seven counters, from the
  -- sums of the pass.
  unfoldable pub publish : Pass → State → State
  publish p s = record s {
    metrics = record (s.metrics) {
      oldest_small_memory_touch_time = oldest p.small_candidates;
      oldest_large_memory_touch_time = oldest p.large_candidates;
      oldest_disk_touch_time = oldest p.disk_candidates;
    };
    usage = store Bucket.redis_disk p.redis_disk (
        store Bucket.large_redis_memory p.large_redis_memory (
          store Bucket.small_redis_memory p.small_redis_memory (
            store Bucket.blob_disk p.blob_disk (
              store Bucket.large_blob_memory p.large_blob_memory
                (store Bucket.small_blob_memory p.small_blob_memory s.usage)))));
  }

  unfoldable pub finish : Pass → State
  finish p = publish p (sweep p.blobs p.state)

-- The rounds that a pass can take: a candidate for the large pool may come back for the disk.
abbrev pub rounds : Pass → ℕ
rounds p =
    length p.small_candidates
    + (length p.large_candidates + length p.large_candidates)
    + length p.disk_candidates

-- `Ok(())` or an error of `evict`, with the state that it leaves; `stuck` is the end of the fuel.
pub data Result : Type 0 where
  done : State → Result
  error : State → Result
  stuck : Result

abbrev pub count_run : State → State
count_run = count (λ m. record m { eviction_runs = add64 m.eviction_runs 1 })

unfoldable pub of_loop : ℕ → Option Outcome → Result
of_loop now none = stuck
of_loop now (some (failed q)) = error q.state
of_loop now (some (ok q)) = done (finish now q)

unfoldable pub evict : (Bytes → Option Value) → (ℕ → Bool) → State → Result
unfolding of_loop
evict json writable s =
    let p = scan json (count_run s) in of_loop s.now (loop json writable s.now (rounds p + 1) p)

-- The condition on which `evict_loop` runs a pass: i64 against the limits cast to i64.
unfoldable pub needs_eviction : State → Bool
needs_eviction s =
    signed_gt (small_memory_usage s) (small_memory_limit s.config)
    || signed_gt (total_memory_usage s) s.config.memory_limit
    || signed_gt (total_disk_usage s) s.config.disk_limit

-- A turn of `evict_loop`, once it is woken, which takes the notice.
unfoldable pub evict_turn : (Bytes → Option Value) → (ℕ → Bool) → State → Result
unfolding needs_eviction evict
evict_turn json writable s =
    let woken : State = record s { eviction_notify = false } in
    if needs_eviction woken then evict json writable woken else done woken
