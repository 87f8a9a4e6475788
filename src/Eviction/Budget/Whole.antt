-- ===== src/Eviction/Budget/Whole.antt =====
-- The three pools after a whole pass of `evict`, src/eviction.rs.
use mathlib.Core.Path.{subst}
use dockfoxprox.Base.{
  ℕ, ◌+◌, ◌*◌, ◌≤◌, ◌<◌, ◌^◌, ◌≡◌, ◌≢◌, ◌⊎◌, ◌∙◌, inl, inr, refl, sym, ap, arith, Bool, false,
  Option, none, some, [], ◌∷◌, Bytes, ltb, add64,
}
use dockfoxprox.Base.Lists.{Among}
use dockfoxprox.Base.Map.{Map, lookup, Unique}
use dockfoxprox.Base.Text.{bytes_key}
use dockfoxprox.Config.{small_memory_limit}
use dockfoxprox.State.{State, Digest, Blob, remove_blob}
use dockfoxprox.State.Buckets.{Bucket, store, Bucket-discrete}
use dockfoxprox.Eviction.Json.{Value}
use dockfoxprox.Eviction.Pass.{Pass, BlobBk, manifest, pop, scan}
use dockfoxprox.Eviction.Step.{Outcome, ok, failed}
use dockfoxprox.Eviction.Evict.{
  target, over_small, over_memory, over_disk, rounds, Result, done, error, stuck, count_run,
  of_loop, swept, sweep_one, sweep, publish, finish, evict,
}
use dockfoxprox.Eviction.Ends.{loop_ends}
use dockfoxprox.Eviction.Listed.{manifest_bytes}
use dockfoxprox.Eviction.Listed.Scan.{scan-IsListed}
use dockfoxprox.Eviction.Budget.{Relieved, IsKept, AfterLoop, loop-AfterLoop}

-- An amount is at most three quarters of a limit, rounded up.
abbrev pub InBudget : ℕ → ℕ → Type 0
InBudget limit n = 4 * n ≤ 3 * limit + 3

target-InBudget : (limit n : ℕ) → ltb (target limit) n ≡ false → InBudget limit n
target-InBudget limit n h = ground arith

-- By the counters and the bytes of the manifests, each pool of a state is in the budget of another,
-- or nothing is left to be evicted from it: there is no manifest, or the pass found no candidate and
-- published the time of the pass for the oldest.
pub record IsRelieved (s t : State) : Type 0 where
  pub small :
      InBudget (small_memory_limit s.config) (
        add64
          (add64 (t.usage Bucket.small_blob_memory) (t.usage Bucket.small_redis_memory))
          (manifest_bytes t.manifests))
      ⊎ ((d : Digest) → lookup d t.manifests ≡ none)
  pub memory :
      InBudget s.config.memory_limit (
        add64
          (add64
            (add64
              (add64 (t.usage Bucket.large_blob_memory) (t.usage Bucket.large_redis_memory))
              (manifest_bytes t.manifests))
            (t.usage Bucket.small_blob_memory))
          (t.usage Bucket.small_redis_memory))
      ⊎ (t.metrics.oldest_large_memory_touch_time ≡ s.now)
  pub disk :
      InBudget s.config.disk_limit (add64 (t.usage Bucket.blob_disk) (t.usage Bucket.redis_disk))
      ⊎ (t.metrics.oldest_disk_touch_time ≡ s.now)

-- The sweep leaves the manifests.
remove_blob-manifests : (d : Digest) (s : State) → (remove_blob d s).0.manifests ≡ s.manifests
unfolding remove_blob
remove_blob-manifests d s = ground arith

swept-manifests : (s : State) (b : Option Blob) → (swept s b).manifests ≡ s.manifests
unfolding swept
swept-manifests s none = refl
swept-manifests s (some (Blob.in_memory id content media t)) = refl
swept-manifests s (some (Blob.on_disk id size media t)) = refl

sweep_one-manifests :
    (now : ℕ) (d : Digest) (bb : BlobBk) (s : State)
    → (sweep_one now d bb s).manifests ≡ s.manifests
unfolding sweep_one
sweep_one-manifests now d bb s =
    ground
      (arith, remove_blob-manifests d s, swept-manifests (remove_blob d s).0 (remove_blob d s).1)

sweep-manifests :
    (now : ℕ) (m : Map Digest BlobBk) (s : State) → (sweep now m s).manifests ≡ s.manifests
unfolding sweep
sweep-manifests now [] s = refl
sweep-manifests now ((d, bb) ∷ m) s =
    sweep-manifests now m (sweep_one now d bb s) ∙ sweep_one-manifests now d bb s

finish-IsRelieved :
    (s : State) (q : Pass) → IsKept s.config q → Relieved q → IsRelieved s (finish s.now q)
unfolding finish publish store Bucket-discrete over_small over_memory over_disk pop
finish-IsRelieved s q (listed, e) (small, memory, disk) =
    let bytes = sym (listed.bytes) in
    rw (sweep-manifests s.now q.blobs q.state) (record {
      small = elim small [
        | inl h ↦ inl (rw (bytes, sym e) (target-InBudget _ _ h))
        | inr h ↦ inr (λ d. elim (listed.listed d) [
          | inl n ↦ n
          | inr (t, m) ↦ absurd (subst (Among (manifest t d)) h m)
        ])
      ];
      memory = elim memory [
        | inl h ↦ inl (rw (bytes, sym e) (target-InBudget _ _ h))
        | inr h ↦ inr (rw h refl)
      ];
      disk = elim disk [
        | inl h ↦ inl (rw (sym e) (target-InBudget _ _ h))
        | inr h ↦ inr (rw h refl)
      ];
    })

-- How a pass ends: done and relieved, or with an error where a file cannot be written, and never cut
-- off.
abbrev pub Ends : (ℕ → Bool) → State → Result → Type 0
Ends writable s (done t) = IsRelieved s t
Ends writable s (error t) = (id : ℕ) × (writable id ≡ false)
Ends writable s stuck = ⊥

of_loop-Ends :
    (json : Bytes → Option Value) (writable : ℕ → Bool) (s : State) (o : Option Outcome)
    → o ≢ none
    → AfterLoop json writable s.now s.config o
    → Ends writable s (of_loop s.now o)
unfolding of_loop
of_loop-Ends json writable s none n h = n refl
of_loop-Ends json writable s (some (ok q)) n h = finish-IsRelieved s q h.0 h.1
of_loop-Ends json writable s (some (failed q)) n h = h

-- Every pass of `evict` ends, and with an error only if some file cannot be written. Where it ends well,
-- the small pool is within three quarters of its limit, rounded up, by the counters that are published
-- and the bytes of the manifests that are left, or no manifest is left; and the memory and the disk are
-- each within three quarters of theirs, or the pass publishes its own time as that of their oldest
-- candidate, as it does where there is none. It is so if the cache has one manifest a digest, of fewer
-- than 2^64 bytes in all. The sums are modulo 2^64.
pub evict_relieves :
    (json : Bytes → Option Value) (writable : ℕ → Bool) (s : State)
    → Unique s.manifests
    → manifest_bytes s.manifests < 2 ^ 64
    → Ends writable s (evict json writable s)
unfolding evict
evict_relieves json writable s u l =
    let p = scan json (count_run s) in
    let (listed, same) = scan-IsListed json (count_run s) u l in
    of_loop-Ends json writable s _ (loop_ends json writable s.now (rounds p + 1) p (omega arith)) (
      loop-AfterLoop json writable s.now s.config (rounds p + 1) p
        (listed, ap (λ t. t.config) same))
