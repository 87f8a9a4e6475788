-- ===== src/Eviction/Ends.antt =====
-- The number of rounds of the loop of `evict`, src/eviction.rs.
use dockfoxprox.Base.{
  ℕ, zero, suc, ◌+◌, ◌<◌, ◌≡◌, ◌≢◌, refl, ap, Bool, arith, Option, none, some, List, [], ◌∷◌, Bytes,
  length, inl, inr, Option-cases,
}
use dockfoxprox.Base.Text.{bytes_key}
use dockfoxprox.State.{State}
use dockfoxprox.Eviction.Json.{Value}
use dockfoxprox.Eviction.Pass.{Pass, Candidate, manifest, redis, scan, pop, choose}
use dockfoxprox.Eviction.Step.{Outcome, ok, failed}
use dockfoxprox.Eviction.Evict.{
  Round, again, finished, stopped, relieve_small, relieve_large, relieve_disk, round, loop, rounds,
  over_small, over_memory, over_disk, pop_if, of_outcome, after_round, of_loop, count_run, stuck,
  evict,
}
use dockfoxprox.Eviction.Heaps.{
  SameHeaps, PutsBack, drop_small_redis-SameHeaps, drop_disk_redis-SameHeaps,
  drop_manifest-SameHeaps, spill_manifest-PutsBack, spill_redis-PutsBack,
}

-- What `pop` gives of a heap: one candidate less.
abbrev Popped : List Candidate → Option (Candidate × List Candidate) → Type 0
Popped cs none = cs ≡ []
Popped cs (some (c, ds)) = length ds + 1 ≡ length cs

choose-Popped :
    (c : Candidate) (cs : List Candidate) (o : Option (Candidate × List Candidate))
    → Popped cs o
    → Popped (c ∷ cs) (choose c cs o)
unfolding choose
choose-Popped c cs none h = ground (arith, ap length h)
choose-Popped c cs (some (d, ds)) h = ground arith

pub pop-Popped : (cs : List Candidate) → Popped cs (pop cs)
unfolding pop
pop-Popped [] = refl
pop-Popped (c ∷ cs) = choose-Popped c cs (pop cs) (pop-Popped cs)

pub pop_if-Popped :
    (b : Bool) (cs : List Candidate) {c : Candidate} {ds : List Candidate}
    → pop_if b cs ≡ some (c, ds)
    → length ds + 1 ≡ length cs
pop_if-Popped b cs h = ground (arith, pop-Popped cs)

module _ (json : Bytes → Option Value) (writable : ℕ → Bool) (now : ℕ) where
  -- A round that goes on has fewer rounds before it.
  abbrev Shrinks : ℕ → Round → Type 0
  Shrinks n (again q) = rounds q < n
  Shrinks n (finished q) = Unit
  Shrinks n (stopped q) = Unit

  of_same : (p q : Pass) → SameHeaps p q → rounds q ≡ rounds p
  of_same p q h = omega (arith, ap length h.small, ap length h.large, ap length h.disk)

  of_put_back :
      (n : ℕ) (p : Pass) (o : Outcome) → PutsBack p o → rounds p + 1 < n → Shrinks n (of_outcome o)
  of_put_back n p (ok q) h l = omega (arith, ap length h.0, ap length h.1)
  of_put_back n p (failed q) h l = tt

  relieve_small-Shrinks :
      (n : ℕ) (c : Candidate) (p : Pass)
      → rounds p < n
      → Shrinks n (relieve_small json writable now c p)
  unfolding relieve_small
  relieve_small-Shrinks n (manifest t d) p l =
      omega (arith, of_same p _ (drop_manifest-SameHeaps json now d p))
  relieve_small-Shrinks n (redis k t size) p l =
      omega (arith, of_same p _ (drop_small_redis-SameHeaps k size p))

  relieve_disk-Shrinks :
      (n : ℕ) (c : Candidate) (p : Pass)
      → rounds p < n
      → Shrinks n (relieve_disk json writable now c p)
  unfolding relieve_disk
  relieve_disk-Shrinks n (manifest t d) p l =
      omega (arith, of_same p _ (drop_manifest-SameHeaps json now d p))
  relieve_disk-Shrinks n (redis k t size) p l =
      omega (arith, of_same p _ (drop_disk_redis-SameHeaps k size p))

  relieve_large-Shrinks :
      (n : ℕ) (c : Candidate) (p : Pass)
      → rounds p + 1 < n
      → Shrinks n (relieve_large json writable now c p)
  unfolding relieve_large
  relieve_large-Shrinks n (manifest t d) p l =
      of_put_back n p _ (spill_manifest-PutsBack writable json t d p) l
  relieve_large-Shrinks n (redis k t size) p l =
      of_put_back n p _ (spill_redis-PutsBack writable k t size p) l

  round-Shrinks : (p : Pass) → Shrinks (rounds p) (round json writable now p)
  unfolding round
  round-Shrinks p = elim (Option-cases (pop_if (over_small p) p.small_candidates)) [
    | inr ((c, cs), e) ↦
        rw (e, round)
          (relieve_small-Shrinks (rounds p) c (record p { small_candidates = cs })
            (omega (arith, pop_if-Popped (over_small p) p.small_candidates e)))
    | inl e ↦ elim (Option-cases (pop_if (over_memory p) p.large_candidates)) [
      | inr ((c, cs), f) ↦
          rw (e, f, round)
            (relieve_large-Shrinks (rounds p) c (record p { large_candidates = cs })
              (omega (arith, pop_if-Popped (over_memory p) p.large_candidates f)))
      | inl f ↦ elim (Option-cases (pop_if (over_disk p) p.disk_candidates)) [
        | inr ((c, cs), g) ↦
            rw (e, f, g, round)
              (relieve_disk-Shrinks (rounds p) c (record p { disk_candidates = cs })
                (omega (arith, pop_if-Popped (over_disk p) p.disk_candidates g)))
        | inl g ↦ rw (e, f, g, round) tt
      ]
    ]
  ]

  loop_next :
      (fuel n : ℕ) (r : Round)
      → Shrinks n r
      → n < fuel + 1
      → ((q : Pass) → rounds q < fuel → loop json writable now fuel q ≢ none)
      → after_round (loop json writable now fuel) r ≢ none
  unfolding after_round
  loop_next fuel n (again q) h l k = k q (omega arith)
  loop_next fuel n (finished q) h l k = λ e. cc
  loop_next fuel n (stopped q) h l k = λ e. cc

  pub loop_ends : (fuel : ℕ) (p : Pass) → rounds p < fuel → loop json writable now fuel p ≢ none
  unfolding loop
  loop_ends zero p h = elim h [ ]
  loop_ends (suc fuel) p h =
      loop_next fuel (rounds p) (round json writable now p) (round-Shrinks p) (omega arith)
        (loop_ends fuel)

of_loop_ends : (now : ℕ) (o : Option Outcome) → o ≢ none → of_loop now o ≢ stuck
unfolding of_loop
of_loop_ends now none h = absurd (h refl)
of_loop_ends now (some (ok q)) h = λ e. cc
of_loop_ends now (some (failed q)) h = λ e. cc

-- A pass ends, for every content of the caches, every reading of the manifests and every failure of
-- the disk: it returns or fails, and never runs out of rounds.
pub evict_ends :
    (json : Bytes → Option Value) (writable : ℕ → Bool) (s : State) → evict json writable s ≢ stuck
unfolding evict
evict_ends json writable s =
    let p = scan json (count_run s) in
    of_loop_ends s.now _ (loop_ends json writable s.now (rounds p + 1) p (omega arith))
