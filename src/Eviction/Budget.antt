-- ===== src/Eviction/Budget.antt =====
-- The state of the three pools when the loop of `evict`, src/eviction.rs, has ended.
pub mod Whole
use mathlib.Core.Path.{subst}
use dockfoxprox.Base.{
  ℕ, zero, suc, ◌≡◌, ◌≢◌, ◌⊎◌, ◌∙◌, inl, inr, refl, arith, Bool, true, false, Option, none, some,
  List, [], ◌∷◌, Bytes, Option-cases,
}
use dockfoxprox.Base.Lists.{Among}
use dockfoxprox.Config.{Config}
use dockfoxprox.Eviction.Json.{Value}
use dockfoxprox.Eviction.Pass.{Pass, Candidate, manifest, redis, choose, pop}
use dockfoxprox.Eviction.Step.{Outcome, ok, failed}
use dockfoxprox.Eviction.Evict.{
  Round, again, finished, stopped, of_outcome, pop_if, over_small, over_memory, over_disk,
  relieve_small, relieve_large, relieve_disk, round, after_round, loop,
}
use dockfoxprox.Eviction.Frame.{Same, drop_small_redis-Same, drop_disk_redis-Same, spill_redis-Same}
use dockfoxprox.Eviction.Listed.{
  IsListed, Same-IsListed, PopsAll, pop-PopsAll, ListedIn-rest, drop_manifest-IsListed,
  ListedOrUnwritten, Same-ListedOrUnwritten, spill_manifest-ListedOrUnwritten,
}

-- Each pool is within three quarters of its limit, or nothing is left that could be evicted from it.
abbrev pub Relieved : Pass → Type 0
Relieved p =
    ((over_small p ≡ false) ⊎ (p.small_candidates ≡ []))
    × ((over_memory p ≡ false) ⊎ (p.large_candidates ≡ []))
    × ((over_disk p ≡ false) ⊎ (p.disk_candidates ≡ []))

choose-some :
    (c : Candidate) (cs : List Candidate) (o : Option (Candidate × List Candidate))
    → choose c cs o ≢ none
unfolding choose
choose-some c cs none = λ e. cc
choose-some c cs (some (d, ds)) = ground arith

pop-none : (cs : List Candidate) → pop cs ≡ none → cs ≡ []
unfolding pop
pop-none [] e = refl
pop-none (c ∷ cs) e = absurd (choose-some c cs (pop cs) e)

pop_if-none : (b : Bool) (cs : List Candidate) → pop_if b cs ≡ none → (b ≡ false) ⊎ (cs ≡ [])
pop_if-none true cs e = inr (pop-none cs e)
pop_if-none false cs e = inl refl

pop_if-Rest :
    (b : Bool) (heap : List Candidate) (c : Candidate) (cs : List Candidate)
    → pop_if b heap ≡ some (c, cs)
    → (x : Candidate) → Among x heap
    → (x ≡ c) ⊎ Among x cs
pop_if-Rest true heap c cs e = subst (PopsAll heap) e (pop-PopsAll heap)
pop_if-Rest false heap c cs e = λ x m. absurd (cc e)

-- A pass with a configuration, whose manifests are listed.
abbrev pub IsKept : Config → Pass → Type 0
IsKept c p = IsListed p × (p.state.config ≡ c)

kept_on : (c : Config) (p q : Pass) → Same p q → IsKept c p → IsKept c q
kept_on c p q h k = (Same-IsListed p q h k.0, h.config ∙ k.1)

module _ (json : Bytes → Option Value) (writable : ℕ → Bool) (now : ℕ) (c : Config) where
  -- A round keeps this, leaves the loop by `break` only where the pools are relieved, and fails only
  -- where a file cannot be written.
  abbrev AfterRound : Round → Type 0
  AfterRound (again p) = IsKept c p
  AfterRound (finished p) = IsKept c p × Relieved p
  AfterRound (stopped p) = (id : ℕ) × (writable id ≡ false)

  of_outcome-AfterRound :
      (p : Pass) (o : Outcome)
      → p.state.config ≡ c
      → ListedOrUnwritten writable p o
      → AfterRound (of_outcome o)
  of_outcome-AfterRound p (ok q) e h = (h.0, h.1 ∙ e)
  of_outcome-AfterRound p (failed q) e h = h

  abbrev Rest : List Candidate → Candidate → List Candidate → Type 0
  Rest heap d cs = (x : Candidate) → Among x heap → (x ≡ d) ⊎ Among x cs

  relieve_small-AfterRound :
      (d : Candidate) (cs : List Candidate) (p : Pass)
      → Rest p.small_candidates d cs
      → IsKept c p
      → AfterRound (relieve_small json writable now d (record p { small_candidates = cs }))
  unfolding relieve_small
  relieve_small-AfterRound (manifest t k) cs p pops h =
      let q = record p { small_candidates = cs } in
      let (l, e) = drop_manifest-IsListed json now t k q p.small_candidates pops h.0 in (l, e ∙ h.1)
  relieve_small-AfterRound (redis k t size) cs p pops h =
      let q = record p { small_candidates = cs } in
      kept_on c q _ (drop_small_redis-Same k size q) (
        ListedIn-rest p.state.manifests p.manifest_memory p.small_candidates cs (redis k t size)
            pops (λ u j e. absurd (cc e)) h.0,
        h.1,
      )

  relieve_disk-AfterRound :
      (d : Candidate) (cs : List Candidate) (p : Pass)
      → IsKept c p
      → AfterRound (relieve_disk json writable now d (record p { disk_candidates = cs }))
  unfolding relieve_disk
  relieve_disk-AfterRound (manifest t k) cs p h =
      let q = record p { disk_candidates = cs } in
      let (l, e) = drop_manifest-IsListed json now t k q p.small_candidates (λ x m. inr m) h.0 in
      (l, e ∙ h.1)
  relieve_disk-AfterRound (redis k t size) cs p h =
      let q = record p { disk_candidates = cs } in kept_on c q _ (drop_disk_redis-Same k size q) h

  relieve_large-AfterRound :
      (d : Candidate) (cs : List Candidate) (p : Pass)
      → IsKept c p
      → AfterRound (relieve_large json writable now d (record p { large_candidates = cs }))
  unfolding relieve_large
  relieve_large-AfterRound (manifest t k) cs p h =
      let q = record p { large_candidates = cs } in
      of_outcome-AfterRound q _ h.1 (spill_manifest-ListedOrUnwritten writable json t k q h.0)
  relieve_large-AfterRound (redis k t size) cs p h =
      let q = record p { large_candidates = cs } in
      of_outcome-AfterRound q _ h.1
        (Same-ListedOrUnwritten writable q _ (spill_redis-Same writable k t size q) h.0)

  round-AfterRound : (p : Pass) → IsKept c p → AfterRound (round json writable now p)
  unfolding round
  round-AfterRound p h = elim (Option-cases (pop_if (over_small p) p.small_candidates)) [
    | inr ((d, cs), e) ↦
        rw (e, round)
          (relieve_small-AfterRound d cs p (pop_if-Rest (over_small p) p.small_candidates d cs e) h)
    | inl e ↦ elim (Option-cases (pop_if (over_memory p) p.large_candidates)) [
      | inr ((d, cs), f) ↦ rw (e, f, round) (relieve_large-AfterRound d cs p h)
      | inl f ↦ elim (Option-cases (pop_if (over_disk p) p.disk_candidates)) [
        | inr ((d, cs), g) ↦ rw (e, f, g, round) (relieve_disk-AfterRound d cs p h)
        | inl g ↦ rw (e, f, g, round) (h, (pop_if-none _ _ e, pop_if-none _ _ f, pop_if-none _ _ g))
      ]
    ]
  ]

  abbrev pub AfterLoop : Option Outcome → Type 0
  AfterLoop none = Unit
  AfterLoop (some (ok q)) = IsKept c q × Relieved q
  AfterLoop (some (failed q)) = (id : ℕ) × (writable id ≡ false)

  after_round-AfterLoop :
      (next : Pass → Option Outcome) (r : Round)
      → ((p : Pass) → IsKept c p → AfterLoop (next p))
      → AfterRound r
      → AfterLoop (after_round next r)
  unfolding after_round
  after_round-AfterLoop next (again p) f h = f p h
  after_round-AfterLoop next (finished p) f h = h
  after_round-AfterLoop next (stopped p) f h = h

  pub loop-AfterLoop :
      (fuel : ℕ) (p : Pass) → IsKept c p → AfterLoop (loop json writable now fuel p)
  unfolding loop
  loop-AfterLoop zero p h = tt
  loop-AfterLoop (suc fuel) p h =
      after_round-AfterLoop _ (round json writable now p) (loop-AfterLoop fuel)
        (round-AfterRound p h)
