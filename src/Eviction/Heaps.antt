-- ===== src/Eviction/Heaps.antt =====
-- What the steps of `evict` (src/eviction.rs) do to the three heaps of candidates.
use dockfoxprox.Base.{
  ℕ, ◌+◌, ◌≤◌, ◌≡◌, refl, ap, Bool, arith, Option, none, some, List, [], ◌∷◌, Bytes, length,
  length-append, inl, inr, Option-cases, Bool-cases, not, ◌||◌, ◌==◌,
}
use dockfoxprox.Base.Map.{lookup, insert}
use dockfoxprox.Base.Text.{bytes_key}
use dockfoxprox.State.{Digest, Blob, RedisEntry, remove_blob, remove_manifest}
use dockfoxprox.Eviction.Json.{Value, referenced_digests}
use dockfoxprox.Eviction.Pass.{Pass, BlobBk, Candidate, manifest, redis, push, is_large}
use dockfoxprox.Eviction.Step.{
  Outcome, ok, failed, ◌>>=◌, spill_blob, spill_ref, spill_refs, spill_manifest, spill_redis,
  drop_small_redis, drop_disk_redis, settle, reap, drop_ref, drop_refs, drop_manifest, mark_evicted,
  reap_if, release, spill_if, unevict,
}

-- The three heaps are those of another pass.
pub record SameHeaps (p q : Pass) : Type 0 where
  pub small : q.small_candidates ≡ p.small_candidates
  pub large : q.large_candidates ≡ p.large_candidates
  pub disk : q.disk_candidates ≡ p.disk_candidates

same : (p : Pass) → SameHeaps p p
same p = record { small = refl; large = refl; disk = refl }

trans : {p q r : Pass} → SameHeaps p q → SameHeaps q r → SameHeaps p r
trans h k = ground arith

settle-SameHeaps : (b : Option Blob) (p : Pass) → SameHeaps p (settle b p)
unfolding settle
settle-SameHeaps b p = ground arith

reap-SameHeaps : (r : Digest) (p : Pass) → SameHeaps p (reap r p)
unfolding reap
reap-SameHeaps r p =
    let h =
      settle-SameHeaps (remove_blob r p.state).1 (record p { state = (remove_blob r p.state).0 }) in
    record { small = h.small; large = h.large; disk = h.disk }

reap_if-SameHeaps :
    (now : ℕ) (bb : BlobBk) (r : Digest) (p : Pass) → SameHeaps p (reap_if now bb r p)
unfolding reap_if
reap_if-SameHeaps now bb r p = ground (arith, reap-SameHeaps r p)

drop_ref-SameHeaps :
    (now : ℕ) (old : Bool) (r : Digest) (p : Pass) → SameHeaps p (drop_ref now old r p)
unfolding drop_ref
drop_ref-SameHeaps now old r p = elim (Option-cases (lookup r p.blobs)) [
  | inl e ↦ rw (e, drop_ref) (same p)
  | inr (bb, e) ↦
      let bb' = release old bb in
      let h = reap_if-SameHeaps now bb' r (record p { blobs = insert r bb' p.blobs }) in
      rw (e, drop_ref) (record { small = h.small; large = h.large; disk = h.disk })
]

drop_refs-SameHeaps :
    (now : ℕ) (old : Bool) (rs : List Digest) (p : Pass) → SameHeaps p (drop_refs now old rs p)
unfolding drop_refs
drop_refs-SameHeaps now old [] p = same p
drop_refs-SameHeaps now old (r ∷ rs) p =
    trans (drop_ref-SameHeaps now old r p) (drop_refs-SameHeaps now old rs (drop_ref now old r p))

pub drop_small_redis-SameHeaps :
    (k : Bytes) (n : ℕ) (p : Pass) → SameHeaps p (drop_small_redis k n p)
unfolding drop_small_redis
drop_small_redis-SameHeaps k n p = ground arith

pub drop_disk_redis-SameHeaps : (k : Bytes) (n : ℕ) (p : Pass) → SameHeaps p (drop_disk_redis k n p)
unfolding drop_disk_redis
drop_disk_redis-SameHeaps k n p = ground arith

module _ (json : Bytes → Option Value) where
  pub drop_manifest-SameHeaps :
      (now : ℕ) (d : Digest) (p : Pass) → SameHeaps p (drop_manifest json now d p)
  unfolding drop_manifest
  drop_manifest-SameHeaps now d p = elim (Option-cases (remove_manifest d p.state).1) [
    | inl e ↦ rw (e, drop_manifest) (record { small = refl; large = refl; disk = refl })
    | inr (m, e) ↦
        let h = drop_refs-SameHeaps now m.evicted (referenced_digests json m.content) _ in
        rw (e, drop_manifest) (record { small = h.small; large = h.large; disk = h.disk })
  ]

-- An outcome whose heaps are those of a pass.
abbrev KeepsHeaps : Pass → Outcome → Type 0
KeepsHeaps p (ok q) = SameHeaps p q
KeepsHeaps p (failed q) = Unit

-- An outcome that put at most one candidate back, for the disk.
abbrev pub PutsBack : Pass → Outcome → Type 0
PutsBack p (ok q) =
    (q.small_candidates ≡ p.small_candidates)
    × (q.large_candidates ≡ p.large_candidates)
    × (length q.disk_candidates ≤ length p.disk_candidates + 1)
PutsBack p (failed q) = Unit

rebase : (p q : Pass) → SameHeaps p q → (o : Outcome) → KeepsHeaps q o → KeepsHeaps p o
rebase p q h (ok r) k = trans h k
rebase p q h (failed r) k = tt

chain :
    (p : Pass) (o : Outcome) (f : Pass → Outcome)
    → KeepsHeaps p o
    → ((q : Pass) → KeepsHeaps q (f q))
    → KeepsHeaps p (o >>= f)
chain p (ok q) f h k = rebase p q h (f q) (k q)
chain p (failed q) f h k = tt

put_back :
    (p : Pass) (o : Outcome) (c : Candidate)
    → KeepsHeaps p o
    → PutsBack p (o >>= λ q. ok (record q { disk_candidates = push c q.disk_candidates }))
put_back p (ok q) c h =
    (h.small, h.large, omega (arith, length-append q.disk_candidates (c ∷ []), ap length h.disk))
put_back p (failed q) c h = tt

module _ (writable : ℕ → Bool) where
  spill_blob-KeepsHeaps : (r : Digest) (p : Pass) → KeepsHeaps p (spill_blob writable r p)
  unfolding spill_blob
  spill_blob-KeepsHeaps r p = found (lookup r p.state.blobs) refl
    where
      found :
          (o : Option Blob) → lookup r p.state.blobs ≡ o → KeepsHeaps p (spill_blob writable r p)
      found none e = rw (e, spill_blob) (same p)
      found (some (Blob.on_disk id size media t)) e = rw (e, spill_blob) (same p)
      found (some (Blob.in_memory id content media t)) e = elim (Bool-cases (writable id)) [
        | inl w ↦ rw (e, w, spill_blob) (record { small = refl; large = refl; disk = refl })
        | inr w ↦ rw (e, w, spill_blob) tt
      ]

  spill_if-KeepsHeaps :
      (bb : BlobBk) (r : Digest) (p : Pass) → KeepsHeaps p (spill_if writable bb r p)
  unfolding spill_if
  spill_if-KeepsHeaps bb r p =
      elim (Bool-cases (not (bb.unevicted_refs == 0) || not (is_large bb.tier))) [
        | inl e ↦ rw e (same p)
        | inr e ↦ rw e (spill_blob-KeepsHeaps r p)
      ]

  spill_ref-KeepsHeaps :
      (old : Bool) (r : Digest) (p : Pass) → KeepsHeaps p (spill_ref writable old r p)
  unfolding spill_ref
  spill_ref-KeepsHeaps old r p = elim (Option-cases (lookup r p.blobs)) [
    | inl e ↦ rw (e, spill_ref) (same p)
    | inr (bb, e) ↦
        let q = record p { blobs = insert r (unevict old bb) p.blobs } in
        rw (e, spill_ref)
          (rebase p q (record { small = refl; large = refl; disk = refl }) _
            (spill_if-KeepsHeaps (unevict old bb) r q))
  ]

  spill_refs-KeepsHeaps :
      (old : Bool) (rs : List Digest) (p : Pass) → KeepsHeaps p (spill_refs writable old rs p)
  unfolding spill_refs
  spill_refs-KeepsHeaps old [] p = same p
  spill_refs-KeepsHeaps old (r ∷ rs) p =
      chain p (spill_ref writable old r p) _ (spill_ref-KeepsHeaps old r p)
        (λ q. spill_refs-KeepsHeaps old rs q)

  pub spill_manifest-PutsBack :
      (json : Bytes → Option Value) (t : ℕ) (d : Digest) (p : Pass)
      → PutsBack p (spill_manifest writable json t d p)
  unfolding spill_manifest
  spill_manifest-PutsBack json t d p = elim (Option-cases (lookup d p.state.manifests)) [
    | inl e ↦ rw (e, spill_manifest) (refl, refl, omega arith)
    | inr (mb, e) ↦
        let q = record p { state = mark_evicted d mb p.state } in
        let rs = referenced_digests json mb.content in
        rw (e, spill_manifest)
          (put_back p (spill_refs writable mb.evicted rs q) (manifest t d) (
            rebase p q (record { small = refl; large = refl; disk = refl }) _
              (spill_refs-KeepsHeaps mb.evicted rs q)))
  ]

  pub spill_redis-PutsBack :
      (k : Bytes) (t size : ℕ) (p : Pass) → PutsBack p (spill_redis writable k t size p)
  unfolding spill_redis
  spill_redis-PutsBack k t size p = found (lookup k p.state.redis_entries) refl
    where
      found :
          (o : Option RedisEntry)
          → lookup k p.state.redis_entries ≡ o
          → PutsBack p (spill_redis writable k t size p)
      found none e = rw (e, spill_redis) (refl, refl, omega arith)
      found (some (RedisEntry.on_disk n id t')) e = rw (e, spill_redis) (refl, refl, omega arith)
      found (some (RedisEntry.in_memory v id t')) e = elim (Bool-cases (writable id)) [
        | inl w ↦
            rw (e, w, spill_redis)
              (refl, refl, omega (arith, length-append p.disk_candidates (redis k t size ∷ [])))
        | inr w ↦ rw (e, w, spill_redis) tt
      ]
