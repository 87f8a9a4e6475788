-- ===== src/Eviction/Frame.antt =====
-- What the steps of `evict` (src/eviction.rs) that drop no manifest leave as it is, and when they fail.
use dockfoxprox.Base.{
  ℕ, ◌≡◌, refl, Bool, false, arith, Option, none, some, List, [], ◌∷◌, Bytes, inl, inr,
  Option-cases, Bool-cases, not, ◌||◌, ◌==◌,
}
use dockfoxprox.Base.Map.{lookup, insert}
use dockfoxprox.Base.Text.{bytes_key}
use dockfoxprox.State.{Digest, Blob, RedisEntry, insert_blob, remove_blob, remove_redis}
use dockfoxprox.Eviction.Pass.{Pass, BlobBk, is_large}
use dockfoxprox.Eviction.Step.{
  Outcome, ok, failed, ◌>>=◌, spill_blob, spill_ref, spill_refs, spill_redis, drop_small_redis,
  drop_disk_redis, settle, reap, drop_ref, drop_refs, reap_if, release, spill_if, unevict,
}

-- The manifests, their sum, the small candidates and the configuration are those of another pass.
pub record Same (p q : Pass) : Type 0 where
  pub manifests : q.state.manifests ≡ p.state.manifests
  pub memory : q.manifest_memory ≡ p.manifest_memory
  pub small : q.small_candidates ≡ p.small_candidates
  pub config : q.state.config ≡ p.state.config

same : (p : Pass) → Same p p
same p = record { manifests = refl; memory = refl; small = refl; config = refl }

pub trans : {p q r : Pass} → Same p q → Same q r → Same p r
trans h k = ground arith

settle-Same : (b : Option Blob) (p : Pass) → Same p (settle b p)
unfolding settle
settle-Same b p = ground arith

remove_blob-Same : (r : Digest) (p : Pass) → Same p (record p { state = (remove_blob r p.state).0 })
unfolding remove_blob
remove_blob-Same r p = ground arith

reap-Same : (r : Digest) (p : Pass) → Same p (reap r p)
unfolding reap
reap-Same r p =
    trans (remove_blob-Same r p)
      (settle-Same (remove_blob r p.state).1 (record p { state = (remove_blob r p.state).0 }))

reap_if-Same : (now : ℕ) (bb : BlobBk) (r : Digest) (p : Pass) → Same p (reap_if now bb r p)
unfolding reap_if
reap_if-Same now bb r p = ground (arith, reap-Same r p)

drop_ref-Same : (now : ℕ) (old : Bool) (r : Digest) (p : Pass) → Same p (drop_ref now old r p)
unfolding drop_ref
drop_ref-Same now old r p = elim (Option-cases (lookup r p.blobs)) [
  | inl e ↦ rw (e, drop_ref) (same p)
  | inr (bb, e) ↦
      let bb' = release old bb in
      let h = reap_if-Same now bb' r (record p { blobs = insert r bb' p.blobs }) in
      rw (e, drop_ref)
        (record { manifests = h.manifests; memory = h.memory; small = h.small; config = h.config })
]

pub drop_refs-Same :
    (now : ℕ) (old : Bool) (rs : List Digest) (p : Pass) → Same p (drop_refs now old rs p)
unfolding drop_refs
drop_refs-Same now old [] p = same p
drop_refs-Same now old (r ∷ rs) p =
    trans (drop_ref-Same now old r p) (drop_refs-Same now old rs (drop_ref now old r p))

pub drop_small_redis-Same : (k : Bytes) (n : ℕ) (p : Pass) → Same p (drop_small_redis k n p)
unfolding drop_small_redis remove_redis
drop_small_redis-Same k n p = ground arith

pub drop_disk_redis-Same : (k : Bytes) (n : ℕ) (p : Pass) → Same p (drop_disk_redis k n p)
unfolding drop_disk_redis remove_redis
drop_disk_redis-Same k n p = ground arith

module _ (writable : ℕ → Bool) where
  -- A step that ends well keeps these; one that fails does so since a file cannot be written.
  abbrev pub SameOrUnwritten : Pass → Outcome → Type 0
  SameOrUnwritten p (ok q) = Same p q
  SameOrUnwritten p (failed q) = (id : ℕ) × (writable id ≡ false)

  rebase : (p q : Pass) → Same p q → (o : Outcome) → SameOrUnwritten q o → SameOrUnwritten p o
  rebase p q h (ok r) k = trans h k
  rebase p q h (failed r) k = k

  chain :
      (p : Pass) (o : Outcome) (f : Pass → Outcome)
      → SameOrUnwritten p o
      → ((q : Pass) → SameOrUnwritten q (f q))
      → SameOrUnwritten p (o >>= f)
  chain p (ok q) f h k = rebase p q h (f q) (k q)
  chain p (failed q) f h k = h

  spill_blob-Same : (r : Digest) (p : Pass) → SameOrUnwritten p (spill_blob writable r p)
  unfolding spill_blob insert_blob
  spill_blob-Same r p = found (lookup r p.state.blobs) refl
    where
      found :
          (o : Option Blob)
          → lookup r p.state.blobs ≡ o
          → SameOrUnwritten p (spill_blob writable r p)
      found none e = rw (e, spill_blob) (same p)
      found (some (Blob.on_disk id size media t)) e = rw (e, spill_blob) (same p)
      found (some (Blob.in_memory id content media t)) e = elim (Bool-cases (writable id)) [
        | inl w ↦
            rw (e, w, spill_blob)
              (record { manifests = refl; memory = refl; small = refl; config = refl })
        | inr w ↦ rw (e, w, spill_blob) (id, w)
      ]

  spill_if-Same :
      (bb : BlobBk) (r : Digest) (p : Pass) → SameOrUnwritten p (spill_if writable bb r p)
  unfolding spill_if
  spill_if-Same bb r p =
      elim (Bool-cases (not (bb.unevicted_refs == 0) || not (is_large bb.tier))) [
        | inl e ↦ rw e (same p)
        | inr e ↦ rw e (spill_blob-Same r p)
      ]

  spill_ref-Same :
      (old : Bool) (r : Digest) (p : Pass) → SameOrUnwritten p (spill_ref writable old r p)
  unfolding spill_ref
  spill_ref-Same old r p = elim (Option-cases (lookup r p.blobs)) [
    | inl e ↦ rw (e, spill_ref) (same p)
    | inr (bb, e) ↦
        let q = record p { blobs = insert r (unevict old bb) p.blobs } in
        rw (e, spill_ref)
          (rebase p q (record { manifests = refl; memory = refl; small = refl; config = refl }) _
            (spill_if-Same (unevict old bb) r q))
  ]

  pub spill_refs-Same :
      (old : Bool) (rs : List Digest) (p : Pass) → SameOrUnwritten p (spill_refs writable old rs p)
  unfolding spill_refs
  spill_refs-Same old [] p = same p
  spill_refs-Same old (r ∷ rs) p =
      chain p (spill_ref writable old r p) _ (spill_ref-Same old r p)
        (λ q. spill_refs-Same old rs q)

  pub spill_redis-Same :
      (k : Bytes) (t size : ℕ) (p : Pass) → SameOrUnwritten p (spill_redis writable k t size p)
  unfolding spill_redis
  spill_redis-Same k t size p = found (lookup k p.state.redis_entries) refl
    where
      found :
          (o : Option RedisEntry)
          → lookup k p.state.redis_entries ≡ o
          → SameOrUnwritten p (spill_redis writable k t size p)
      found none e = rw (e, spill_redis) (same p)
      found (some (RedisEntry.on_disk n id t')) e = rw (e, spill_redis) (same p)
      found (some (RedisEntry.in_memory v id t')) e = elim (Bool-cases (writable id)) [
        | inl w ↦
            rw (e, w, spill_redis)
              (record { manifests = refl; memory = refl; small = refl; config = refl })
        | inr w ↦ rw (e, w, spill_redis) (id, w)
      ]
