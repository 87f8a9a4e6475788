-- ===== src/Eviction/Listed/Scan.antt =====
-- The scan that begins a pass of `evict`, src/eviction.rs, makes every manifest a candidate of the small
-- pool and sums up their lengths.
use dockfoxprox.Base.{
  ℕ, ◌+◌, ◌<◌, ◌^◌, ◌≡◌, ◌⊎◌, inl, inr, refl, ◌∙◌, arith, Option, none, List, [], ◌∷◌, Bytes,
  length, ltb, Bool-cases,
}
use dockfoxprox.Base.Lists.{Among}
use dockfoxprox.Base.Map.{Map, lookup, Unique, sum_by}
use dockfoxprox.Base.Text.{bytes_key, Bytes-discrete}
use dockfoxprox.State.{State, Digest, Manifest, Blob, RedisEntry, memory_tier_threshold}
use dockfoxprox.Eviction.Json.{Value}
use dockfoxprox.Eviction.Pass.{
  Pass, BlobTier, small_mem, large_mem, disk, Candidate, manifest, redis, push, add_blob, tier_of,
  size_of, scan_blobs, scan_manifest, scan_manifests, scan_entry, scan_redis, empty_pass, scan,
}
use dockfoxprox.Eviction.Listed.{manifest_bytes, IsCandidate, IsListed}

Among-push : (x c : Candidate) (cs : List Candidate) → Among x cs → Among x (push c cs)
Among-push x c [] m = elim m [ ]
Among-push x c (d ∷ cs) (inl e) = inl e
Among-push x c (d ∷ cs) (inr m) = inr (Among-push x c cs m)

Among-pushed : (c : Candidate) (cs : List Candidate) → Among c (push c cs)
Among-pushed c [] = inl refl
Among-pushed c (d ∷ cs) = inr (Among-pushed c cs)

-- Another pass has the same state, so many more bytes of manifests, and all the small candidates.
record Grows (n : ℕ) (p q : Pass) : Type 0 where
  state : q.state ≡ p.state
  memory : q.manifest_memory ≡ p.manifest_memory + n
  small : (x : Candidate) → Among x p.small_candidates → Among x q.small_candidates

trans : {a b : ℕ} {p q r : Pass} → Grows a p q → Grows b q r → Grows (a + b) p r
trans h k = record {
  state = k.state ∙ h.state;
  memory = omega (arith, h.memory, k.memory);
  small = λ x m. k.small x (h.small x m);
}

add_blob-Grows : (b : BlobTier) (n : ℕ) (p : Pass) → Grows 0 p (add_blob b n p)
unfolding add_blob
add_blob-Grows small_mem n p = record { state = refl; memory = omega arith; small = λ x m. m }
add_blob-Grows large_mem n p = record { state = refl; memory = omega arith; small = λ x m. m }
add_blob-Grows disk n p = record { state = refl; memory = omega arith; small = λ x m. m }

scan_blobs-Grows : (m : Map Digest Blob) (p : Pass) → Grows 0 p (scan_blobs m p)
unfolding scan_blobs
scan_blobs-Grows [] p = record { state = refl; memory = omega arith; small = λ x m. m }
scan_blobs-Grows ((d, b) ∷ m) p =
    let h = add_blob-Grows (tier_of b) (size_of b) p in
    let k = scan_blobs-Grows m _ in
    record {
      state = k.state ∙ h.state;
      memory = omega (arith, h.memory, k.memory);
      small = λ x n. k.small x (h.small x n);
    }

scan_entry-Grows : (k : Bytes) (e : RedisEntry) (p : Pass) → Grows 0 p (scan_entry k e p)
unfolding scan_entry
scan_entry-Grows k (RedisEntry.on_disk size id t) p = record {
  state = refl;
  memory = omega arith;
  small = λ x m. m;
}
scan_entry-Grows k (RedisEntry.in_memory value id t) p =
    elim (Bool-cases (ltb memory_tier_threshold (length value))) [
      | inl e ↦ rw e (record { state = refl; memory = omega arith; small = λ x m. m })
      | inr e ↦ rw e (record {
        state = refl;
        memory = omega arith;
        small = λ x m. Among-push x (redis k t (length value)) p.small_candidates m;
      })
    ]

scan_redis-Grows : (m : Map Bytes RedisEntry) (p : Pass) → Grows 0 p (scan_redis m p)
unfolding scan_redis
scan_redis-Grows [] p = record { state = refl; memory = omega arith; small = λ x m. m }
scan_redis-Grows ((k, e) ∷ m) p =
    let h = scan_entry-Grows k e _ in
    let g = scan_redis-Grows m _ in
    record {
      state = g.state ∙ h.state;
      memory = omega (arith, h.memory, g.memory);
      small = λ x n. g.small x (h.small x n);
    }

module _ (json : Bytes → Option Value) where
  scan_manifest-Grows :
      (d : Digest) (m : Manifest) (p : Pass)
      → p.manifest_memory + length m.content < 2 ^ 64
      → Grows (length m.content) p (scan_manifest json d m p)
  unfolding scan_manifest
  scan_manifest-Grows d m p l = record {
    state = refl;
    memory = omega (arith, l);
    small = λ x n. Among-push x (manifest m.last_used d) p.small_candidates n;
  }

  scan_manifests-Grows :
      (ms : Map Digest Manifest) (p : Pass)
      → p.manifest_memory + manifest_bytes ms < 2 ^ 64
      → Grows (manifest_bytes ms) p (scan_manifests json ms p)
        × ((d : Digest)
            → (lookup d ms ≡ none) ⊎ IsCandidate d (scan_manifests json ms p).small_candidates)
  unfolding scan_manifests scan_manifest sum_by lookup
  scan_manifests-Grows [] p l =
      (record { state = refl; memory = omega arith; small = λ x m. m }, λ d. inl refl)
  scan_manifests-Grows ((d, m) ∷ ms) p l =
      let one = scan_manifest-Grows d m p (omega (arith, l)) in
      let (more, found) =
        scan_manifests-Grows ms (scan_manifest json d m p) (omega (arith, l, one.memory)) in
      (
        trans one more,
        λ k. elim (Bytes-discrete k d) [
          | yes e ↦ inr (m.last_used, more.small _ (rw e (pushed d m p)))
          | no e ↦ elim (found k) [ inl n ↦ inl (skip k d m ms e n) | inr c ↦ inr c ]
        ],
      )
    where
      pushed :
          (d : Digest) (m : Manifest) (p : Pass)
          → Among (manifest m.last_used d) (scan_manifest json d m p).small_candidates
      pushed d m p = Among-pushed (manifest m.last_used d) p.small_candidates

      skip :
          (k d : Digest) (m : Manifest) (ms : Map Digest Manifest)
          → ¬ (k ≡ d)
          → lookup k ms ≡ none
          → lookup k ((d, m) ∷ ms) ≡ none
      skip k d m ms e n = ground arith

  pub scan-IsListed :
      (s : State)
      → Unique s.manifests
      → manifest_bytes s.manifests < 2 ^ 64
      → IsListed (scan json s) × ((scan json s).state ≡ s)
  unfolding scan empty_pass
  scan-IsListed s u l =
      let a = scan_blobs-Grows s.blobs (empty_pass s) in
      let p = scan_blobs s.blobs (empty_pass s) in
      let (b, found) = scan_manifests-Grows s.manifests p (omega (arith, l, a.memory)) in
      let c = scan_redis-Grows s.redis_entries (scan_manifests json s.manifests p) in
      let state = c.state ∙ b.state ∙ a.state in
      (
        rw state (record {
          unique = u;
          bytes = omega (arith, a.memory, b.memory, c.memory);
          listed = λ d. elim (found d) [
            | inl n ↦ inl n
            | inr (t, m) ↦ inr (t, c.small (manifest t d) m)
          ];
        }),
        state,
      )
