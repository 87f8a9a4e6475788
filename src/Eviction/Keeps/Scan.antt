-- ===== src/Eviction/Keeps/Scan.antt =====
-- The counts of references after the scan at the start of `evict`, src/eviction.rs.
use mathlib.Core.Path.{subst}
use mathlib.Core.Logic.{if_pos, if_neg}
use dockfoxprox.Base.{
  ℕ, ◌+◌, ◌^◌, ◌<◌, ◌≡◌, ◌≢◌, inl, inr, refl, sym, ap, ◌∙◌, arith, Bool, false, Option, none, some,
  List, [], ◌∷◌, Bytes, ite, Option-cases,
}
use dockfoxprox.Base.Map.{
  Map, lookup, insert, Unique, insert-Unique, lookup-insert_self, lookup-insert_ne, sum_by,
}
use dockfoxprox.Base.Text.{bytes_key, Bytes-discrete}
use dockfoxprox.State.{State, Digest, Manifest, Blob, RedisEntry, last_accessed}
use dockfoxprox.Eviction.Json.{Value, referenced_digests}
use dockfoxprox.Eviction.Pass.{
  Pass, BlobTier, small_mem, large_mem, disk, BlobBk, tier_of, size_of, add_blob, new_bk, count_ref,
  Referred, scan_blobs, scan_ref, scan_refs, scan_manifest, scan_manifests, scan_entry, scan_redis,
  empty_pass, scan,
}
use dockfoxprox.Eviction.Keeps.Tracked.{occurrences, references, AllAt, AllAt-imp, IsTracked}

module _ {V : Type 0} (d : Digest) (P : V → Type 0) where
  AllAt-lookup-none : (m : Map Digest V) → lookup d m ≡ none → AllAt d P m
  unfolding lookup
  AllAt-lookup-none [] e = tt
  AllAt-lookup-none ((k, v) ∷ m) e = elim (Bytes-discrete d k) [
    | yes p ↦ absurd (ground arith)
    | no p ↦ (λ q. absurd (p (sym q)), AllAt-lookup-none m (ground arith))
  ]

  -- Under keys that are all different there is one value for each.
  AllAt-Unique : (m : Map Digest V) (v : V) → Unique m → lookup d m ≡ some v → P v → AllAt d P m
  unfolding lookup
  AllAt-Unique [] v u e h = tt
  AllAt-Unique ((k, w) ∷ m) v u e h = elim (Bytes-discrete d k) [
    | yes p ↦
        let here : w ≡ v = ground arith in
        (
          λ q. subst P (sym here) h,
          AllAt-lookup-none m (subst (λ x. lookup x m ≡ none) (sym p) u.0),
        )
    | no p ↦ (λ q. absurd (p (sym q)), AllAt-Unique m v u.1 (ground arith) h)
  ]

-- The scan leaves the state, and after the blobs also the bookkeeping.
pub add_blob-state :
    (b : BlobTier) (n : ℕ) (p : Pass)
    → ((add_blob b n p).state ≡ p.state) × ((add_blob b n p).blobs ≡ p.blobs)
unfolding add_blob
add_blob-state small_mem n p = (refl, refl)
add_blob-state large_mem n p = (refl, refl)
add_blob-state disk n p = (refl, refl)

scan_entry-same :
    (k : Bytes) (e : RedisEntry) (p : Pass)
    → ((scan_entry k e p).state ≡ p.state) × ((scan_entry k e p).blobs ≡ p.blobs)
unfolding scan_entry
scan_entry-same k (RedisEntry.in_memory value id u) p = ground arith
scan_entry-same k (RedisEntry.on_disk size id u) p = (refl, refl)

pub scan_redis-same :
    (m : Map Bytes RedisEntry) (p : Pass)
    → ((scan_redis m p).state ≡ p.state) × ((scan_redis m p).blobs ≡ p.blobs)
unfolding scan_redis
scan_redis-same [] p = (refl, refl)
scan_redis-same ((k, e) ∷ m) p =
    let h = scan_redis-same m (scan_entry k e _) in
    let one = scan_entry-same k e _ in (h.0 ∙ one.0, h.1 ∙ one.1)

module _ (json : Bytes → Option Value) (d : Digest) (t : ℕ) where
  -- So many references are counted.
  abbrev Counted : ℕ → BlobBk → Type 0
  Counted n bb = (bb.touched ≡ t) × (bb.refs ≡ n)

  -- Keys are all different, and the blob's entry counts so many references.
  abbrev Scanned : ℕ → Map Digest BlobBk → Type 0
  Scanned n m = Unique m × ((bb : BlobBk) → lookup d m ≡ some bb → Counted n bb)

  insert-Scanned :
      (k n : ℕ) (r : Digest) (bb : BlobBk) (m : Map Digest BlobBk)
      → Scanned k m
      → (r ≡ d → Counted n bb)
      → (r ≢ d → k ≡ n)
      → Scanned n (insert r bb m)
  insert-Scanned k n r bb m (u, c) same other = (
    insert-Unique r bb m u,
    λ bb' e. elim (Bytes-discrete d r) [
      | yes p ↦
          let here : lookup d (insert r bb m) ≡ some bb =
            subst (λ x. lookup x (insert r bb m) ≡ some bb) (sym p) (lookup-insert_self r bb m) in
          let eq : bb ≡ bb' = ground arith in subst (Counted n) eq (same (sym p))
      | no p ↦
          subst (λ x. Counted x bb') (other (λ q. p (sym q)))
            (c bb' (sym (lookup-insert_ne d r bb m p) ∙ e))
    ],
  )

  scan_blobs-Scanned :
      (m : Map Digest Blob) (p : Pass)
      → AllAt d (λ b. last_accessed b ≡ t) m
      → Scanned 0 p.blobs
      → Scanned 0 (scan_blobs m p).blobs × ((scan_blobs m p).state ≡ p.state)
  unfolding scan_blobs new_bk
  scan_blobs-Scanned [] p h c = (c, refl)
  scan_blobs-Scanned ((k, b) ∷ m) p h c =
      let q = add_blob (tier_of b) (size_of b) p in
      let (st, bs) = add_blob-state (tier_of b) (size_of b) p in
      let rest =
        scan_blobs-Scanned m (record q { blobs = insert k (new_bk b) q.blobs }) h.1
          (insert-Scanned 0 0 k (new_bk b) q.blobs (subst (Scanned 0) (sym bs) c)
            (λ e. (h.0 e, refl)) (λ e. refl)) in
      (rest.0, rest.1 ∙ st)

  count_ref-Counted :
      (n : ℕ) (old : Bool) (bb : BlobBk)
      → n + 1 < 2 ^ 32
      → Counted n bb
      → Counted (n + 1) (count_ref old bb)
  unfolding count_ref
  count_ref-Counted n old bb l c = (c.0, omega (arith, c.1))

  here_or_not :
      (r : Digest)
      → (r ≡ d → ite {C = ℕ} (Bytes-discrete d r) 1 0 ≡ 1)
        × (r ≢ d → ite {C = ℕ} (Bytes-discrete d r) 1 0 ≡ 0)
  here_or_not r = (
    λ e. if_pos (Bytes-discrete d r) (sym e) 1 0,
    λ e. if_neg (Bytes-discrete d r) (λ q. e (sym q)) 1 0,
  )

  scan_ref-Scanned :
      (old : Bool) (r : Digest) (n : ℕ) (acc : Referred)
      → n + ite (Bytes-discrete d r) 1 0 < 2 ^ 32
      → Scanned n acc.0
      → Scanned (n + ite (Bytes-discrete d r) 1 0) (scan_ref old r acc).0
  unfolding scan_ref
  scan_ref-Scanned old r n (m, large, on_disk) l c =
      let (at, off) = here_or_not r in
      elim (Option-cases (lookup r m)) [
        | inl e ↦
            rw (e, scan_ref)
              (
                c.0,
                λ bb f. elim (Bytes-discrete r d) [
                  | yes q ↦ absurd (absent m bb q e f)
                  | no q ↦ subst (λ x. Counted x bb) (omega (arith, off q)) (c.1 bb f)
                ],
              )
        | inr (bb, e) ↦
            rw (e, scan_ref)
              (insert-Scanned n _ r (count_ref old bb) m c
                (λ q.
                  subst (λ x. Counted x (count_ref old bb)) (omega (arith, at q))
                    (count_ref-Counted n old bb (omega (arith, at q, l))
                      (c.1 bb (subst (λ x. lookup x m ≡ some bb) q e))))
                (λ q. omega (arith, off q)))
      ]
    where
      absent :
          (m : Map Digest BlobBk) (bb : BlobBk)
          → r ≡ d
          → lookup r m ≡ none
          → lookup d m ≡ some bb
          → ⊥
      absent m bb q e f = ground arith

  scan_refs-Scanned :
      (old : Bool) (rs : List Digest) (n : ℕ) (acc : Referred)
      → n + occurrences d rs < 2 ^ 32
      → Scanned n acc.0
      → Scanned (n + occurrences d rs) (scan_refs old rs acc).0
  unfolding scan_refs occurrences
  scan_refs-Scanned old [] n acc l c = subst (λ x. Scanned x acc.0) (omega arith) c
  scan_refs-Scanned old (r ∷ rs) n acc l c =
      let one = scan_ref-Scanned old r n acc (omega (arith, l)) c in
      let rest =
        scan_refs-Scanned old rs (n + ite (Bytes-discrete d r) 1 0) (scan_ref old r acc)
          (omega (arith, l)) one in
      subst (λ x. Scanned x (scan_refs old rs (scan_ref old r acc)).0) (omega arith) rest

  scan_manifests-Scanned :
      (ms : Map Digest Manifest) (n : ℕ) (p : Pass)
      → n + references json d ms < 2 ^ 32
      → Scanned n p.blobs
      → Scanned (n + references json d ms) (scan_manifests json ms p).blobs
        × ((scan_manifests json ms p).state ≡ p.state)
  unfolding scan_manifests scan_manifest references sum_by
  scan_manifests-Scanned [] n p l c = (subst (λ x. Scanned x p.blobs) (omega arith) c, refl)
  scan_manifests-Scanned ((k, m) ∷ ms) n p l c =
      let rs = referenced_digests json m.content in
      let one = scan_refs-Scanned m.evicted rs n (p.blobs, false, false) (omega (arith, l)) c in
      let rest =
        scan_manifests-Scanned ms (n + occurrences d rs) (scan_manifest json k m p)
          (omega (arith, l)) one in
      (
        subst (λ x. Scanned x (scan_manifests json ms (scan_manifest json k m p)).blobs)
            (omega arith) rest.0,
        rest.1,
      )

  Scanned-AllAt : (n : ℕ) (m : Map Digest BlobBk) → Scanned n m → AllAt d (Counted n) m
  Scanned-AllAt n m (u, c) = elim (Option-cases (lookup d m)) [
    | inl e ↦ AllAt-lookup-none d (Counted n) m e
    | inr (bb, e) ↦ AllAt-Unique d (Counted n) m bb u e (c bb e)
  ]

  empty-Scanned : Scanned 0 []
  unfolding lookup
  empty-Scanned = (tt, λ bb f. absurd (ground arith))

  pub scan-IsTracked :
      (now : ℕ) (b : Blob) (s : State)
      → Unique s.blobs
      → lookup d s.blobs ≡ some b
      → last_accessed b ≡ t
      → references json d s.manifests < 2 ^ 32
      → IsTracked json d t now 0 (scan json s)
  unfolding scan empty_pass
  scan-IsTracked now b s u e time l =
      let p = scan_blobs s.blobs (empty_pass s) in
      let q = scan_manifests json s.manifests p in
      let (c, st) =
        scan_blobs-Scanned s.blobs (empty_pass s)
          (AllAt-Unique d (λ b. last_accessed b ≡ t) s.blobs b u e time) empty-Scanned in
      let (c', st') = scan_manifests-Scanned s.manifests 0 p (omega (arith, l)) c in
      let (st'', bs) = scan_redis-same s.redis_entries q in
      let same : (scan json s).state ≡ s = st'' ∙ st' ∙ st in
      let n = 0 + references json d s.manifests in
      let all : AllAt d (Counted n) (scan json s).blobs =
        subst (AllAt d (Counted n)) (sym bs) (Scanned-AllAt n q.blobs c') in
      let still = ap (λ s. references json d s.manifests) same in
      record {
        counted = AllAt-imp d _ _ _ (λ bb c. (c.0, omega (arith, c.1, still))) all;
        kept = inl (b, ap (λ s. lookup d s.blobs) same ∙ e, time);
      }
