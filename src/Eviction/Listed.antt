-- ===== src/Eviction/Listed.antt =====
-- The manifests during a pass of `evict`, src/eviction.rs: each is a candidate of the small pool, and
-- `manifest_memory` is the sum of their lengths.
pub mod Scan
use mathlib.Core.Path.{subst}
use dockfoxprox.Base.{
  ℕ, ◌+◌, ◌-◌, ◌<◌, ◌^◌, ◌≡◌, ◌⊎◌, inl, inr, refl, sym, ap, ◌∙◌, arith, Bool, true, false, Option,
  none, some, List, [], ◌∷◌, ◌++◌, Bytes, length, Option-cases, Bool-cases, leb, if◌then◌else◌,
}
use dockfoxprox.Base.Lists.{Among}
use dockfoxprox.Base.Map.{
  Map, lookup, insert, remove, Unique, sum_by, sum_by-insert, sum_by-remove, weight, insert-Unique,
  remove-Unique, lookup-insert_ne, lookup-remove_ne, lookup-remove_self,
}
use dockfoxprox.Base.Text.{bytes_key, Bytes-discrete}
use dockfoxprox.State.{State, Digest, Manifest, Blob, RedisEntry, remove_manifest}
use dockfoxprox.Eviction.Json.{Value, referenced_digests}
use dockfoxprox.Eviction.Pass.{
  Pass, Candidate, manifest, redis, last_access_time, choose, pop, push,
}
use dockfoxprox.Eviction.Step.{
  Outcome, ok, failed, ◌>>=◌, mark_evicted, drop_manifest, drop_refs, spill_refs, spill_manifest,
}
use dockfoxprox.Eviction.Keeps.Drop.{remove_manifest-none, remove_manifest-some}
use dockfoxprox.Eviction.Frame.{Same, SameOrUnwritten, drop_refs-Same, spill_refs-Same}

abbrev bytes_in : Digest → Manifest → ℕ
bytes_in d m = length m.content

-- The bytes of all manifests.
abbrev pub manifest_bytes : Map Digest Manifest → ℕ
manifest_bytes = sum_by bytes_in

abbrev pub IsCandidate : Digest → List Candidate → Type 0
IsCandidate d heap = (t : ℕ) × Among (manifest t d) heap

pub record ListedIn (ms : Map Digest Manifest) (sum : ℕ) (heap : List Candidate) : Type 0 where
  pub unique : Unique ms
  pub bytes : sum ≡ manifest_bytes ms
  pub listed : (d : Digest) → (lookup d ms ≡ none) ⊎ IsCandidate d heap

abbrev pub IsListed : Pass → Type 0
IsListed p = ListedIn p.state.manifests p.manifest_memory p.small_candidates

pub Same-IsListed : (p q : Pass) → Same p q → IsListed p → IsListed q
Same-IsListed p q h l = rw (h.manifests, h.memory, h.small) l

-- What a candidate stands for is that candidate or in the rest.
abbrev pub PopsAll : List Candidate → Option (Candidate × List Candidate) → Type 0
PopsAll heap none = heap ≡ []
PopsAll heap (some (c, cs)) = (x : Candidate) → Among x heap → (x ≡ c) ⊎ Among x cs

choose-PopsAll :
    (c : Candidate) (cs : List Candidate) (o : Option (Candidate × List Candidate))
    → PopsAll cs o
    → PopsAll (c ∷ cs) (choose c cs o)
unfolding choose
choose-PopsAll c cs none h = λ x m. elim m [ inl e ↦ inl e | inr n ↦ inr (subst (Among x) h n) ]
choose-PopsAll c cs (some (d, ds)) h =
    elim (Bool-cases (leb (last_access_time c) (last_access_time d))) [
      | inl e ↦ rw e (λ x m. m)
      | inr e ↦ rw e (λ x m. elim m [
        | inl n ↦ inr (inl n)
        | inr n ↦ elim (h x n) [ inl k ↦ inl k | inr k ↦ inr (inr k) ]
      ])
    ]

pub pop-PopsAll : (heap : List Candidate) → PopsAll heap (pop heap)
unfolding pop
pop-PopsAll [] = refl
pop-PopsAll (c ∷ cs) = choose-PopsAll c cs (pop cs) (pop-PopsAll cs)

-- Taking off a heap what is no manifest, or one that is not there.
pub ListedIn-rest :
    (ms : Map Digest Manifest) (sum : ℕ) (heap cs : List Candidate) (c : Candidate)
    → ((x : Candidate) → Among x heap → (x ≡ c) ⊎ Among x cs)
    → ((t : ℕ) (d : Digest) → manifest t d ≡ c → lookup d ms ≡ none)
    → ListedIn ms sum heap
    → ListedIn ms sum cs
ListedIn-rest ms sum heap cs c pops free h = record {
  unique = h.unique;
  bytes = h.bytes;
  listed = λ d. elim (h.listed d) [
    | inl e ↦ inl e
    | inr (t, m) ↦ elim (pops (manifest t d) m) [ inl e ↦ inl (free t d e) | inr n ↦ inr (t, n) ]
  ];
}

ListedIn-remove :
    (d : Digest) (m : Manifest) (ms : Map Digest Manifest) (sum : ℕ) (heap cs : List Candidate)
    → ((x : Candidate) → Among x heap → ((t : ℕ) × (x ≡ manifest t d)) ⊎ Among x cs)
    → lookup d ms ≡ some m
    → ListedIn ms sum heap
    → ListedIn (remove d ms) (sum - length m.content) cs
ListedIn-remove d m ms sum heap cs pops e h =
    let one = ap (weight bytes_in d) e in
    record {
      unique = remove-Unique d ms h.unique;
      bytes = omega (arith, sum_by-remove bytes_in d ms, one, h.bytes);
      listed = λ k. elim (Bytes-discrete k d) [
        | yes p ↦ inl (rw p (lookup-remove_self d ms h.unique))
        | no p ↦ elim (h.listed k) [
          | inl n ↦ inl (lookup-remove_ne k d ms p ∙ n)
          | inr (t, n) ↦ elim (pops (manifest t k) n) [
            | inl (u, q) ↦ absurd (p (same_digest t u k d q))
            | inr n ↦ inr (t, n)
          ]
        ]
      ];
    }
  where
    same_digest : (t u : ℕ) (a b : Digest) → manifest t a ≡ manifest u b → a ≡ b
    same_digest t u a b e = cc e

ListedIn-mark :
    (d : Digest) (m n : Manifest) (ms : Map Digest Manifest) (sum : ℕ) (heap : List Candidate)
    → lookup d ms ≡ some m
    → length n.content ≡ length m.content
    → ListedIn ms sum heap
    → ListedIn (insert d n ms) sum heap
ListedIn-mark d m n ms sum heap e l h =
    let one = ap (weight bytes_in d) e in
    record {
      unique = insert-Unique d n ms h.unique;
      bytes = omega (arith, sum_by-insert bytes_in d n ms, one, h.bytes, l);
      listed = λ k. elim (Bytes-discrete k d) [
        | yes p ↦ elim (h.listed d) [ inl q ↦ absurd (cc (sym q ∙ e)) | inr c ↦ inr (rw p c) ]
        | no p ↦ elim (h.listed k) [ inl q ↦ inl (lookup-insert_ne k d n ms p ∙ q) | inr c ↦ inr c ]
      ];
    }

module _ (json : Bytes → Option Value) (now : ℕ) where
  -- A manifest is dropped, and its candidate is off the heap.
  pub drop_manifest-IsListed :
      (t : ℕ) (d : Digest) (p : Pass) (heap : List Candidate)
      → ((x : Candidate) → Among x heap → (x ≡ manifest t d) ⊎ Among x p.small_candidates)
      → ListedIn p.state.manifests p.manifest_memory heap
      → IsListed (drop_manifest json now d p)
        × ((drop_manifest json now d p).state.config ≡ p.state.config)
  unfolding drop_manifest
  drop_manifest-IsListed t d p heap pops h = elim (Option-cases (lookup d p.state.manifests)) [
    | inl e ↦
        let shut = remove_manifest-none d p.state e in
        rw (shut, drop_manifest)
          (rw shut (
            ListedIn-rest p.state.manifests p.manifest_memory heap p.small_candidates (manifest t d)
                pops (λ u k q. none_there u k q e) h,
            refl,
          ))
    | inr (m, e) ↦
        let shut = remove_manifest-some d p.state m e in
        rw (shut, drop_manifest)
          (rw shut (
            Same-IsListed _ _ (drop_refs-Same now m.evicted (referenced_digests json m.content) _) (
                ListedIn-remove d m p.state.manifests p.manifest_memory heap p.small_candidates
                  (λ x n. elim (pops x n) [ inl q ↦ inl (t, q) | inr k ↦ inr k ]) e h),
            (drop_refs-Same now m.evicted (referenced_digests json m.content) _).config,
          ))
  ]
    where
      none_there :
          (u : ℕ) (k : Digest)
          → manifest u k ≡ manifest t d
          → lookup d p.state.manifests ≡ none
          → lookup k p.state.manifests ≡ none
      none_there u k q e = let same : k ≡ d = cc q in rw same e

module _ (writable : ℕ → Bool) where
  -- A step that ends well keeps the list and the configuration; one that fails does so since a file
  -- cannot be written.
  abbrev pub ListedOrUnwritten : Pass → Outcome → Type 0
  ListedOrUnwritten p (ok q) = IsListed q × (q.state.config ≡ p.state.config)
  ListedOrUnwritten p (failed q) = (id : ℕ) × (writable id ≡ false)

  pub Same-ListedOrUnwritten :
      (p : Pass) (o : Outcome) → SameOrUnwritten writable p o → IsListed p → ListedOrUnwritten p o
  Same-ListedOrUnwritten p (ok q) h l = (Same-IsListed p q h l, h.config)
  Same-ListedOrUnwritten p (failed q) h l = h

  put_back :
      (p : Pass) (o : Outcome) (c : Candidate)
      → ListedOrUnwritten p o
      → ListedOrUnwritten p
          (o >>= λ q. ok (record q { disk_candidates = push c q.disk_candidates }))
  put_back p (ok q) c h = h
  put_back p (failed q) c h = h

  -- A manifest is marked, and its blobs are spilled.
  pub spill_manifest-ListedOrUnwritten :
      (json : Bytes → Option Value) (t : ℕ) (d : Digest) (p : Pass)
      → IsListed p
      → ListedOrUnwritten p (spill_manifest writable json t d p)
  unfolding spill_manifest mark_evicted
  spill_manifest-ListedOrUnwritten json t d p h = elim (Option-cases (lookup d p.state.manifests)) [
    | inl e ↦ rw (e, spill_manifest) (h, refl)
    | inr (mb, e) ↦
        let q = record p { state = mark_evicted d mb p.state } in
        let rs = referenced_digests json mb.content in
        rw (e, spill_manifest)
          (put_back p (spill_refs writable mb.evicted rs q) (manifest t d) (
            Same-ListedOrUnwritten q (spill_refs writable mb.evicted rs q)
              (spill_refs-Same writable mb.evicted rs q)
              (ListedIn-mark d mb (record mb { evicted = true }) p.state.manifests p.manifest_memory
                p.small_candidates e refl h)))
  ]
