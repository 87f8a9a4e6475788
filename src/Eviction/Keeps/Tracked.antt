-- ===== src/Eviction/Keeps/Tracked.antt =====
-- The bookkeeping of `evict` (src/eviction.rs) seen from one blob: its reference count is no less than
-- the references that manifests in the cache still make to it.
use mathlib.Core.Path.{subst}
use mathlib.Core.Logic.{if_pos, if_neg}
use dockfoxprox.Base.{
  ℕ, ◌+◌, ◌-◌, ◌≤◌, ◌≡◌, ◌⊎◌, sym, arith, Option, some, List, [], ◌∷◌, Bytes, ite,
}
use dockfoxprox.Base.Map.{Map, lookup, insert, sum_by}
use dockfoxprox.Base.Text.{bytes_key, Bytes-discrete}
use dockfoxprox.State.{Digest, Manifest, Blob, last_accessed}
use dockfoxprox.Eviction.Json.{Value, referenced_digests}
use dockfoxprox.Eviction.Pass.{Pass, BlobBk, blob_grace_seconds}

-- How often a digest stands in a list.
unfoldable pub occurrences : Digest → List Digest → ℕ
occurrences d [] = 0
occurrences d (r ∷ rs) = ite (Bytes-discrete d r) 1 0 + occurrences d rs

-- How often the manifests of the cache refer to a digest.
unfoldable pub references : (Bytes → Option Value) → Digest → Map Digest Manifest → ℕ
references json d = sum_by (λ k m. occurrences d (referenced_digests json m.content))

-- A property of the values that stand under one key.
abbrev pub AllAt : {V : Type 0} → Digest → (V → Type 0) → Map Digest V → Type 0
AllAt d P [] = Unit
AllAt d P ((k, v) ∷ m) = (k ≡ d → P v) × AllAt d P m

module _ {V : Type 0} (d : Digest) where
  pub AllAt-lookup :
      (P : V → Type 0) (m : Map Digest V) {v : V} → AllAt d P m → lookup d m ≡ some v → P v
  unfolding lookup
  AllAt-lookup P [] h e = absurd (cc)
  AllAt-lookup P ((k, w) ∷ m) {v} h e = elim (Bytes-discrete d k) [
    | yes p ↦ subst P (ground arith) (h.0 (sym p))
    | no p ↦ AllAt-lookup P m h.1 (ground arith)
  ]

  pub AllAt-insert :
      (P : V → Type 0) (k : Digest) (v : V) (m : Map Digest V)
      → AllAt d P m
      → (k ≡ d → P v)
      → AllAt d P (insert k v m)
  unfolding insert
  AllAt-insert P k v [] h n = (n, tt)
  AllAt-insert P k v ((j, w) ∷ m) h n = elim (Bytes-discrete k j) [
    | yes p ↦ rw (if_pos _ p) (n, h.1)
    | no p ↦ rw (if_neg _ p) (h.0, AllAt-insert P k v m h.1 n)
  ]

  pub AllAt-imp :
      (P Q : V → Type 0) (m : Map Digest V) → ((v : V) → P v → Q v) → AllAt d P m → AllAt d Q m
  AllAt-imp P Q [] f h = tt
  AllAt-imp P Q ((k, v) ∷ m) f h = (λ e. f v (h.0 e), AllAt-imp P Q m f h.1)

module _ (json : Bytes → Option Value) (d : Digest) (t now : ℕ) where
  -- The blob is in the cache, with the time of its last access.
  abbrev pub Present : Map Digest Blob → Type 0
  Present m = (b : Blob) × (lookup d m ≡ some b) × (last_accessed b ≡ t)

  -- No manifest refers to the blob, and it is older than the grace period.
  abbrev pub IsFree : Map Digest Manifest → Type 0
  IsFree m = (references json d m ≡ 0) × (t ≤ now - blob_grace_seconds)

  -- The bookkeeping knows of the references that are left and of `n` more.
  abbrev pub Counts : ℕ → Map Digest Manifest → BlobBk → Type 0
  Counts n m bb = (bb.touched ≡ t) × (references json d m + n ≤ bb.refs)

  pub record IsTracked (n : ℕ) (p : Pass) : Type 0 where
    pub counted : AllAt d (Counts n p.state.manifests) p.blobs
    pub kept : Present p.state.blobs ⊎ IsFree p.state.manifests
