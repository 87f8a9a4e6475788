-- ===== src/System/Blobs.antt =====
-- Steps on the state, src/state.rs, that leave the blobs and the uploads alone.
use mathlib.Core.Path.{subst}
use dockfoxprox.Base.{◌≡◌, refl, sym, Bytes, Option-cases, inl, inr, All}
use dockfoxprox.Base.Map.{lookup}
use dockfoxprox.Base.Text.{bytes_key, nat_key}
use dockfoxprox.State.{State, Digest, remove_redis, remove_manifest}
use dockfoxprox.Eviction.Pass.{Pass}
use dockfoxprox.Docker.Upload.Addressed.{IsNamed, IsAddressed}

-- Neither blobs nor uploads differ.
abbrev pub KeepsBlobs : State → State → Type 0
KeepsBlobs s t = (t.blobs ≡ s.blobs) × (t.uploads ≡ s.uploads)

pub KeepsBlobs-IsAddressed :
    (sha256 : Bytes → Digest) (s t : State)
    → KeepsBlobs s t
    → IsAddressed sha256 s
    → IsAddressed sha256 t
KeepsBlobs-IsAddressed sha256 s t (e, f) h = record {
  blobs = subst (All (IsNamed sha256)) (sym e) h.blobs;
  uploads = subst (All (λ x. x.1.hasher ≡ x.1.buf)) (sym f) h.uploads;
}

pub remove_redis-KeepsBlobs : (k : Bytes) (s : State) → KeepsBlobs s (remove_redis k s).0
unfolding remove_redis
remove_redis-KeepsBlobs k s = elim (Option-cases (lookup k s.redis_entries)) [
  | inl e ↦ rw (e, remove_redis) (refl, refl)
  | inr (v, e) ↦ rw (e, remove_redis) (refl, refl)
]

pub remove_manifest-KeepsBlobs : (d : Digest) (s : State) → KeepsBlobs s (remove_manifest d s).0
unfolding remove_manifest
remove_manifest-KeepsBlobs d s = elim (Option-cases (lookup d s.manifests)) [
  | inl e ↦ rw (e, remove_manifest) (refl, refl)
  | inr (m, e) ↦ rw (e, remove_manifest) (refl, refl)
]

module _ (sha256 : Bytes → Digest) where
  abbrev pub Holds : Pass → Type 0
  Holds p = IsAddressed sha256 p.state
