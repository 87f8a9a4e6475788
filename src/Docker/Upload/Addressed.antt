-- ===== src/Docker/Upload/Addressed.antt =====
-- The digests that blobs are stored under by the uploads of src/docker.rs.
use mathlib.Core.Path.{subst}
use mathlib.Core.Logic.{if_pos, if_neg}
use dockfoxprox.Base.{
  ℕ, ◌≡◌, refl, ap, arith, Option, some, List, [], ◌∷◌, ◌++◌, Bytes, ℕ_discrete, All,
}
use dockfoxprox.Base.Map.{Map, Key, lookup, insert, remove}
use dockfoxprox.Base.Text.{nat_key, bytes_key}
use dockfoxprox.State.{State, Digest, Blob, UploadInner, insert_blob}
use dockfoxprox.Docker.Upload.Keeps.{SurvivesUploads, handle_upload_kept}
use dockfoxprox.Docker.Upload.{
  set_upload, append_chunk, store_blob, Request, handle_upload, handle_uploads,
}

module _ {K V : Type 0} ⦃e : Key K⦄ (P : K × V → Type 0) where
  pub All-insert : (k : K) (v : V) (m : Map K V) → All P m → P (k, v) → All P (insert k v m)
  unfolding insert
  All-insert k v [] h p = (p, tt)
  All-insert k v ((j, w) ∷ m) h p = elim (e.dec k j) [
    | yes q ↦ rw (if_pos (e.dec k j) q ((k, v) ∷ m) ((j, w) ∷ insert k v m)) (p, h.1)
    | no q ↦
        rw (if_neg (e.dec k j) q ((k, v) ∷ m) ((j, w) ∷ insert k v m)) (h.0, All-insert k v m h.1 p)
  ]

  pub All-remove : (k : K) (m : Map K V) → All P m → All P (remove k m)
  unfolding remove
  All-remove k [] h = tt
  All-remove k ((j, w) ∷ m) h = elim (e.dec k j) [
    | yes q ↦ rw (if_pos (e.dec k j) q m ((j, w) ∷ remove k m)) h.1
    | no q ↦ rw (if_neg (e.dec k j) q m ((j, w) ∷ remove k m)) (h.0, All-remove k m h.1)
  ]

All-lookup :
    {V : Type 0} (P : V → Type 0) (k : ℕ) (m : Map ℕ V) (v : V)
    → All (λ x. P x.1) m
    → lookup k m ≡ some v
    → P v
unfolding lookup
All-lookup P k [] v h e = absurd (cc)
All-lookup P k ((j, w) ∷ m) v h e = elim (ℕ_discrete k j) [
  | yes q ↦ subst P (ground arith) h.0
  | no q ↦ All-lookup P k m v h.1 (ground arith)
]

module _ (sha256 : Bytes → Digest) where
  -- A blob in memory stands under the digest of its bytes.
  abbrev pub IsNamed : Digest × Blob → Type 0
  IsNamed (d, Blob.in_memory id content media t) = d ≡ sha256 content
  IsNamed (d, Blob.on_disk id size media t) = Unit

  -- The hasher of an upload was fed what is in its buffer.
  abbrev pub IsFed : UploadInner → Type 0
  IsFed inner = inner.hasher ≡ inner.buf

  pub record IsAddressed (s : State) : Type 0 where
    pub blobs : All IsNamed s.blobs
    pub uploads : All (λ x. IsFed x.1) s.uploads

  store_blob-IsAddressed :
      (content : Bytes) (s : State)
      → IsAddressed s
      → IsAddressed (store_blob (sha256 content) content s)
  unfolding store_blob insert_blob
  store_blob-IsAddressed content s h = record {
    blobs = All-insert IsNamed (sha256 content) _ s.blobs h.blobs refl;
    uploads = h.uploads;
  }

  set_upload-IsAddressed :
      (uuid : ℕ) (inner : UploadInner) (s : State)
      → IsAddressed s
      → IsFed inner
      → IsAddressed (set_upload uuid inner s)
  set_upload-IsAddressed uuid inner s h f = record {
    blobs = h.blobs;
    uploads = All-insert (λ x. IsFed x.1) uuid inner s.uploads h.uploads f;
  }

  append_chunk-IsFed :
      (chunk : Bytes) (inner : UploadInner) → IsFed inner → IsFed (append_chunk chunk inner)
  unfolding append_chunk
  append_chunk-IsFed chunk inner f = ap (λ b. b ++ chunk) f

  uploads-IsAddressed : SurvivesUploads sha256 IsAddressed IsFed
  unfolding store_blob insert_blob
  uploads-IsAddressed = record {
    fresh = refl;
    appended = append_chunk-IsFed;
    found = λ uuid inner s h e. All-lookup IsFed uuid s.uploads inner h.uploads e;
    put_back = set_upload-IsAddressed;
    removed = λ uuid s h. record {
      blobs = h.blobs;
      uploads = All-remove (λ x. IsFed x.1) uuid s.uploads h.uploads;
    };
    blob_stored = λ inner s h f.
        subst (λ b. IsAddressed (store_blob (sha256 inner.hasher) b s)) f
          (store_blob-IsAddressed inner.hasher s h);
    whole_stored = store_blob-IsAddressed;
    counted = λ metrics s h. record { blobs = h.blobs; uploads = h.uploads };
  }

module _ (sha256 : Bytes → Digest) (parse_uuid : Bytes → Option ℕ) (show_uuid : ℕ → Bytes) where
  pub handle_upload-IsAddressed :
      (r : Request) (s : State)
      → IsAddressed sha256 s
      → IsAddressed sha256 (handle_upload sha256 parse_uuid show_uuid r s).0
  handle_upload-IsAddressed =
      handle_upload_kept sha256 parse_uuid show_uuid (IsAddressed sha256) (IsFed sha256)
        (uploads-IsAddressed sha256)

  -- If every blob in memory stands under the digest of its bytes, and every upload's hasher was fed what
  -- is in its buffer, then this holds after any sequence of upload requests, whatever their order, their
  -- claimed digests and their bodies are, errors included.
  pub handle_uploads-IsAddressed :
      (rs : List Request) (s : State)
      → IsAddressed sha256 s
      → IsAddressed sha256 (handle_uploads sha256 parse_uuid show_uuid rs s)
  unfolding handle_uploads
  handle_uploads-IsAddressed [] s h = h
  handle_uploads-IsAddressed (r ∷ rs) s h =
      handle_uploads-IsAddressed rs (handle_upload sha256 parse_uuid show_uuid r s).0
        (handle_upload-IsAddressed r s h)
