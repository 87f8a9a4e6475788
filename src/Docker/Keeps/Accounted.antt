-- ===== src/Docker/Keeps/Accounted.antt =====
-- The usage counters under the requests and the tasks of src/docker.rs.
use mathlib.Core.Path.{subst}
use dockfoxprox.Base.{ℕ, ◌≡◌, refl, sym, ap, arith, some, Bytes, bytes_eq, Bool-cases, inl, inr}
use dockfoxprox.Base.Map.{lookup, weight, sum_by-insert}
use dockfoxprox.Base.Text.{bytes_key}
use dockfoxprox.State.{State, Digest, Blob, Manifest, blob_bucket}
use dockfoxprox.State.Buckets.{charge}
use dockfoxprox.State.Measure.{IsAccounted, measured, blob_weight, manifest_weight}
use dockfoxprox.State.Accounting.{insert_blob-IsAccounted, insert_manifest-IsAccounted}
use dockfoxprox.Docker.Pull.{Libs, Client, World, concat}
use dockfoxprox.Docker.Manifest.{touch_manifest, used_now}
use dockfoxprox.Docker.Blob.{Fill, run_fill, touch_blob, accessed_at}
use dockfoxprox.Docker.Route.{Incoming, handle_request}
use dockfoxprox.Docker.Upload.Accounted.{handle_upload-IsAccounted}
use dockfoxprox.Docker.Keeps.{IsKept}
use dockfoxprox.Docker.Keeps.Requests.{handle_request_kept}

blob_bucket-accessed_at : (now : ℕ) (b : Blob) → blob_bucket (accessed_at now b) ≡ blob_bucket b
unfolding blob_bucket accessed_at
blob_bucket-accessed_at now (Blob.in_memory id content media t) = refl
blob_bucket-accessed_at now (Blob.on_disk id size media t) = refl

touch_manifest-IsAccounted :
    (d : Digest) (m : Manifest) (s : State)
    → lookup d s.manifests ≡ some m
    → IsAccounted s
    → IsAccounted (touch_manifest d m s)
unfolding touch_manifest measured
touch_manifest-IsAccounted d m s e h c = omega (
  arith,
  h c,
  sum_by-insert (manifest_weight c) d (used_now s.now m) s.manifests,
  ap (weight (manifest_weight c) d) e,
)

touch_blob-IsAccounted :
    (d : Digest) (b : Blob) (s : State)
    → lookup d s.blobs ≡ some b
    → IsAccounted s
    → IsAccounted (touch_blob d b s)
unfolding touch_blob measured
touch_blob-IsAccounted d b s e h c = omega (
  arith,
  h c,
  sum_by-insert (blob_weight c) d (accessed_at s.now b) s.blobs,
  ap (weight (blob_weight c) d) e,
  ap (charge c) (blob_bucket-accessed_at s.now b),
)

pub run_fill-IsAccounted :
    (sha256 : Bytes → Digest) (fill : Fill) (s : State)
    → IsAccounted s
    → IsAccounted (run_fill sha256 fill s)
unfolding run_fill measured
run_fill-IsAccounted sha256 fill s h = elim (Bool-cases fill.body.complete) [
  | inr e ↦ rw (e, run_fill) h
  | inl e ↦ elim (Bool-cases (bytes_eq (sha256 (concat fill.body.chunks)) fill.digest)) [
    | inr f ↦ rw (e, f, run_fill) h
    | inl f ↦ rw (e, f, run_fill) (insert_blob-IsAccounted fill.digest _ _ h)
  ]
]

requests-IsAccounted : (libs : Libs) → IsKept libs IsAccounted
unfolding measured
requests-IsAccounted libs = record {
  pulled = λ s t e h. subst IsAccounted (sym e) h;
  tagged = λ tags s h. h;
  stored = insert_manifest-IsAccounted;
  manifest_touched = touch_manifest-IsAccounted;
  blob_touched = touch_blob-IsAccounted;
  uploaded = handle_upload-IsAccounted libs.sha256 libs.parse_uuid libs.show_uuid;
}

-- If every usage counter holds the bytes of its bucket, modulo 2^64, it does so after a request to the
-- registry, whatever its method, path and headers are and whatever upstream registries answer.
pub handle_request-IsAccounted :
    (libs : Libs) (client : Client) (req : Incoming) (w : World libs client)
    → IsAccounted w.0
    → IsAccounted (handle_request libs client req w).0.0
handle_request-IsAccounted libs client =
    handle_request_kept libs client IsAccounted (requests-IsAccounted libs)
