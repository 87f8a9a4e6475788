-- ===== src/Docker/Keeps/Addressed.antt =====
-- The digests that blobs are stored under by the requests and the tasks of src/docker.rs.
use mathlib.Core.Path.{subst}
use dockfoxprox.Base.{ℕ, ◌≡◌, sym, arith, some, [], ◌∷◌, Bytes, bytes_eq, All, Bool-cases, inl, inr}
use dockfoxprox.Base.Map.{Map, lookup}
use dockfoxprox.Base.Text.{bytes_key, Bytes-discrete, eq_of_bytes_eq}
use dockfoxprox.State.{State, Digest, Blob, insert_blob, insert_manifest}
use dockfoxprox.Docker.Pull.{Libs, Client, World, concat}
use dockfoxprox.Docker.Manifest.{touch_manifest}
use dockfoxprox.Docker.Blob.{Fill, run_fill, touch_blob, accessed_at}
use dockfoxprox.Docker.Route.{Incoming, handle_request}
use dockfoxprox.Docker.Upload.Addressed.{
  IsNamed, IsAddressed, All-insert, handle_upload-IsAddressed,
}
use dockfoxprox.Docker.Keeps.{IsKept}
use dockfoxprox.Docker.Keeps.Requests.{handle_request_kept}

All-at :
    {V : Type 0} (P : Digest × V → Type 0) (d : Digest) (m : Map Digest V) (v : V)
    → All P m
    → lookup d m ≡ some v
    → P (d, v)
unfolding lookup
All-at P d [] v h e = absurd (cc)
All-at P d ((j, w) ∷ m) v h e = elim (Bytes-discrete d j) [
  | yes q ↦ subst P (ground arith) h.0
  | no q ↦ All-at P d m v h.1 (ground arith)
]

module _ (sha256 : Bytes → Digest) where
  accessed-IsNamed :
      (d : Digest) (now : ℕ) (b : Blob)
      → IsNamed sha256 (d, b)
      → IsNamed sha256 (d, accessed_at now b)
  unfolding accessed_at
  accessed-IsNamed d now (Blob.in_memory id content media t) h = h
  accessed-IsNamed d now (Blob.on_disk id size media t) h = h

  pub run_fill-IsAddressed :
      (fill : Fill) (s : State) → IsAddressed sha256 s → IsAddressed sha256 (run_fill sha256 fill s)
  unfolding run_fill insert_blob
  run_fill-IsAddressed fill s h = elim (Bool-cases fill.body.complete) [
    | inr e ↦ rw (e, run_fill) h
    | inl e ↦ elim (Bool-cases (bytes_eq (sha256 (concat fill.body.chunks)) fill.digest)) [
      | inr f ↦ rw (e, f, run_fill) h
      | inl f ↦
          rw (e, f, run_fill)
            (record {
              blobs =
                  All-insert (IsNamed sha256) fill.digest _ s.blobs h.blobs
                    (sym (eq_of_bytes_eq _ _ f));
              uploads = h.uploads;
            })
    ]
  ]

requests-IsAddressed : (libs : Libs) → IsKept libs (IsAddressed libs.sha256)
unfolding insert_manifest touch_manifest touch_blob
requests-IsAddressed libs = record {
  pulled = λ s t e h.
      subst (IsAddressed libs.sha256) (sym e) (record { blobs = h.blobs; uploads = h.uploads });
  tagged = λ tags s h. record { blobs = h.blobs; uploads = h.uploads };
  stored = λ d m s h. record { blobs = h.blobs; uploads = h.uploads };
  manifest_touched = λ d m s e h. record { blobs = h.blobs; uploads = h.uploads };
  blob_touched = λ d b s e h. record {
    blobs = All-insert (IsNamed libs.sha256) d _ s.blobs h.blobs (
        accessed-IsNamed libs.sha256 d s.now b
          (All-at (IsNamed libs.sha256) d s.blobs b h.blobs e));
    uploads = h.uploads;
  };
  uploaded = handle_upload-IsAddressed libs.sha256 libs.parse_uuid libs.show_uuid;
}

pub handle_request-IsAddressed :
    (libs : Libs) (client : Client) (req : Incoming) (w : World libs client)
    → IsAddressed libs.sha256 w.0
    → IsAddressed libs.sha256 (handle_request libs client req w).0.0
handle_request-IsAddressed libs client =
    handle_request_kept libs client (IsAddressed libs.sha256) (requests-IsAddressed libs)
