-- ===== src/Docker/Upload/Accounted.antt =====
-- The usage counters under the uploads of src/docker.rs.
use dockfoxprox.Base.{ℕ, Option, Bytes}
use dockfoxprox.State.{State, Digest}
use dockfoxprox.State.Measure.{IsAccounted, measured}
use dockfoxprox.State.Accounting.{insert_blob-IsAccounted}
use dockfoxprox.Docker.Upload.{Request, handle_upload, store_blob}
use dockfoxprox.Docker.Upload.Keeps.{SurvivesUploads, handle_upload_kept}

store_blob-IsAccounted :
    (d : Digest) (content : Bytes) (s : State)
    → IsAccounted s
    → IsAccounted (store_blob d content s)
unfolding store_blob measured
store_blob-IsAccounted d content s h = insert_blob-IsAccounted d _ _ h

module _ (sha256 : Bytes → Digest) (parse_uuid : Bytes → Option ℕ) (show_uuid : ℕ → Bytes) where
  uploads-IsAccounted : SurvivesUploads sha256 IsAccounted (λ inner. Unit)
  unfolding measured
  uploads-IsAccounted = record {
    fresh = tt;
    appended = λ chunk inner q. tt;
    found = λ uuid inner s h e. tt;
    put_back = λ uuid inner s h q. h;
    removed = λ uuid s h. h;
    blob_stored = λ inner s h q. store_blob-IsAccounted _ _ s h;
    whole_stored = λ content s h. store_blob-IsAccounted _ _ s h;
    counted = λ metrics s h. h;
  }

  pub handle_upload-IsAccounted :
      (r : Request) (s : State)
      → IsAccounted s
      → IsAccounted (handle_upload sha256 parse_uuid show_uuid r s).0
  handle_upload-IsAccounted =
      handle_upload_kept sha256 parse_uuid show_uuid IsAccounted (λ inner. Unit) uploads-IsAccounted
