-- ===== src/Docker/Upload.antt =====
-- The upload of blobs to the registry `self`, src/docker.rs: POST, PATCH, PUT, GET and DELETE. SHA-256 and the
-- text form of UUIDs are parameters, a UUID is a number; `digest` is the decoded query parameter, and
-- `body` is what reading the body gives. The building of a response from valid headers succeeds.
pub mod Keeps
pub mod Addressed
pub mod Accounted
use dockfoxprox.Base.{
  ℕ, ◌-◌, Bool, Option, none, some, List, [], ◌∷◌, ◌++◌, Bytes, bytes, bytes_eq, length,
  if◌then◌else◌, add64, strip_prefix,
}
use dockfoxprox.Base.Map.{Map, lookup, insert, remove}
use dockfoxprox.Base.Text.{nat_key}
use dockfoxprox.Metrics.{Metrics}
use dockfoxprox.State.{State, Digest, Blob, UploadInner, insert_blob}
use dockfoxprox.Digest.{parse, display}
use dockfoxprox.Redis.Text.{decimal}
use dockfoxprox.Docker.Text.{split}
use dockfoxprox.Docker.Http.{
  Response, DockerError, method_not_allowed, upstream, Answer, replied, refused, error_response,
  ensure_self, empty,
}

-- A handler changes the state and answers.
abbrev pub Handler : Type 0
Handler = State → State × Answer

unfoldable pub guarded : Bytes → Bytes → Handler → Handler
unfolding ensure_self
guarded host method handler s =
    if ensure_self host then handler s else (s, refused (method_not_allowed method))

abbrev pub bad_request : Bytes → Answer
bad_request = error_response 400

abbrev pub set_upload : ℕ → UploadInner → State → State
set_upload uuid inner s = record s { uploads = insert uuid inner s.uploads }

-- `hasher.update` and `buf.extend_from_slice`.
unfoldable pub append_chunk : Bytes → UploadInner → UploadInner
append_chunk chunk inner = record { buf = inner.buf ++ chunk; hasher = inner.hasher ++ chunk }

-- The last chunk of a PUT, which may be empty.
unfoldable pub append_last : Bytes → UploadInner → UploadInner
unfolding append_chunk
append_last [] inner = inner
append_last (c ∷ chunk) inner = append_chunk (c ∷ chunk) inner

-- A blob in memory under a fresh id.
unfoldable pub store_blob : Digest → Bytes → State → State
store_blob digest content s =
    insert_blob digest (Blob.in_memory s.next_id content (bytes "application/octet-stream") s.now)
      (record s { next_id = add64 s.next_id 1 })

unfoldable pub range : ℕ → Bytes
range end = bytes "0-" ++ decimal (end - 1)

unfoldable pub location : Bytes → Bytes → Bytes
location name uuid = bytes "/v2/self/" ++ name ++ bytes "/blobs/uploads/" ++ uuid

unfoldable pub mismatch : Digest → Digest → Answer
mismatch expected got =
    bad_request
      (bytes "digest mismatch: expected " ++ display expected ++ bytes " got " ++ display got)

unfoldable pub created : Bytes → Digest → Answer
created name got = replied (record {
  status = 201;
  headers =
      (bytes "Location", bytes "/v2/self/" ++ name ++ bytes "/blobs/" ++ display got)
      ∷ (bytes "Docker-Content-Digest", display got)
      ∷ (bytes "Content-Length", bytes "0")
      ∷ [];
  body = empty;
})

module _ (show_uuid : ℕ → Bytes) where
  unfoldable pub accepted : Bytes → ℕ → Bytes → Answer
  unfolding location
  accepted name uuid range = replied (record {
    status = 202;
    headers =
        (bytes "Location", location name (show_uuid uuid))
        ∷ (bytes "Range", range)
        ∷ (bytes "Content-Length", bytes "0")
        ∷ (bytes "Docker-Upload-UUID", show_uuid uuid)
        ∷ [];
    body = empty;
  })

  unfoldable pub upload_status : Bytes → ℕ → State → Answer
  unfolding location range
  upload_status name uuid s = elim (lookup uuid s.uploads) [
    | none ↦ error_response 404 (bytes "unknown upload")
    | some inner ↦ replied (record {
      status = 204;
      headers =
          (bytes "Location", location name (show_uuid uuid))
          ∷ (bytes "Range", range (length inner.buf))
          ∷ (bytes "Docker-Upload-UUID", show_uuid uuid)
          ∷ [];
      body = empty;
    })
  ]

module _ (sha256 : Bytes → Digest) where
  -- The upload in a single request, whose body is the blob.
  unfoldable pub post_single : Bytes → Digest → Option Bytes → Handler
  unfolding store_blob mismatch created
  post_single name expected none s = (s, refused upstream)
  post_single name expected (some body) s =
      if bytes_eq (sha256 body) expected
      then (store_blob (sha256 body) body s, created name (sha256 body))
      else (s, mismatch expected (sha256 body))

  -- The end of a PUT: the hash of all chunks decides whether the blob is stored.
  unfoldable pub conclude : Bytes → ℕ → Digest → UploadInner → Handler
  unfolding store_blob mismatch created
  conclude name uuid expected inner s =
      if bytes_eq (sha256 inner.hasher) expected
      then (
        store_blob (sha256 inner.hasher) inner.buf (record s { uploads = remove uuid s.uploads }),
        created name (sha256 inner.hasher),
      )
      else (set_upload uuid inner s, mismatch expected (sha256 inner.hasher))

  unfoldable pub put_upload : Bytes → ℕ → Digest → Option Bytes → Handler
  unfolding conclude append_last
  put_upload name uuid expected body s = elim (lookup uuid s.uploads) [
    | none ↦ (s, error_response 404 (bytes "unknown upload"))
    | some inner ↦ elim body [
      | none ↦ (s, refused upstream)
      | some chunk ↦ conclude name uuid expected (append_last chunk inner) s
    ]
  ]

module _ (sha256 : Bytes → Digest) (parse_uuid : Bytes → Option ℕ) (show_uuid : ℕ → Bytes) where
  -- `uuid` is the one that is handed out.
  unfoldable pub post_blob_upload : Bytes → Bytes → ℕ → Option Bytes → Option Bytes → Handler
  unfolding guarded post_single accepted
  post_blob_upload host name uuid digest body = guarded host (bytes "POST") (λ s. elim digest [
    | some text ↦ elim (parse text) [
      | none ↦ (s, bad_request (bytes "invalid digest"))
      | some expected ↦ post_single sha256 name expected body s
    ]
    | none ↦ (
      set_upload uuid (record { buf = []; hasher = [] }) s,
      accepted show_uuid name uuid (bytes "0-0"),
    )
  ])

  unfoldable pub patch_blob_upload : Bytes → Bytes → Bytes → Option Bytes → Handler
  unfolding guarded append_chunk accepted range
  patch_blob_upload host name uuid_str body = guarded host (bytes "PATCH") (λ s.
      elim (parse_uuid uuid_str) [
        | none ↦ (s, bad_request (bytes "invalid upload id"))
        | some uuid ↦ elim (lookup uuid s.uploads) [
          | none ↦ (s, error_response 404 (bytes "unknown upload"))
          | some inner ↦ elim body [
            | none ↦ (s, refused upstream)
            | some chunk ↦
                let inner' = append_chunk chunk inner in
                (set_upload uuid inner' s, accepted show_uuid name uuid (range (length inner'.buf)))
          ]
        ]
      ])

  unfoldable pub put_blob_upload : Bytes → Bytes → Bytes → Option Bytes → Option Bytes → Handler
  unfolding guarded put_upload
  put_blob_upload host name uuid_str digest body = guarded host (bytes "PUT") (λ s.
      elim (parse_uuid uuid_str) [
        | none ↦ (s, bad_request (bytes "invalid upload id"))
        | some uuid ↦ elim digest [
          | none ↦ (s, bad_request (bytes "missing ?digest"))
          | some text ↦ elim (parse text) [
            | none ↦ (s, bad_request (bytes "invalid digest"))
            | some expected ↦ put_upload sha256 name uuid expected body s
          ]
        ]
      ])

  unfoldable pub delete_blob_upload : Bytes → Bytes → Handler
  unfolding guarded
  delete_blob_upload host uuid_str = guarded host (bytes "DELETE") (λ s.
      elim (parse_uuid uuid_str) [
        | none ↦ (s, bad_request (bytes "invalid upload id"))
        | some uuid ↦ (
          record s { uploads = remove uuid s.uploads },
          replied (record {
            status = 204;
            headers = (bytes "Content-Length", bytes "0") ∷ [];
            body = empty;
          }),
        )
      ])

  -- `get_blob_upload_status`.
  unfoldable pub get_blob_upload_status : Bytes → Bytes → Bytes → Handler
  unfolding guarded upload_status
  get_blob_upload_status host name uuid_str = guarded host (bytes "GET") (λ s.
      elim (parse_uuid uuid_str) [
        | none ↦ (s, bad_request (bytes "invalid upload id"))
        | some uuid ↦ (s, upload_status show_uuid name uuid s)
      ])

-- The first parameter `digest` of a query, decoded.
unfoldable pub first_digest : (Bytes → Bytes) → List Bytes → Option Bytes
unfolding strip_prefix
first_digest urldecode [] = none
first_digest urldecode (kv ∷ kvs) =
    let rest = first_digest urldecode kvs in
    elim (strip_prefix (bytes "digest=") kv) [ some v ↦ some (urldecode v) | none ↦ rest ]

-- `digest_from_query`.
unfoldable pub digest_from_query : (Bytes → Bytes) → Option Bytes → Option Bytes
unfolding first_digest split
digest_from_query urldecode none = none
digest_from_query urldecode (some q) =
    let (kv, kvs) = split 38 q in first_digest urldecode (kv ∷ kvs)

abbrev count : (Metrics → Metrics) → State → State
count f s = record s { metrics = f s.metrics }

abbrev pub count_post : State → State
count_post = count (λ m. record m { docker_blob_upload_post = add64 m.docker_blob_upload_post 1 })

abbrev pub count_patch : State → State
count_patch =
    count (λ m. record m { docker_blob_upload_patch = add64 m.docker_blob_upload_patch 1 })

abbrev pub count_put : State → State
count_put = count (λ m. record m { docker_blob_upload_put = add64 m.docker_blob_upload_put 1 })

abbrev pub count_delete : State → State
count_delete =
    count (λ m. record m { docker_blob_upload_delete = add64 m.docker_blob_upload_delete 1 })

-- A request to the upload endpoints: `post host name uuid digest body`, with the UUID that is handed
-- out, `patch host name uuid body`, `put host name uuid digest body` and `delete host uuid`.
pub data Request : Type 0 where
  post : Bytes → Bytes → ℕ → Option Bytes → Option Bytes → Request
  patch : Bytes → Bytes → Bytes → Option Bytes → Request
  put : Bytes → Bytes → Bytes → Option Bytes → Option Bytes → Request
  delete : Bytes → Bytes → Request

module _ (sha256 : Bytes → Digest) (parse_uuid : Bytes → Option ℕ) (show_uuid : ℕ → Bytes) where
  -- The arms of the dispatcher for uploads.
  unfoldable pub handle_upload : Request → Handler
  unfolding post_blob_upload patch_blob_upload put_blob_upload delete_blob_upload
  handle_upload (post host name uuid digest body) s =
      post_blob_upload sha256 parse_uuid show_uuid host name uuid digest body (count_post s)
  handle_upload (patch host name uuid body) s =
      patch_blob_upload sha256 parse_uuid show_uuid host name uuid body (count_patch s)
  handle_upload (put host name uuid digest body) s =
      put_blob_upload sha256 parse_uuid show_uuid host name uuid digest body (count_put s)
  handle_upload (delete host uuid) s =
      delete_blob_upload sha256 parse_uuid show_uuid host uuid (count_delete s)

  -- The state after requests that come one after the other.
  unfoldable pub handle_uploads : List Request → State → State
  unfolding handle_upload
  handle_uploads [] s = s
  handle_uploads (r ∷ rs) s = handle_uploads rs (handle_upload r s).0
