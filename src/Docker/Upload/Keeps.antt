-- ===== src/Docker/Upload/Keeps.antt =====
-- A property of the state that every request to the upload endpoints of src/docker.rs keeps, from what
-- keeps it; `Q` is what the property says of an upload.
use dockfoxprox.Base.{
  ℕ, ◌≡◌, Option, none, some, [], ◌∷◌, Bytes, bytes_eq, Option-cases, Bool-cases, inl, inr,
}
use dockfoxprox.Base.Map.{lookup, remove}
use dockfoxprox.Base.Text.{nat_key, bytes_key}
use dockfoxprox.Metrics.{Metrics}
use dockfoxprox.State.{State, Digest, UploadInner}
use dockfoxprox.Digest.{parse}
use dockfoxprox.Docker.Http.{ensure_self}
use dockfoxprox.Docker.Upload.{
  guarded, set_upload, append_chunk, append_last, store_blob, post_single, conclude, put_upload,
  post_blob_upload, patch_blob_upload, put_blob_upload, delete_blob_upload, Request, post, patch,
  put, delete, handle_upload, count_post, count_patch, count_put, count_delete,
}

-- What a property of the state has to survive.
pub record SurvivesUploads (sha256 : Bytes → Digest) (P : State → Type 0) (Q : UploadInner → Type 0)
    : Type 0 where
  pub fresh : Q (record { buf = []; hasher = [] })
  pub appended : (chunk : Bytes) (inner : UploadInner) → Q inner → Q (append_chunk chunk inner)
  pub found :
      (uuid : ℕ) (inner : UploadInner) (s : State)
      → P s
      → lookup uuid s.uploads ≡ some inner
      → Q inner
  pub put_back :
      (uuid : ℕ) (inner : UploadInner) (s : State) → P s → Q inner → P (set_upload uuid inner s)
  pub removed : (uuid : ℕ) (s : State) → P s → P (record s { uploads = remove uuid s.uploads })
  pub blob_stored :
      (inner : UploadInner) (s : State)
      → P s
      → Q inner
      → P (store_blob (sha256 inner.hasher) inner.buf s)
  pub whole_stored : (content : Bytes) (s : State) → P s → P (store_blob (sha256 content) content s)
  pub counted : (metrics : Metrics) (s : State) → P s → P (record s { metrics = metrics })

module _ (sha256 : Bytes → Digest) (parse_uuid : Bytes → Option ℕ) (show_uuid : ℕ → Bytes)
    (P : State → Type 0) (Q : UploadInner → Type 0) (k : SurvivesUploads sha256 P Q) where
  append_last_kept : (chunk : Bytes) (inner : UploadInner) → Q inner → Q (append_last chunk inner)
  unfolding append_last
  append_last_kept [] inner f = f
  append_last_kept (c ∷ chunk) inner f = k.appended (c ∷ chunk) inner f

  post_single_kept :
      (name : Bytes) (expected : Digest) (body : Option Bytes) (s : State)
      → P s
      → P (post_single sha256 name expected body s).0
  unfolding post_single
  post_single_kept name expected none s h = h
  post_single_kept name expected (some body) s h =
      elim (Bool-cases (bytes_eq (sha256 body) expected)) [
        | inl e ↦ rw e (k.whole_stored body s h)
        | inr e ↦ rw e h
      ]

  conclude_kept :
      (name : Bytes) (uuid : ℕ) (expected : Digest) (inner : UploadInner) (s : State)
      → P s
      → Q inner
      → P (conclude sha256 name uuid expected inner s).0
  unfolding conclude
  conclude_kept name uuid expected inner s h f =
      elim (Bool-cases (bytes_eq (sha256 inner.hasher) expected)) [
        | inl e ↦ rw e (k.blob_stored inner _ (k.removed uuid s h) f)
        | inr e ↦ rw e (k.put_back uuid inner s h f)
      ]

  put_upload_kept :
      (name : Bytes) (uuid : ℕ) (expected : Digest) (body : Option Bytes) (s : State)
      → P s
      → P (put_upload sha256 name uuid expected body s).0
  unfolding put_upload
  put_upload_kept name uuid expected body s h = elim (Option-cases (lookup uuid s.uploads)) [
    | inl e ↦ rw (e, put_upload) h
    | inr (inner, e) ↦ elim (Option-cases body) [
      | inl f ↦ rw (e, f, put_upload) h
      | inr (chunk, f) ↦
          rw (e, f, put_upload)
            (conclude_kept name uuid expected (append_last chunk inner) s h
              (append_last_kept chunk inner (k.found uuid inner s h e)))
    ]
  ]

  post_kept :
      (host name : Bytes) (uuid : ℕ) (digest body : Option Bytes) (s : State)
      → P s
      → P (post_blob_upload sha256 parse_uuid show_uuid host name uuid digest body s).0
  unfolding post_blob_upload guarded
  post_kept host name uuid none body s h = elim (Bool-cases (ensure_self host)) [
    | inr own ↦ rw (own, guarded) h
    | inl own ↦ rw (own, guarded) (k.put_back uuid (record { buf = []; hasher = [] }) s h k.fresh)
  ]
  post_kept host name uuid (some text) body s h = elim (Bool-cases (ensure_self host)) [
    | inr own ↦ rw (own, guarded) h
    | inl own ↦ (elim (Option-cases (parse text)) [
      | inl e ↦ rw (own, e, guarded) h
      | inr (expected, e) ↦ rw (own, e, guarded) (post_single_kept name expected body s h)
    ])
  ]

  patch_kept :
      (host name uuid_str : Bytes) (body : Option Bytes) (s : State)
      → P s
      → P (patch_blob_upload sha256 parse_uuid show_uuid host name uuid_str body s).0
  unfolding patch_blob_upload guarded
  patch_kept host name uuid_str body s h = elim (Bool-cases (ensure_self host)) [
    | inr own ↦ rw (own, guarded) h
    | inl own ↦ (elim (Option-cases (parse_uuid uuid_str)) [
      | inl e ↦ rw (own, e, guarded) h
      | inr (uuid, e) ↦ elim (Option-cases (lookup uuid s.uploads)) [
        | inl f ↦ rw (own, e, f, guarded) h
        | inr (inner, f) ↦ elim (Option-cases body) [
          | inl g ↦ rw (own, e, f, g, guarded) h
          | inr (chunk, g) ↦
              rw (own, e, f, g, guarded)
                (k.put_back uuid (append_chunk chunk inner) s h
                  (k.appended chunk inner (k.found uuid inner s h f)))
        ]
      ]
    ])
  ]

  put_kept :
      (host name uuid_str : Bytes) (digest body : Option Bytes) (s : State)
      → P s
      → P (put_blob_upload sha256 parse_uuid show_uuid host name uuid_str digest body s).0
  unfolding put_blob_upload guarded
  put_kept host name uuid_str digest body s h = elim (Bool-cases (ensure_self host)) [
    | inr own ↦ rw (own, guarded) h
    | inl own ↦ (elim (Option-cases (parse_uuid uuid_str)) [
      | inl e ↦ rw (own, e, guarded) h
      | inr (uuid, e) ↦ elim (Option-cases digest) [
        | inl f ↦ rw (own, e, f, guarded) h
        | inr (text, f) ↦ elim (Option-cases (parse text)) [
          | inl g ↦ rw (own, e, f, g, guarded) h
          | inr (expected, g) ↦
              rw (own, e, f, g, guarded) (put_upload_kept name uuid expected body s h)
        ]
      ]
    ])
  ]

  delete_kept :
      (host uuid_str : Bytes) (s : State)
      → P s
      → P (delete_blob_upload sha256 parse_uuid show_uuid host uuid_str s).0
  unfolding delete_blob_upload guarded
  delete_kept host uuid_str s h = elim (Bool-cases (ensure_self host)) [
    | inr own ↦ rw (own, guarded) h
    | inl own ↦ (elim (Option-cases (parse_uuid uuid_str)) [
      | inl e ↦ rw (own, e, guarded) h
      | inr (uuid, e) ↦ rw (own, e, guarded) (k.removed uuid s h)
    ])
  ]

  pub handle_upload_kept :
      (r : Request) (s : State) → P s → P (handle_upload sha256 parse_uuid show_uuid r s).0
  unfolding handle_upload
  handle_upload_kept (post host name uuid digest body) s h =
      post_kept host name uuid digest body (count_post s) (k.counted _ s h)
  handle_upload_kept (patch host name uuid body) s h =
      patch_kept host name uuid body (count_patch s) (k.counted _ s h)
  handle_upload_kept (put host name uuid digest body) s h =
      put_kept host name uuid digest body (count_put s) (k.counted _ s h)
  handle_upload_kept (delete host uuid) s h =
      delete_kept host uuid (count_delete s) (k.counted _ s h)
