-- ===== src/Docker/Blob/Serves.antt =====
-- Blobs that src/docker.rs serves from memory: after an upload, and after the task that fills the cache.
use dockfoxprox.Base.{ℕ, ◌≡◌, refl, false, none, some, List, [], ◌∷◌, ◌++◌, map, Bytes, bytes}
use dockfoxprox.Base.Map.{lookup}
use dockfoxprox.Base.Text.{bytes_key, nat_key}
use dockfoxprox.State.{State, Digest, Blob, UploadInner}
use dockfoxprox.Digest.{parse}
use dockfoxprox.Docker.Http.{replied}
use dockfoxprox.Docker.Pull.{Libs, Client}
use dockfoxprox.Docker.Blob.{
  serve_blob_bytes, serve_hit, answer_blob, get_head_blob, plain, Outcome,
}
use dockfoxprox.Docker.Upload.{Request, post, patch, put, handle_upload}

-- A blob is in memory with this content and media type.
abbrev pub Holds : Digest → Bytes → Bytes → State → Type 0
Holds d content media s =
    (id : ℕ) × (t : ℕ) × (lookup d s.blobs ≡ some (Blob.in_memory id content media t))

module _ (libs : Libs) (client : Client) where
  -- What a GET of a blob is answered with, the client's state before it, and the task that it leaves.
  abbrev pub got_blob : Bytes → Bytes → Bytes → State → client.Net → client.Net × Outcome
  got_blob host name text s net =
      let (w, outcome) = get_head_blob libs client host name text false (s, net) in (w.1, outcome)

  pub get-Holds :
      (host name text : Bytes) (d : Digest) (content media : Bytes) (s : State) (net : client.Net)
      → parse text ≡ some d
      → Holds d content media s
      → got_blob host name text s net
        ≡ (net, plain (replied (serve_blob_bytes content media d false)))
  unfolding get_head_blob answer_blob serve_hit
  get-Holds host name text d content media s net e (id, t, f) =
      rw (e, get_head_blob, f, answer_blob) refl

module _ (uuid : ℕ) (name uuid_str : Bytes) where
  -- A part of an upload.
  abbrev part : Bytes → Request
  part chunk = patch (bytes "self") name uuid_str (some chunk)

  -- The requests of an upload in parts: POST, a PATCH for each chunk, and the PUT that ends it.
  abbrev pub session : List Bytes → Bytes → Bytes → List Request
  session chunks text last =
      post (bytes "self") name uuid none none
      ∷ (map part chunks ++ put (bytes "self") name uuid_str (some text) (some last) ∷ [])

module _ (libs : Libs) (uuid : ℕ) (name uuid_str : Bytes)
    (known : libs.parse_uuid uuid_str ≡ some uuid) where
  abbrev handled : Request → State → State
  handled r s = (handle_upload libs.sha256 libs.parse_uuid libs.show_uuid r s).0

  abbrev inner_of : Bytes → UploadInner
  inner_of b = record { buf = b; hasher = b }
