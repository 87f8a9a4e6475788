-- ===== src/Docker/Keeps.antt =====
-- What a property of the state has to survive so that every request of src/docker.rs keeps it: the
-- steps that the handlers are made of.
pub mod Manifests
pub mod Blobs
pub mod Requests
pub mod Addressed
pub mod Accounted
use dockfoxprox.Base.{
  ℕ, Bool, true, false, ◌≡◌, refl, inl, inr, Option, none, some, List, [], ◌∷◌, Bytes, bytes,
  bytes_eq, Option-cases, Bool-cases, ◌||◌, ◌++◌,
}
use dockfoxprox.Base.Map.{Map, lookup}
use dockfoxprox.Base.Text.{bytes_key, pair_key}
use dockfoxprox.Config.{DockerUser}
use dockfoxprox.State.{State, Digest, Manifest, Blob, insert_manifest}
use dockfoxprox.Digest.{parse, display}
use dockfoxprox.Docker.Http.{DockerError, Fallible, ok, err, Answer, ensure_self}
use dockfoxprox.Docker.Text.{strip_suffix}
use dockfoxprox.Docker.Access.{
  given_login, is_user, check_login, check_among, check_auth, count_failure,
}
use dockfoxprox.Docker.Pull.{
  header, Libs, Client, Reply, World, Pulled, read_all, is_success, upstream_pull_request,
}
use dockfoxprox.Docker.Pull.Effects.{KeepsCaches, upstream_pull_request-KeepsCaches}
use dockfoxprox.Docker.Manifest.{
  Served, touch_manifest, fresh_manifest, media_type_of, content_digest, keep_body, keep_manifest,
  answer_manifest, resolve_tag, get_manifest_as, get_head_manifest, manifest_accept, set_tags,
  store_manifest, put_manifest, count_manifest_miss,
}
use dockfoxprox.Docker.Blob.{
  Outcome, touch_blob, serve_hit, pass_pulled, pull_blob, answer_blob, get_head_blob,
  count_hit_memory, count_hit_disk, count_blob_miss, verb,
}
use dockfoxprox.Docker.Upload.{
  Request, post, patch, put, delete, handle_upload, get_blob_upload_status, digest_from_query,
  guarded,
}
use dockfoxprox.Docker.Route.{
  Incoming, Place, Method, Handled, manifest_request, upload_request, blob_request, handle_place,
  located, locate, routed, admitted, handle_request_inner, handle_request, method_of,
  count_manifest_get, count_manifest_head, count_manifest_put, count_blob_get, count_blob_head,
}

-- What a property of the state has to survive.
pub record IsKept (libs : Libs) (P : State → Type 0) : Type 0 where
  pub pulled : (s t : State) → KeepsCaches s t → P s → P t
  pub tagged : (tags : Map (Bytes × Bytes) Digest) (s : State) → P s → P (record s { tags = tags })
  pub stored : (d : Digest) (m : Manifest) (s : State) → P s → P (insert_manifest d m s)
  pub manifest_touched :
      (d : Digest) (m : Manifest) (s : State)
      → lookup d s.manifests ≡ some m
      → P s
      → P (touch_manifest d m s)
  pub blob_touched :
      (d : Digest) (b : Blob) (s : State) → lookup d s.blobs ≡ some b → P s → P (touch_blob d b s)
  pub uploaded :
      (r : Request) (s : State)
      → P s
      → P (handle_upload libs.sha256 libs.parse_uuid libs.show_uuid r s).0

module _ (libs : Libs) (client : Client) (P : State → Type 0) (k : IsKept libs P) where
  -- A pull, from a state whose metrics may have been counted up.
  pub pulled_kept :
      (host name method sub_path : Bytes) (accept : Option Bytes) (s t : State) (net : client.Net)
      → KeepsCaches s t
      → P s
      → P (upstream_pull_request libs client host name method sub_path accept (t, net)).0.0
  pulled_kept host name method sub_path accept s t net e h =
      k.pulled t _
        (upstream_pull_request-KeepsCaches libs client host name method sub_path accept (t, net))
        (k.pulled s t e h)
