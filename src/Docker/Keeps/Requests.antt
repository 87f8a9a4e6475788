-- ===== src/Docker/Keeps/Requests.antt =====
-- The properties of the state that every request keeps; `handle_request` of src/docker.rs.
use dockfoxprox.Base.{
  Bool, true, false, refl, inl, inr, Option, none, some, List, [], ◌∷◌, Bytes, bytes, bytes_eq,
  Option-cases, Bool-cases, ◌||◌,
}
use dockfoxprox.Base.Text.{bytes_key, pair_key}
use dockfoxprox.Config.{DockerUser}
use dockfoxprox.State.{State}
use dockfoxprox.Docker.Http.{Fallible, ok, err, ensure_self}
use dockfoxprox.Docker.Text.{strip_suffix}
use dockfoxprox.Docker.Access.{
  given_login, is_user, check_login, check_among, check_auth, count_failure,
}
use dockfoxprox.Docker.Pull.{Libs, Client, World}
use dockfoxprox.Docker.Upload.{
  post, patch, put, delete, get_blob_upload_status, digest_from_query, guarded,
}
use dockfoxprox.Docker.Route.{
  Incoming, Place, Method, upload_request, handle_place, located, locate, routed, admitted,
  handle_request_inner, handle_request, method_of,
}
use dockfoxprox.Docker.Keeps.{IsKept}
use dockfoxprox.Docker.Keeps.Manifests.{manifest_request_kept}
use dockfoxprox.Docker.Keeps.Blobs.{blob_request_kept}

module _ (libs : Libs) (client : Client) (P : State → Type 0) (k : IsKept libs P) where
  get_status_kept :
      (host name uuid_str : Bytes) (s : State)
      → P s
      → P (get_blob_upload_status libs.sha256 libs.parse_uuid libs.show_uuid host name uuid_str s).0
  unfolding get_blob_upload_status guarded
  get_status_kept host name uuid_str s h = elim (Bool-cases (ensure_self host)) [
    | inr e ↦ rw (e, guarded) h
    | inl e ↦ elim (Option-cases (libs.parse_uuid uuid_str)) [
      | inl f ↦ rw (e, f, guarded) h
      | inr (uuid, f) ↦ rw (e, f, guarded) h
    ]
  ]

  upload_request_kept :
      (m : Method) (name : Bytes) (p : Place) (req : Incoming) (w : World libs client)
      → P w.0
      → P (upload_request libs client m name p req w).0.0
  unfolding upload_request
  upload_request_kept Method.by_post name p req (s, net) h =
      k.uploaded (post p.host name req.uuid (digest_from_query libs.urldecode req.query) req.body) s
        h
  upload_request_kept Method.by_patch name p req (s, net) h =
      k.uploaded (patch p.host name p.tail req.body) s h
  upload_request_kept Method.by_put name p req (s, net) h =
      k.uploaded (put p.host name p.tail (digest_from_query libs.urldecode req.query) req.body) s h
  upload_request_kept Method.by_delete name p req (s, net) h = k.uploaded (delete p.host p.tail) s h
  upload_request_kept Method.by_get name p req (s, net) h = get_status_kept p.host name p.tail s h
  upload_request_kept Method.by_head name p req w h = h
  upload_request_kept (Method.by_other m) name p req w h = h

  handle_place_kept :
      (p : Place) (req : Incoming) (w : World libs client)
      → P w.0
      → P (handle_place libs client p req w).0.0
  unfolding handle_place
  handle_place_kept p req w h =
      let by = method_of req.method in
      elim (Bool-cases (bytes_eq p.tag (bytes "manifests"))) [
        | inl e ↦ rw (e, handle_place) (manifest_request_kept libs client P k by p req w h)
        | inr e ↦ elim (Bool-cases (bytes_eq p.tag (bytes "uploads"))) [
          | inl f ↦ elim (Option-cases (strip_suffix (bytes "/blobs") p.name)) [
            | inl g ↦ rw (e, f, g, handle_place) h
            | inr (name, g) ↦ rw (e, f, g, handle_place) (upload_request_kept by name p req w h)
          ]
          | inr f ↦ elim (Bool-cases (bytes_eq p.tag (bytes "blobs"))) [
            | inl g ↦ rw (e, f, g, handle_place) (blob_request_kept libs client P k by p req w h)
            | inr g ↦ rw (e, f, g, handle_place) h
          ]
        ]
      ]

  located_kept :
      (at : Fallible Place) (req : Incoming) (w : World libs client)
      → P w.0
      → P (located libs client at req w).0.0
  unfolding located
  located_kept (err e) req w h = h
  located_kept (ok p) req w h = handle_place_kept p req w h

  routed_kept : (req : Incoming) (w : World libs client) → P w.0 → P (routed libs client req w).0.0
  unfolding routed
  routed_kept req (s, net) h =
      elim (Bool-cases (bytes_eq req.path (bytes "/v2") || bytes_eq req.path (bytes "/v2/"))) [
        | inl e ↦ rw (e, routed) h
        | inr e ↦ rw (e, routed) (located_kept (locate s.config req.path) req (s, net) h)
      ]

  admitted_kept :
      (req : Incoming) (net : client.Net) (checked : State × Bool)
      → P checked.0
      → P (admitted libs client req net checked).0.0
  unfolding admitted
  admitted_kept req net (s, true) h = routed_kept req (s, net) h
  admitted_kept req net (s, false) h = h

  check_login_kept : (login : Option (Bytes × Bytes)) (s : State) → P s → P (check_login login s).0
  unfolding check_login
  check_login_kept none s h = h
  check_login_kept (some (user, pass)) s h =
      elim (Bool-cases (is_user user pass s.config.docker_user)) [
        | inl e ↦ rw (e, check_login) h
        | inr e ↦ rw (e, check_login) (k.pulled s (count_failure s) refl h)
      ]

  check_among_kept :
      (users : List DockerUser) (login : Option (Bytes × Bytes)) (s : State)
      → P s
      → P (check_among users login s).0
  unfolding check_among
  check_among_kept [] login s h = h
  check_among_kept (user ∷ users) login s h = check_login_kept login s h

  pub handle_request_kept :
      (req : Incoming) (w : World libs client) → P w.0 → P (handle_request libs client req w).0.0
  unfolding handle_request handle_request_inner check_auth
  handle_request_kept req (s, net) h =
      admitted_kept req net (check_auth libs.to_str libs.base64_decode req.authorization s) (
        check_among_kept s.config.docker_user
          (given_login libs.to_str libs.base64_decode req.authorization) s h)
