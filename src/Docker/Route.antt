-- ===== src/Docker/Route.antt =====
-- The dispatcher of src/docker.rs: `handle_request` and `handle_request_inner`. A request is what the
-- code reads of it; `body` is what reading its body gives, and `uuid` is the one that is drawn for a new
-- upload.
pub mod Refuses
pub mod Admits
pub mod Serves
use dockfoxprox.Base.{
  ℕ, Bool, true, false, ◌||◌, Option, none, some, List, [], ◌∷◌, Bytes, bytes, bytes_eq,
  strip_prefix, if◌then◌else◌, add64,
}
use dockfoxprox.Metrics.{Metrics}
use dockfoxprox.Config.{Config}
use dockfoxprox.State.{State}
use dockfoxprox.Docker.Http.{
  Response, DockerError, invalid_auth, not_found, invalid_host, upstream, method_not_allowed,
  Fallible, ok, err, ◌>>=◌, ok_or, Answer, replied, refused, error_reply, plain_text, empty, full,
}
use dockfoxprox.Docker.Text.{split_once, rsplit_once, strip_suffix, is_empty}
use dockfoxprox.Docker.Access.{check_auth, validate_host, alias_host}
use dockfoxprox.Docker.Pull.{Libs, Client, World, header}
use dockfoxprox.Docker.Manifest.{get_head_manifest, put_manifest}
use dockfoxprox.Docker.Blob.{Outcome, plain, get_head_blob}
use dockfoxprox.Docker.Upload.{
  Request, post, patch, put, delete, handle_upload, get_blob_upload_status, digest_from_query,
}

pub record Incoming : Type 0 where
  pub method : Bytes
  pub path : Bytes
  pub query : Option Bytes
  pub authorization : Option Bytes
  pub accept : Option Bytes
  pub content_type : Option Bytes
  pub body : Option Bytes
  pub uuid : ℕ

-- `/v2/<host>/<name>/<tag>/<tail>`, with the host's alias replaced.
pub record Place : Type 0 where
  pub host : Bytes
  pub name : Bytes
  pub tag : Bytes
  pub tail : Bytes

-- The split of what stands behind the host, from its end.
unfoldable pub place_of : Bytes → Bytes → Fallible Place
unfolding rsplit_once
place_of host rest = do
  (front, tail) ← ok_or not_found (rsplit_once 47 rest)
  (name, tag) ← ok_or not_found (rsplit_once 47 front)
  ok (record { host = host; name = name; tag = tag; tail = tail })

unfoldable pub behind_host : Config → Bytes × Bytes → Fallible Place
unfolding validate_host alias_host place_of is_empty
behind_host config (host, rest) =
    if is_empty host || is_empty rest
    then err not_found
    else do _ ← validate_host host; place_of (alias_host config host) rest

-- The parsing of the path.
unfoldable pub locate : Config → Bytes → Fallible Place
unfolding behind_host split_once
locate config path = do
  suffix ← ok_or not_found (strip_prefix (bytes "/v2/") path)
  parts ← ok_or not_found (split_once 47 suffix)
  behind_host config parts

abbrev count : (Metrics → Metrics) → State → State
count f s = record s { metrics = f s.metrics }

abbrev pub count_manifest_get : State → State
count_manifest_get = count (λ m. record m { docker_manifest_get = add64 m.docker_manifest_get 1 })

abbrev pub count_manifest_head : State → State
count_manifest_head =
    count (λ m. record m { docker_manifest_head = add64 m.docker_manifest_head 1 })

abbrev pub count_manifest_put : State → State
count_manifest_put = count (λ m. record m { docker_manifest_put = add64 m.docker_manifest_put 1 })

abbrev pub count_blob_get : State → State
count_blob_get = count (λ m. record m { docker_blob_get = add64 m.docker_blob_get 1 })

abbrev pub count_blob_head : State → State
count_blob_head = count (λ m. record m { docker_blob_head = add64 m.docker_blob_head 1 })

-- The methods that the dispatcher tells apart.
pub data Method : Type 0 where
  by_get by_head by_put by_post by_patch by_delete : Method
  by_other : Bytes → Method

unfoldable pub method_of : Bytes → Method
method_of m =
    if bytes_eq m (bytes "GET")
    then Method.by_get
    else if bytes_eq m (bytes "HEAD")
    then Method.by_head
    else if bytes_eq m (bytes "PUT")
    then Method.by_put
    else if bytes_eq m (bytes "POST")
    then Method.by_post
    else if bytes_eq m (bytes "PATCH")
    then Method.by_patch
    else if bytes_eq m (bytes "DELETE")
    then Method.by_delete
    else Method.by_other m

module _ (libs : Libs) (client : Client) where
  -- A state after a request, and its outcome.
  abbrev pub Handled : Type 0
  Handled = World libs client × Outcome

  abbrev pub refuse : DockerError → World libs client → Handled
  refuse e w = (w, plain (refused e))

  -- A handler that asks no other server.
  abbrev pub locally : State × Answer → client.Net → Handled
  locally (s, answer) net = ((s, net), plain answer)

  abbrev pub served : World libs client × Answer → Handled
  served (w, answer) = (w, plain answer)

  unfoldable pub manifest_request : Method → Place → Incoming → World libs client → Handled
  unfolding get_head_manifest put_manifest
  manifest_request Method.by_get p req (s, net) = served (
      get_head_manifest libs client req.accept p.host p.name p.tail false
        (count_manifest_get s, net))
  manifest_request Method.by_head p req (s, net) = served (
      get_head_manifest libs client req.accept p.host p.name p.tail true
        (count_manifest_head s, net))
  manifest_request Method.by_put p req (s, net) =
      locally
        (put_manifest libs p.host p.name p.tail req.content_type req.body (count_manifest_put s))
        net
  manifest_request _ p req w = refuse (method_not_allowed req.method) w

  -- What the arms for uploads pass to `handle_upload`.
  abbrev pub upload_by : Request → World libs client → Handled
  upload_by r (s, net) = locally (handle_upload libs.sha256 libs.parse_uuid libs.show_uuid r s) net

  unfoldable pub upload_request : Method → Bytes → Place → Incoming → World libs client → Handled
  unfolding handle_upload get_blob_upload_status digest_from_query
  upload_request Method.by_post name p req w =
      upload_by (post p.host name req.uuid (digest_from_query libs.urldecode req.query) req.body) w
  upload_request Method.by_patch name p req w = upload_by (patch p.host name p.tail req.body) w
  upload_request Method.by_put name p req w =
      upload_by (put p.host name p.tail (digest_from_query libs.urldecode req.query) req.body) w
  upload_request Method.by_delete name p req w = upload_by (delete p.host p.tail) w
  upload_request Method.by_get name p req (s, net) =
      locally
        (get_blob_upload_status libs.sha256 libs.parse_uuid libs.show_uuid p.host name p.tail s) net
  upload_request _ name p req w = refuse (method_not_allowed req.method) w

  unfoldable pub blob_request : Method → Place → Incoming → World libs client → Handled
  unfolding get_head_blob
  blob_request Method.by_get p req (s, net) =
      get_head_blob libs client p.host p.name p.tail false (count_blob_get s, net)
  blob_request Method.by_head p req (s, net) =
      get_head_blob libs client p.host p.name p.tail true (count_blob_head s, net)
  blob_request _ p req w = refuse (method_not_allowed req.method) w

  -- The three kinds of things under a name.
  unfoldable pub handle_place : Place → Incoming → World libs client → Handled
  unfolding manifest_request upload_request blob_request strip_suffix method_of
  handle_place p req w =
      let by = method_of req.method in
      if bytes_eq p.tag (bytes "manifests")
      then manifest_request by p req w
      else if bytes_eq p.tag (bytes "uploads")
      then elim (strip_suffix (bytes "/blobs") p.name) [
        | none ↦ refuse not_found w
        | some name ↦ upload_request by name p req w
      ]
      else if bytes_eq p.tag (bytes "blobs")
      then blob_request by p req w
      else refuse not_found w

  unfoldable pub located : Fallible Place → Incoming → World libs client → Handled
  unfolding handle_place
  located (err e) req w = refuse e w
  located (ok p) req w = handle_place p req w

  abbrev pub version_reply : Response
  version_reply = record {
    status = 200;
    headers = (bytes "Docker-Distribution-Api-Version", bytes "registry/2.0") ∷ [];
    body = empty;
  }

  unfoldable pub routed : Incoming → World libs client → Handled
  unfolding located locate
  routed req (s, net) =
      if bytes_eq req.path (bytes "/v2") || bytes_eq req.path (bytes "/v2/")
      then ((s, net), plain (replied version_reply))
      else located (locate s.config req.path) req (s, net)

  -- What follows the check of the header.
  unfoldable pub admitted : Incoming → client.Net → State × Bool → Handled
  unfolding routed
  admitted req net (s, true) = routed req (s, net)
  admitted req net (s, false) = refuse invalid_auth (s, net)

  -- `handle_request_inner`.
  unfoldable pub handle_request_inner : Incoming → World libs client → Handled
  unfolding admitted check_auth
  handle_request_inner req (s, net) =
      admitted req net (check_auth libs.to_str libs.base64_decode req.authorization s)

-- The response to each of the errors.
unfoldable pub response_to : DockerError → Response
unfolding error_reply
response_to invalid_auth = record {
  status = 401;
  headers = plain_text ∷ (bytes "WWW-Authenticate", bytes "Basic realm=\"dockfoxprox\"") ∷ [];
  body = full (bytes "Unauthorized");
}
response_to not_found = error_reply 404 (bytes "Not found")
response_to invalid_host = error_reply 400 (bytes "Invalid host")
response_to upstream = error_reply 502 (bytes "Bad Gateway")
response_to (method_not_allowed m) = error_reply 405 (bytes "Method Not Allowed")

unfoldable pub response_of : Answer → Response
unfolding response_to
response_of (replied r) = r
response_of (refused e) = response_to e

module _ (libs : Libs) (client : Client) where
  -- `handle_request`: the state after it, the response, and the task that it leaves.
  unfoldable pub handle_request : Incoming → World libs client → World libs client × Outcome
  unfolding handle_request_inner response_of
  handle_request req w =
      let (w', outcome) = handle_request_inner libs client req w in
      (w', record outcome { answer = replied (response_of outcome.answer) })
