-- ===== src/Docker/Manifest.antt =====
-- Manifests in src/docker.rs: `manifest_accept`, `get_head_manifest`, `serve_manifest` and
-- `put_manifest`. What a client's header or body gives when it is read is an argument.
pub mod Accept
use dockfoxprox.Base.{
  ℕ, Bool, true, false, ◌||◌, Option, none, some, List, [], ◌∷◌, ◌++◌, Bytes, bytes, bytes_eq,
  length, if◌then◌else◌, add64,
}
use dockfoxprox.Base.Map.{Map, lookup, insert}
use dockfoxprox.Base.Text.{bytes_key, pair_key}
use dockfoxprox.Metrics.{Metrics}
use dockfoxprox.State.{State, Digest, Manifest, insert_manifest}
use dockfoxprox.Digest.{parse, display}
use dockfoxprox.Redis.Text.{decimal}
use dockfoxprox.Docker.Http.{
  Response, DockerError, not_found, method_not_allowed, upstream, Fallible, ok, err, Answer,
  replied, refused, error_response, ensure_self, empty, full,
}
use dockfoxprox.Docker.Text.{split, trim, is_empty, any_ignore_case, join}
use dockfoxprox.Docker.Pull.{
  Libs, Client, Reply, World, Pulled, header, read_all, is_success, upstream_pull_request,
}

-- `MANIFEST_ACCEPT_TYPES`.
abbrev pub manifest_accept_types : List Bytes
manifest_accept_types =
    bytes "application/vnd.oci.image.index.v1+json"
    ∷ bytes "application/vnd.oci.image.manifest.v1+json"
    ∷ bytes "application/vnd.docker.distribution.manifest.list.v2+json"
    ∷ bytes "application/vnd.docker.distribution.manifest.v2+json"
    ∷ bytes "application/vnd.docker.distribution.manifest.v1+json"
    ∷ bytes "application/vnd.docker.distribution.manifest.v1+prettyjws"
    ∷ []

-- A media type without its parameters.
unfoldable pub accept_type : Bytes → Bytes
unfolding split trim
accept_type part = trim (split 59 part).0

unfoldable pub push_type : Bytes → List Bytes → List Bytes
unfolding is_empty any_ignore_case
push_type t out =
    if is_empty t || bytes_eq t (bytes "*/*") || any_ignore_case t out then out else out ++ t ∷ []

unfoldable pub push_types : List Bytes → List Bytes → List Bytes
unfolding accept_type push_type
push_types [] out = out
push_types (part ∷ parts) out = push_types parts (push_type (accept_type part) out)

-- The types that are asked for, before they are joined.
unfoldable pub accept_types : Option Bytes → List Bytes
unfolding push_types split
accept_types none = manifest_accept_types
accept_types (some a) = let (p, ps) = split 44 a in push_types (p ∷ ps) manifest_accept_types

-- `manifest_accept`.
unfoldable pub manifest_accept : Option Bytes → Bytes
unfolding accept_types join
manifest_accept a = join (bytes ", ") (accept_types a)

-- `serve_manifest`.
unfoldable pub serve_manifest : Manifest → Bool → Digest → Response
serve_manifest m head digest = record {
  status = 200;
  headers =
      (bytes "content-type", m.media_type)
      ∷ (bytes "docker-content-digest", display digest)
      ∷ (bytes "content-length", decimal (length m.content))
      ∷ [];
  body = if head then empty else full m.content;
}

abbrev count : (Metrics → Metrics) → State → State
count f s = record s { metrics = f s.metrics }

abbrev pub count_manifest_miss : State → State
count_manifest_miss =
    count (λ m. record m { docker_manifest_cache_miss = add64 m.docker_manifest_cache_miss 1 })

abbrev pub used_now : ℕ → Manifest → Manifest
used_now now m = record m { last_used = now; evicted = false }

-- A hit: what is stored through the entry, and the counter.
unfoldable pub touch_manifest : Digest → Manifest → State → State
touch_manifest digest m s = record s {
  manifests = insert digest (used_now s.now m) s.manifests;
  metrics = record (s.metrics) {
    docker_manifest_cache_hit = add64 s.metrics.docker_manifest_cache_hit 1;
  };
}

-- The status of an upstream registry that is not a success is passed on.
unfoldable pub upstream_failure : Libs → ℕ → Answer
upstream_failure libs status =
    error_response status (bytes "upstream returned " ++ libs.show_status status)

unfoldable pub or_default : Bytes → Option Bytes → Bytes
or_default default none = default
or_default default (some value) = value

-- The media type of a response from upstream.
unfoldable pub media_type_of : Libs → Reply → Bytes
unfolding or_default header
media_type_of libs r = or_default (bytes "application/octet-stream") (header libs r.content_type)

unfoldable pub content_digest : Libs → Reply → Option Digest
unfolding header
content_digest libs r = elim (header libs r.docker_content_digest) [
  | none ↦ none
  | some text ↦ parse text
]

abbrev pub fresh_manifest : Bytes → Bytes → ℕ → Manifest
fresh_manifest content media_type now = record {
  content = content;
  media_type = media_type;
  last_used = now;
  evicted = false;
}

module _ (libs : Libs) (client : Client) where
  -- The state of the program and of the client, and the answer.
  abbrev pub Served : Type 0
  Served = World libs client × Answer

  unfoldable pub keep_body : Digest → Bool → Bytes → State → client.Net → Option Bytes → Served
  unfolding serve_manifest
  keep_body digest head media s net none = ((s, net), refused upstream)
  keep_body digest head media s net (some body) =
      let m = fresh_manifest body media s.now in
      ((insert_manifest digest m s, net), replied (serve_manifest m head digest))

  -- The answer to a pull of a manifest, which is kept.
  unfoldable pub keep_manifest : Digest → Bool → Pulled libs client → Served
  unfolding keep_body upstream_failure media_type_of
  keep_manifest digest head (w, err e) = (w, refused e)
  keep_manifest digest head ((s, net), ok r) =
      if is_success r.status
      then keep_body digest head (media_type_of libs r) s net (read_all r.body)
      else ((s, net), upstream_failure libs r.status)

  -- What follows once the digest is known.
  unfoldable pub answer_manifest :
      Option Bytes → Bytes → Bytes → Bool → Digest → World libs client → Served
  unfolding touch_manifest keep_manifest serve_manifest
  answer_manifest accept host name head digest (s, net) = elim (lookup digest s.manifests) [
    | some m ↦ ((touch_manifest digest m s, net), replied (serve_manifest m head digest))
    | none ↦
        if ensure_self host
        then ((s, net), refused not_found)
        else keep_manifest digest head (
            upstream_pull_request libs client host name (bytes "GET")
              (bytes "manifests/" ++ display digest) accept (count_manifest_miss s, net))
  ]

  -- The digest that an upstream registry gives a tag.
  unfoldable pub resolve_tag : (Digest → World libs client → Served) → Pulled libs client → Served
  unfolding content_digest upstream_failure
  resolve_tag next (w, err e) = (w, refused e)
  resolve_tag next (w, ok r) =
      if is_success r.status
      then elim (content_digest libs r) [ none ↦ (w, refused upstream) | some d ↦ next d w ]
      else (w, upstream_failure libs r.status)

  -- The rest of `get_head_manifest`, from the `Accept` header that is sent upstream.
  unfoldable pub get_manifest_as :
      Option Bytes → Bytes → Bytes → Bytes → Bool → World libs client → Served
  unfolding answer_manifest resolve_tag
  get_manifest_as accept host name reference head (s, net) = elim (parse reference) [
    | some d ↦ answer_manifest accept host name head d (s, net)
    | none ↦
        if ensure_self host
        then elim (lookup (name, reference) s.tags) [
          | none ↦ ((s, net), refused not_found)
          | some d ↦ answer_manifest accept host name head d (s, net)
        ]
        else resolve_tag (answer_manifest accept host name head) (
            upstream_pull_request libs client host name (bytes "HEAD")
              (bytes "manifests/" ++ reference) accept (s, net))
  ]

  -- `get_head_manifest`.
  unfoldable pub get_head_manifest :
      Option Bytes → Bytes → Bytes → Bytes → Bool → World libs client → Served
  unfolding get_manifest_as
  get_head_manifest client_accept =
      get_manifest_as (some (manifest_accept (header libs client_accept)))

-- The tags after a PUT: a reference that is no digest, and always the digest itself.
unfoldable pub set_tags : Bytes → Bytes → Digest → State → State
set_tags name reference digest s =
    let tags : Map (Bytes × Bytes) Digest = elim (parse reference) [
      | none ↦ insert (name, reference) digest s.tags
      | some d ↦ s.tags
    ] in
    record s { tags = insert (name, display digest) digest tags }

unfoldable pub manifest_created : Bytes → Digest → Answer
manifest_created name digest = replied (record {
  status = 201;
  headers =
      (bytes "Location", bytes "/v2/self/" ++ name ++ bytes "/manifests/" ++ display digest)
      ∷ (bytes "Docker-Content-Digest", display digest)
      ∷ (bytes "Content-Length", bytes "0")
      ∷ [];
  body = empty;
})

module _ (libs : Libs) where
  unfoldable pub store_manifest : Bytes → Bytes → Bytes → Bytes → State → State
  unfolding set_tags
  store_manifest name reference media body s =
      set_tags name reference (libs.sha256 body)
        (insert_manifest (libs.sha256 body) (fresh_manifest body media s.now) s)

  -- `put_manifest`.
  unfoldable pub put_manifest :
      Bytes → Bytes → Bytes → Option Bytes → Option Bytes → State → State × Answer
  unfolding store_manifest manifest_created or_default
  put_manifest host name reference content_type body s =
      if ensure_self host
      then elim body [
        | none ↦ (s, refused upstream)
        | some content ↦ (
          store_manifest name reference
              (or_default (bytes "application/vnd.docker.distribution.manifest.v2+json")
                (header libs content_type))
              content s,
          manifest_created name (libs.sha256 content),
        )
      ]
      else (s, refused (method_not_allowed (bytes "PUT")))
