-- ===== src/Docker/Blob.antt =====
-- The reading of blobs in src/docker.rs: `get_head_blob`, `serve_blob_bytes`, `serve_disk_blob` and the
-- task of `spawn_blob_fill`, which runs when the response is on its way. The file behind a blob is one
-- chunk of a body; what is left of the channel between a task and a client is the body's stream.
pub mod Serves
use dockfoxprox.Base.{
  ℕ, Bool, true, false, Option, none, some, List, [], ◌∷◌, ◌++◌, Bytes, bytes, bytes_eq, length,
  if◌then◌else◌, add64,
}
use dockfoxprox.Base.Map.{Map, lookup, insert}
use dockfoxprox.Base.Text.{bytes_key, nat_key}
use dockfoxprox.Metrics.{Metrics}
use dockfoxprox.State.{State, Digest, Blob, insert_blob}
use dockfoxprox.Digest.{parse, display}
use dockfoxprox.Redis.Text.{decimal, parse_usize}
use dockfoxprox.Docker.Http.{
  Stream, Body, Response, DockerError, not_found, Fallible, ok, err, Answer, replied, refused,
  error_response, ensure_self, empty, full, streamed,
}
use dockfoxprox.Docker.Pull.{
  Libs, Client, Reply, World, Pulled, header, concat, is_success, upstream_pull_request,
}
use dockfoxprox.Docker.Manifest.{upstream_failure, or_default, media_type_of}

abbrev count : (Metrics → Metrics) → State → State
count f s = record s { metrics = f s.metrics }

abbrev pub count_hit_memory : State → State
count_hit_memory =
    count (λ m. record m { docker_blob_cache_hit_memory = add64 m.docker_blob_cache_hit_memory 1 })

abbrev pub count_hit_disk : State → State
count_hit_disk =
    count (λ m. record m { docker_blob_cache_hit_disk = add64 m.docker_blob_cache_hit_disk 1 })

abbrev pub count_blob_miss : State → State
count_blob_miss =
    count (λ m. record m { docker_blob_cache_miss = add64 m.docker_blob_cache_miss 1 })

unfoldable pub accessed_at : ℕ → Blob → Blob
accessed_at now (Blob.in_memory id content media t) = Blob.in_memory id content media now
accessed_at now (Blob.on_disk id size media t) = Blob.on_disk id size media now

-- What a hit stores through the entry.
unfoldable pub touch_blob : Digest → Blob → State → State
unfolding accessed_at
touch_blob digest blob s = record s { blobs = insert digest (accessed_at s.now blob) s.blobs }

abbrev pub blob_headers : Bytes → Digest → Bytes → List (Bytes × Bytes)
blob_headers media digest len =
    (bytes "content-type", media)
    ∷ (bytes "docker-content-digest", display digest)
    ∷ (bytes "content-length", len)
    ∷ []

-- `serve_blob_bytes`.
unfoldable pub serve_blob_bytes : Bytes → Bytes → Digest → Bool → Response
serve_blob_bytes content media digest head = record {
  status = 200;
  headers = blob_headers media digest (decimal (length content));
  body = if head then empty else full content;
}

abbrev pub whole_file : Bytes → Stream
whole_file file = record { chunks = file ∷ []; complete = true }

-- `serve_disk_blob`.
unfoldable pub serve_disk_blob : Digest → ℕ → ℕ → Bytes → Bool → State → Answer
serve_disk_blob digest id size media true s =
    replied
      (record { status = 200; headers = blob_headers media digest (decimal size); body = empty })
serve_disk_blob digest id size media false s = elim (lookup id s.disk) [
  | none ↦ error_response 500 (bytes "blob unavailable")
  | some file ↦ replied (record {
    status = 200;
    headers = blob_headers media digest (decimal size);
    body = streamed (whole_file file);
  })
]

-- What the task of `spawn_blob_fill` is given.
pub record Fill : Type 0 where
  pub digest : Digest
  pub media_type : Bytes
  pub body : Stream

unfoldable pub run_fill : (Bytes → Digest) → Fill → State → State
unfolding concat
run_fill sha256 fill s =
    if fill.body.complete
    then if bytes_eq (sha256 (concat fill.body.chunks)) fill.digest
      then insert_blob fill.digest
          (Blob.in_memory s.next_id (concat fill.body.chunks) fill.media_type s.now)
          (record s { next_id = add64 s.next_id 1 })
      else s
    else s

-- An answer, and the task that is spawned with it, if any.
pub record Outcome : Type 0 where
  pub answer : Answer
  pub fill : Option Fill

abbrev pub plain : Answer → Outcome
plain answer = record { answer = answer; fill = none }

unfoldable pub serve_hit : Digest → Bool → Blob → State → State × Outcome
unfolding touch_blob serve_blob_bytes serve_disk_blob
serve_hit digest head (Blob.in_memory id content media t) s = (
  count_hit_memory (touch_blob digest (Blob.in_memory id content media t) s),
  plain (replied (serve_blob_bytes content media digest head)),
)
serve_hit digest head (Blob.on_disk id size media t) s = (
  count_hit_disk (touch_blob digest (Blob.on_disk id size media t) s),
  plain (serve_disk_blob digest id size media head s),
)

unfoldable pub length_header : Option ℕ → List (Bytes × Bytes)
length_header none = []
length_header (some len) = (bytes "content-length", decimal len) ∷ []

module _ (libs : Libs) where
  -- The length of a response from upstream, if it is a number.
  unfoldable pub content_length_of : Reply → Option ℕ
  unfolding header
  content_length_of r = elim (header libs r.content_length) [
    | none ↦ none
    | some text ↦ parse_usize text
  ]

  -- The answer to a HEAD that upstream answered.
  unfoldable pub pass_head : Digest → Reply → Answer
  unfolding media_type_of or_default header
  pass_head digest r = replied (record {
    status = 200;
    headers =
        blob_headers (media_type_of libs r) digest
          (or_default (bytes "0") (header libs r.content_length));
    body = empty;
  })

  -- The answer to a GET that upstream answered, and the task that fills the cache.
  unfoldable pub pass_body : Digest → Reply → Outcome
  unfolding media_type_of length_header content_length_of
  pass_body digest r = record {
    answer = replied (record {
      status = 200;
      headers =
          (bytes "content-type", media_type_of libs r)
          ∷ (bytes "docker-content-digest", display digest)
          ∷ length_header (content_length_of r);
      body = streamed r.body;
    });
    fill = some (record { digest = digest; media_type = media_type_of libs r; body = r.body });
  }

  -- What upstream answered to a pull of a blob.
  unfoldable pub pass_reply : Digest → Bool → Reply → Outcome
  unfolding pass_head pass_body upstream_failure
  pass_reply digest head r =
      if is_success r.status
      then if head then plain (pass_head digest r) else pass_body digest r
      else plain (upstream_failure libs r.status)

module _ (libs : Libs) (client : Client) where
  unfoldable pub pass_pulled : Digest → Bool → Pulled libs client → World libs client × Outcome
  unfolding pass_reply
  pass_pulled digest head (w, err e) = (w, plain (refused e))
  pass_pulled digest head (w, ok r) = (w, pass_reply libs digest head r)

  abbrev pub verb : Bool → Bytes
  verb head = if head then bytes "HEAD" else bytes "GET"

  -- A miss, of a registry that is not `self`.
  unfoldable pub pull_blob :
      Bytes → Bytes → Digest → Bool → World libs client → World libs client × Outcome
  unfolding pass_pulled
  pull_blob host name digest head (s, net) = pass_pulled digest head (
      upstream_pull_request libs client host name (verb head) (bytes "blobs/" ++ display digest)
        none (count_blob_miss s, net))

  unfoldable pub answer_blob :
      Bytes → Bytes → Digest → Bool → World libs client → World libs client × Outcome
  unfolding serve_hit pull_blob
  answer_blob host name digest head (s, net) = elim (lookup digest s.blobs) [
    | some blob ↦ let (s', outcome) = serve_hit digest head blob s in ((s', net), outcome)
    | none ↦
        if ensure_self host
        then ((s, net), plain (refused not_found))
        else pull_blob host name digest head (s, net)
  ]

  -- `get_head_blob`.
  unfoldable pub get_head_blob :
      Bytes → Bytes → Bytes → Bool → World libs client → World libs client × Outcome
  unfolding answer_blob
  get_head_blob host name text head w = elim (parse text) [
    | none ↦ (w, plain (error_response 400 (bytes "invalid digest")))
    | some digest ↦ answer_blob host name digest head w
  ]
