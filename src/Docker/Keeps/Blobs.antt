-- ===== src/Docker/Keeps/Blobs.antt =====
-- The properties of the state that the reading of blobs keeps; src/docker.rs.
use dockfoxprox.Base.{
  Bool, true, false, ◌≡◌, refl, inl, inr, none, some, Bytes, bytes, Option-cases, Bool-cases, ◌++◌,
}
use dockfoxprox.Base.Map.{lookup}
use dockfoxprox.Base.Text.{bytes_key, pair_key}
use dockfoxprox.State.{State, Digest, Blob}
use dockfoxprox.Digest.{parse, display}
use dockfoxprox.Docker.Http.{ok, err, ensure_self}
use dockfoxprox.Docker.Pull.{Libs, Client, World, Pulled, upstream_pull_request}
use dockfoxprox.Docker.Blob.{
  serve_hit, pass_pulled, pull_blob, answer_blob, get_head_blob, count_blob_miss, verb,
}
use dockfoxprox.Docker.Route.{
  Incoming, Place, Method, blob_request, count_blob_get, count_blob_head,
}
use dockfoxprox.Docker.Keeps.{IsKept, pulled_kept}

module _ (libs : Libs) (client : Client) (P : State → Type 0) (k : IsKept libs P) where
  serve_hit_kept :
      (d : Digest) (head : Bool) (b : Blob) (s : State)
      → lookup d s.blobs ≡ some b
      → P s
      → P (serve_hit d head b s).0
  unfolding serve_hit
  serve_hit_kept d head (Blob.in_memory id content media t) s e h =
      k.pulled _ (serve_hit d head (Blob.in_memory id content media t) s).0 refl
        (k.blob_touched d (Blob.in_memory id content media t) s e h)
  serve_hit_kept d head (Blob.on_disk id size media t) s e h =
      k.pulled _ (serve_hit d head (Blob.on_disk id size media t) s).0 refl
        (k.blob_touched d (Blob.on_disk id size media t) s e h)

  pass_pulled_kept :
      (d : Digest) (head : Bool) (got : Pulled libs client)
      → P got.0.0
      → P (pass_pulled libs client d head got).0.0
  unfolding pass_pulled
  pass_pulled_kept d head (w, err e) h = h
  pass_pulled_kept d head (w, ok r) h = h

  answer_blob_kept :
      (host name : Bytes) (d : Digest) (head : Bool) (w : World libs client)
      → P w.0
      → P (answer_blob libs client host name d head w).0.0
  unfolding answer_blob pull_blob
  answer_blob_kept host name d head (s, net) h = elim (Option-cases (lookup d s.blobs)) [
    | inr (b, e) ↦ rw (e, answer_blob) (serve_hit_kept d head b s e h)
    | inl e ↦ elim (Bool-cases (ensure_self host)) [
      | inl f ↦ rw (e, f, answer_blob) h
      | inr f ↦
          rw (e, f, answer_blob)
            (pass_pulled_kept d head
              (upstream_pull_request libs client host name (verb libs client head)
                (bytes "blobs/" ++ display d) none (count_blob_miss s, net))
              (pulled_kept libs client P k host name (verb libs client head)
                (bytes "blobs/" ++ display d) none s (count_blob_miss s) net refl h))
    ]
  ]

  get_head_blob_kept :
      (host name text : Bytes) (head : Bool) (w : World libs client)
      → P w.0
      → P (get_head_blob libs client host name text head w).0.0
  unfolding get_head_blob
  get_head_blob_kept host name text head w h = elim (Option-cases (parse text)) [
    | inl e ↦ rw (e, get_head_blob) h
    | inr (d, e) ↦ rw (e, get_head_blob) (answer_blob_kept host name d head w h)
  ]

  pub blob_request_kept :
      (m : Method) (p : Place) (req : Incoming) (w : World libs client)
      → P w.0
      → P (blob_request libs client m p req w).0.0
  unfolding blob_request
  blob_request_kept Method.by_get p req (s, net) h =
      get_head_blob_kept p.host p.name p.tail false (count_blob_get s, net)
        (k.pulled s (count_blob_get s) refl h)
  blob_request_kept Method.by_head p req (s, net) h =
      get_head_blob_kept p.host p.name p.tail true (count_blob_head s, net)
        (k.pulled s (count_blob_head s) refl h)
  blob_request_kept Method.by_put p req w h = h
  blob_request_kept Method.by_post p req w h = h
  blob_request_kept Method.by_patch p req w h = h
  blob_request_kept Method.by_delete p req w h = h
  blob_request_kept (Method.by_other m) p req w h = h
