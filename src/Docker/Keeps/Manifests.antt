-- ===== src/Docker/Keeps/Manifests.antt =====
-- The properties of the state that the requests for manifests keep; src/docker.rs.
use dockfoxprox.Base.{
  Bool, true, false, refl, inl, inr, Option, none, some, Bytes, bytes, Option-cases, Bool-cases,
  ◌++◌,
}
use dockfoxprox.Base.Map.{lookup}
use dockfoxprox.Base.Text.{bytes_key, pair_key}
use dockfoxprox.State.{State, Digest}
use dockfoxprox.Digest.{parse, display}
use dockfoxprox.Docker.Http.{ok, err, ensure_self}
use dockfoxprox.Docker.Pull.{
  header, Libs, Client, World, Pulled, read_all, is_success, upstream_pull_request,
}
use dockfoxprox.Docker.Manifest.{
  Served, fresh_manifest, media_type_of, content_digest, keep_body, keep_manifest, answer_manifest,
  resolve_tag, get_manifest_as, get_head_manifest, manifest_accept, set_tags, store_manifest,
  put_manifest, count_manifest_miss,
}
use dockfoxprox.Docker.Route.{
  Incoming, Place, Method, manifest_request, count_manifest_get, count_manifest_head,
  count_manifest_put,
}
use dockfoxprox.Docker.Keeps.{IsKept, pulled_kept}

module _ (libs : Libs) (client : Client) (P : State → Type 0) (k : IsKept libs P) where
  keep_body_kept :
      (d : Digest) (head : Bool) (media : Bytes) (s : State) (net : client.Net)
      (body : Option Bytes)
      → P s
      → P (keep_body libs client d head media s net body).0.0
  unfolding keep_body
  keep_body_kept d head media s net none h = h
  keep_body_kept d head media s net (some body) h = k.stored d (fresh_manifest body media s.now) s h

  keep_manifest_kept :
      (d : Digest) (head : Bool) (got : Pulled libs client)
      → P got.0.0
      → P (keep_manifest libs client d head got).0.0
  unfolding keep_manifest
  keep_manifest_kept d head (w, err e) h = h
  keep_manifest_kept d head ((s, net), ok r) h = elim (Bool-cases (is_success r.status)) [
    | inl e ↦
        rw (e, keep_manifest)
          (keep_body_kept d head (media_type_of libs r) s net (read_all r.body) h)
    | inr e ↦ rw (e, keep_manifest) h
  ]

  answer_manifest_kept :
      (accept : Option Bytes) (host name : Bytes) (head : Bool) (d : Digest) (w : World libs client)
      → P w.0
      → P (answer_manifest libs client accept host name head d w).0.0
  unfolding answer_manifest
  answer_manifest_kept accept host name head d (s, net) h =
      elim (Option-cases (lookup d s.manifests)) [
        | inr (m, e) ↦ rw (e, answer_manifest) (k.manifest_touched d m s e h)
        | inl e ↦ elim (Bool-cases (ensure_self host)) [
          | inl f ↦ rw (e, f, answer_manifest) h
          | inr f ↦
              rw (e, f, answer_manifest)
                (keep_manifest_kept d head
                  (upstream_pull_request libs client host name (bytes "GET")
                    (bytes "manifests/" ++ display d) accept (count_manifest_miss s, net))
                  (pulled_kept libs client P k host name (bytes "GET")
                    (bytes "manifests/" ++ display d) accept s (count_manifest_miss s) net refl h))
        ]
      ]

  resolve_tag_kept :
      (next : Digest → World libs client → Served libs client) (got : Pulled libs client)
      → ((d : Digest) (w : World libs client) → P w.0 → P (next d w).0.0)
      → P got.0.0
      → P (resolve_tag libs client next got).0.0
  unfolding resolve_tag
  resolve_tag_kept next (w, err e) f h = h
  resolve_tag_kept next (w, ok r) f h = elim (Bool-cases (is_success r.status)) [
    | inr e ↦ rw (e, resolve_tag) h
    | inl e ↦ elim (Option-cases (content_digest libs r)) [
      | inl g ↦ rw (e, g, resolve_tag) h
      | inr (d, g) ↦ rw (e, g, resolve_tag) (f d w h)
    ]
  ]

  get_manifest_as_kept :
      (accept : Option Bytes) (host name reference : Bytes) (head : Bool) (w : World libs client)
      → P w.0
      → P (get_manifest_as libs client accept host name reference head w).0.0
  unfolding get_manifest_as
  get_manifest_as_kept accept host name reference head (s, net) h =
      let next = answer_manifest_kept accept host name head in
      elim (Option-cases (parse reference)) [
        | inr (d, e) ↦ rw (e, get_manifest_as) (next d (s, net) h)
        | inl e ↦ elim (Bool-cases (ensure_self host)) [
          | inl f ↦ elim (Option-cases (lookup (name, reference) s.tags)) [
            | inl g ↦ rw (e, f, g, get_manifest_as) h
            | inr (d, g) ↦ rw (e, f, g, get_manifest_as) (next d (s, net) h)
          ]
          | inr f ↦
              rw (e, f, get_manifest_as)
                (resolve_tag_kept (answer_manifest libs client accept host name head)
                  (upstream_pull_request libs client host name (bytes "HEAD")
                    (bytes "manifests/" ++ reference) accept (s, net))
                  next
                  (pulled_kept libs client P k host name (bytes "HEAD")
                    (bytes "manifests/" ++ reference) accept s s net refl h))
        ]
      ]

  put_manifest_kept :
      (host name reference : Bytes) (content_type body : Option Bytes) (s : State)
      → P s
      → P (put_manifest libs host name reference content_type body s).0
  unfolding put_manifest store_manifest set_tags
  put_manifest_kept host name reference content_type body s h =
      elim (Bool-cases (ensure_self host)) [
        | inr e ↦ rw (e, put_manifest) h
        | inl e ↦ elim (Option-cases body) [
          | inl f ↦ rw (e, f, put_manifest) h
          | inr (content, f) ↦
              rw (e, f, put_manifest) (k.tagged _ _ (k.stored (libs.sha256 content) _ s h))
        ]
      ]

  pub manifest_request_kept :
      (m : Method) (p : Place) (req : Incoming) (w : World libs client)
      → P w.0
      → P (manifest_request libs client m p req w).0.0
  unfolding manifest_request get_head_manifest
  manifest_request_kept Method.by_get p req (s, net) h =
      get_manifest_as_kept (some (manifest_accept (header libs req.accept))) p.host p.name p.tail
        false (count_manifest_get s, net) (k.pulled s (count_manifest_get s) refl h)
  manifest_request_kept Method.by_head p req (s, net) h =
      get_manifest_as_kept (some (manifest_accept (header libs req.accept))) p.host p.name p.tail
        true (count_manifest_head s, net) (k.pulled s (count_manifest_head s) refl h)
  manifest_request_kept Method.by_put p req (s, net) h =
      put_manifest_kept p.host p.name p.tail req.content_type req.body (count_manifest_put s)
        (k.pulled s (count_manifest_put s) refl h)
  manifest_request_kept Method.by_post p req w h = h
  manifest_request_kept Method.by_patch p req w h = h
  manifest_request_kept Method.by_delete p req w h = h
  manifest_request_kept (Method.by_other m) p req w h = h
