-- ===== src/Tests/Registry.antt =====
-- The theorems on src/docker.rs at concrete inputs.
use dockfoxprox.Base.{
  ◌≤◌, ◌≡◌, ◌↔◌, refl, ap, ◌∙◌, ◌++◌, inl, arith, none, some, Option, Bytes, Bool, true, false,
  List, [], ◌∷◌, bytes,
}
use dockfoxprox.Base.Lists.{Among}
use dockfoxprox.Base.Text.{bytes_eq}
use dockfoxprox.Digest.{display}
use dockfoxprox.State.Measure.{IsAccounted}
use dockfoxprox.Eviction.Json.{referenced_digests, object, field, string, end}
use dockfoxprox.Eviction.Json.Occurs.{Refers, referenced_digests_iff}
use dockfoxprox.Docker.Challenge.{BearerChallenge, parse_bearer_challenge}
use dockfoxprox.Docker.Challenge.RoundTrip.{show_challenge, parse_bearer_challenge-show_challenge}
use dockfoxprox.Docker.Pull.{upstream_pull_request}
use dockfoxprox.Docker.Pull.Effects.{KeepsCaches, upstream_pull_request-KeepsCaches}
use dockfoxprox.Docker.Pull.Bounds.{
  counted, IsFinal, upstream_pull_request-calls_bounded, upstream_pull_request-IsFinal,
}
use dockfoxprox.Docker.Blob.{Fill}
use dockfoxprox.Docker.Upload.{Request, post, patch, put, delete, handle_uploads}
use dockfoxprox.Docker.Upload.Addressed.{IsAddressed, handle_uploads-IsAddressed}
use dockfoxprox.Docker.Route.{Incoming, handle_request}
use dockfoxprox.Docker.Route.Refuses.{IsRefused, handle_request_unauthorized, Presents}
use dockfoxprox.Docker.Route.Admits.{check_auth-Presents}
use dockfoxprox.Docker.Access.{check_auth}
use dockfoxprox.Redis.Text.{is_utf8}
use dockfoxprox.Docker.Keeps.Accounted.{handle_request-IsAccounted}
use dockfoxprox.System.Steps.{still, onward, requested, ticked, Steps-new-IsAddressed}
use dockfoxprox.Tests.Data.{start, start-IsAccounted, repeat, config, json, index_content, layer}
use dockfoxprox.Tests.Server.{
  hash, upload_id, upload_name, libs, body_of, upstream_client, get_blob, user, with_user,
}

abbrev requests : List Request
requests =
    post (bytes "self") (bytes "app") 5 none none
    ∷ patch (bytes "self") (bytes "app") (bytes "five") (some (bytes "hello"))
    ∷ put (bytes "self") (bytes "app") (bytes "five") (some (display (repeat 32 9))) (some [])
    ∷ put (bytes "self") (bytes "app") (bytes "five") (some (display (repeat 32 5))) (some [])
    ∷ delete (bytes "self") (bytes "five")
    ∷ []

handle_uploads_example : IsAddressed hash (handle_uploads hash upload_id upload_name requests start)
handle_uploads_example =
    handle_uploads-IsAddressed hash upload_id upload_name requests start
      (record { blobs = tt; uploads = tt })

handle_request-IsAccounted_example :
    IsAccounted (handle_request libs upstream_client get_blob (start, 0)).0.0
handle_request-IsAccounted_example =
    handle_request-IsAccounted libs upstream_client get_blob (start, 0) start-IsAccounted

steps_example :
    IsAddressed hash
      (record (handle_request libs upstream_client get_blob (start, 0)).0.0 { now = 7 })
steps_example = Steps-new-IsAddressed libs upstream_client json config 1000000 [] 0 _ (
    onward _ _ _ (requested get_blob (start, 0) []) (
      onward _ _ _
        (ticked 7 (handle_request libs upstream_client get_blob (start, 0)).0.0
          (handle_request libs upstream_client get_blob (start, 0)).0.1 _)
        (still _)))

abbrev fill : Fill
fill = record {
  digest = repeat 32 5;
  media_type = bytes "text/plain";
  body = body_of (bytes "hello");
}

-- The name of the user with another password.
abbrev wrong_password : Incoming
wrong_password = record get_blob { authorization = some (bytes "Basic ann:word") }

not_presented : ¬ Presents libs.to_str libs.base64_decode wrong_password.authorization user
unfolding bytes_eq
not_presented (raw, basic, p, q, t) =
    let same : basic ≡ bytes "ann:pass" = cc t in
    let word = bytes "Basic ann:word" in
    let is_word : Option Bytes → Bool = λ o. elim o [ none ↦ false | some x ↦ bytes_eq x word ] in
    let differ : true ≡ false = ap is_word (p ∙ q ∙ ap (λ x. some (bytes "Basic " ++ x)) same) in
    cc differ

unauthorized_example :
    IsRefused libs upstream_client
      (with_user, 0)
      (handle_request libs upstream_client wrong_password (with_user, 0))
unauthorized_example =
    handle_request_unauthorized libs upstream_client wrong_password with_user 0 user [] refl
      (not_presented, tt)

admitted_example :
    check_auth libs.to_str libs.base64_decode (some (bytes "Basic ann:pass")) with_user
    ≡ (with_user, true)
unfolding is_utf8
admitted_example =
    check_auth-Presents libs.to_str libs.base64_decode (some (bytes "Basic ann:pass")) user
      with_user (inl refl) (bytes "Basic ann:pass", bytes "ann:pass", refl, refl, refl)
      (omega arith, (omega arith, (omega arith, tt))) refl

calls_example :
    (upstream_pull_request libs
      (counted upstream_client)
      (bytes "ghcr.io")
      (bytes "app")
      (bytes "GET")
      (bytes "manifests/latest")
      none
      (start, (0, 0))).0.1.0
    ≤ 6
calls_example =
    upstream_pull_request-calls_bounded libs upstream_client (bytes "ghcr.io") (bytes "app")
      (bytes "GET") (bytes "manifests/latest") none (start, (0, 0))

settled_example :
    IsFinal libs upstream_client
      (upstream_pull_request libs upstream_client
        (bytes "ghcr.io")
        (bytes "app")
        (bytes "GET")
        (bytes "manifests/latest")
        none
        (start, 0)).1
settled_example =
    upstream_pull_request-IsFinal libs upstream_client (bytes "ghcr.io") (bytes "app") (bytes "GET")
      (bytes "manifests/latest") none (start, 0)

keeps_example :
    KeepsCaches start
      (upstream_pull_request libs upstream_client
        (bytes "ghcr.io")
        (bytes "app")
        (bytes "GET")
        (bytes "manifests/latest")
        none
        (start, 0)).0.0
keeps_example =
    upstream_pull_request-KeepsCaches libs upstream_client (bytes "ghcr.io") (bytes "app")
      (bytes "GET") (bytes "manifests/latest") none (start, 0)

abbrev challenge : BearerChallenge
challenge = record { realm = bytes "https://a"; service = some (bytes "s"); scope = none }

challenge_example : parse_bearer_challenge (show_challenge challenge) ≡ some challenge
challenge_example = parse_bearer_challenge-show_challenge challenge (ground arith) (ground arith) tt

referenced_example :
    Among layer (referenced_digests json index_content)
    ↔ Refers layer (object (field (bytes "digest") (string (display layer)) end))
unfolding bytes_eq
referenced_example =
    referenced_digests_iff layer json index_content
      (object (field (bytes "digest") (string (display layer)) end)) refl
