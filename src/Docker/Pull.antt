-- ===== src/Docker/Pull.antt =====
-- Requests to upstream registries: `upstream_pull_request` and `fetch_token` of src/docker.rs. The HTTP
-- client is a parameter: what it answers depends on what it was asked before, which is its state.
pub mod Effects
pub mod Bounds
use dockfoxprox.Base.{
  ℕ, zero, suc, Bool, true, false, not, ◌&&◌, ◌==◌, leb, Option, none, some, List, [], ◌∷◌, ◌++◌,
  Bytes, bytes, if◌then◌else◌, add64,
}
use dockfoxprox.Base.Map.{Map, lookup, insert, remove}
use dockfoxprox.Base.Text.{pair_key}
use dockfoxprox.Metrics.{Metrics}
use dockfoxprox.State.{State, Digest}
use dockfoxprox.Docker.Http.{DockerError, upstream, Fallible, ok, err, Stream}
use dockfoxprox.Docker.Text.{contains}
use dockfoxprox.Docker.Access.{basic_creds, basic_auth_header}
use dockfoxprox.Docker.Challenge.{BearerChallenge, parse_bearer_challenge}

-- What the client is asked.
pub record Call : Type 0 where
  pub method : Bytes
  pub url : Bytes
  pub accept : Option Bytes
  pub authorization : Option Bytes

-- A response from upstream, with its headers as they came.
pub record Reply : Type 0 where
  pub status : ℕ
  pub www_authenticate : Option Bytes
  pub docker_content_digest : Option Bytes
  pub content_type : Option Bytes
  pub content_length : Option Bytes
  pub body : Stream

pub record TokenResponse : Type 0 where
  pub token : Option Bytes
  pub access_token : Option Bytes

-- The libraries that the registry server calls: hyper and reqwest (`to_str`, `show_status`), base64,
-- percent_encoding, serde_json, sha2 and uuid.
pub record Libs : Type 0 where
  pub to_str : Bytes → Option Bytes
  pub show_status : ℕ → Bytes
  pub base64_encode : Bytes → Bytes
  pub base64_decode : Bytes → Option Bytes
  pub urlencode : Bytes → Bytes
  pub urldecode : Bytes → Bytes
  pub token_json : Bytes → Option TokenResponse
  pub sha256 : Bytes → Digest
  pub parse_uuid : Bytes → Option ℕ
  pub show_uuid : ℕ → Bytes

-- The client: its state, and what it answers; `none` is a failure of the transport.
pub record Client : Type 1 where
  pub Net : Type 0
  pub send : Call → Net → Net × Option Reply

-- `StatusCode::is_success`.
abbrev pub is_success : ℕ → Bool
is_success status = leb 200 status && leb status 299

-- A header that is there and is text.
unfoldable pub header : Libs → Option Bytes → Option Bytes
header libs none = none
header libs (some raw) = libs.to_str raw

-- All bytes of a body, unless the connection breaks.
unfoldable pub concat : List Bytes → Bytes
concat [] = []
concat (c ∷ cs) = c ++ concat cs

unfoldable pub read_all : Stream → Option Bytes
unfolding concat
read_all body = if body.complete then some (concat body.chunks) else none

abbrev count : (Metrics → Metrics) → State → State
count f s = record s { metrics = f s.metrics }

abbrev pub count_request : State → State
count_request =
    count (λ m. record m { docker_upstream_requests = add64 m.docker_upstream_requests 1 })

abbrev pub count_error : State → State
count_error = count (λ m. record m { docker_upstream_errors = add64 m.docker_upstream_errors 1 })

abbrev pub keep_token : Bytes × Bytes → Bytes → State → State
keep_token key token s = record s { tokens = insert key token s.tokens }

unfoldable pub forget_token : Bool → Bytes × Bytes → State → State
forget_token true key s = record s { tokens = remove key s.tokens }
forget_token false key s = s

-- `some("service=" …)` behind a separator, which is `?` or `&`.
unfoldable pub add_query : Libs → Bytes → Option Bytes → Bytes × Bytes → Bytes × Bytes
add_query libs name none (url, sep) = (url, sep)
add_query libs name (some v) (url, sep) =
    (url ++ sep ++ name ++ bytes "=" ++ libs.urlencode v, bytes "&")

-- The URL of `fetch_token`.
unfoldable pub token_url : Libs → BearerChallenge → Bytes
unfolding add_query contains
token_url libs ch =
    let sep : Bytes = if contains 63 ch.realm then bytes "&" else bytes "?" in
    (add_query libs (bytes "scope") ch.scope
      (add_query libs (bytes "service") ch.service (ch.realm, sep))).0

-- `token.or(access_token)`.
unfoldable pub token_of : TokenResponse → Option Bytes
token_of r = elim r.token [ some t ↦ some t | none ↦ r.access_token ]

unfoldable pub read_token : Libs → Reply → Option Bytes
unfolding read_all token_of
read_token libs r =
    if is_success r.status
    then elim (read_all r.body) [
      | none ↦ none
      | some text ↦ elim (libs.token_json text) [ none ↦ none | some t ↦ token_of t ]
    ]
    else none

-- Basic credentials as a header.
unfoldable pub basic_header : Libs → Option (Bytes × Bytes) → Option Bytes
unfolding basic_auth_header
basic_header libs none = none
basic_header libs (some (user, pass)) = some (basic_auth_header libs.base64_encode user pass)

-- The header of a request: a token if there is one, else basic credentials if there are any.
unfoldable pub authorization_of : Libs → Option Bytes → Option (Bytes × Bytes) → Option Bytes
unfolding basic_header
authorization_of libs (some token) creds = some (bytes "Bearer " ++ token)
authorization_of libs none creds = basic_header libs creds

-- One pull: the URL, the key of its token, the credentials, and what is asked for.
pub record Target : Type 0 where
  pub method : Bytes
  pub url : Bytes
  pub accept : Option Bytes
  pub token_key : Bytes × Bytes
  pub creds : Option (Bytes × Bytes)

unfoldable pub target_of : State → Bytes → Bytes → Bytes → Bytes → Option Bytes → Target
target_of s host name method sub_path accept = record {
  method = method;
  url = bytes "https://" ++ host ++ bytes "/v2/" ++ name ++ bytes "/" ++ sub_path;
  accept = accept;
  token_key = (host, bytes "repository:" ++ name ++ bytes ":pull");
  creds = basic_creds s.config host;
}

unfoldable pub is_some : Option Bytes → Bool
is_some none = false
is_some (some t) = true

-- The request of an attempt.
unfoldable pub call_of : Libs → Target → Option Bytes → Call
unfolding authorization_of
call_of libs t token = record {
  method = t.method;
  url = t.url;
  accept = t.accept;
  authorization = authorization_of libs token t.creds;
}

module _ (libs : Libs) (client : Client) where
  -- The state of the program and that of the client.
  abbrev pub World : Type 0
  World = State × client.Net

  -- `fetch_token`; `none` is one of its errors, all of which are `Upstream`.
  unfoldable pub fetch_token :
      BearerChallenge → Option (Bytes × Bytes) → client.Net → client.Net × Option Bytes
  unfolding token_url read_token basic_header
  fetch_token ch creds net =
      let (net', reply) =
        client.send
          (record {
            method = bytes "GET";
            url = token_url libs ch;
            accept = none;
            authorization = basic_header libs creds;
          })
          net in
      (net', elim reply [ none ↦ none | some r ↦ read_token libs r ])

  abbrev pub Pulled : Type 0
  Pulled = World × Fallible Reply

  -- After a 401 with a bearer challenge: a fresh token is kept and the loop goes on with it.
  unfoldable pub renew :
      (Bytes → World → Pulled) → Target → State → client.Net × Option Bytes → Pulled
  renew next t s (net, none) = ((s, net), err upstream)
  renew next t s (net, some fresh) = next fresh (keep_token t.token_key fresh s, net)

  -- A response: any other status than 401 is returned, and a 401 too if there is no bearer challenge.
  unfoldable pub judge :
      (Bytes → World → Pulled) → Target → Bool → Reply → State → client.Net → Pulled
  unfolding renew forget_token fetch_token
  judge next t had_cached r s net =
      if not (r.status == 401)
      then ((s, net), ok r)
      else let s' = forget_token had_cached t.token_key s in
        elim (header libs r.www_authenticate) [
          | none ↦ ((s', net), ok r)
          | some www ↦ elim (parse_bearer_challenge www) [
            | none ↦ ((s', net), ok r)
            | some ch ↦ renew next t s' (fetch_token ch t.creds net)
          ]
        ]

  unfoldable pub after_send :
      (Bytes → World → Pulled) → Target → Bool → State → client.Net × Option Reply → Pulled
  unfolding judge
  after_send next t had_cached s (net, none) = ((count_error s, net), err upstream)
  after_send next t had_cached s (net, some r) = judge next t had_cached r s net

  -- The loop over the attempts, of which so many are left.
  unfoldable pub attempts : ℕ → Target → Option Bytes → Bool → World → Pulled
  unfolding after_send call_of
  attempts zero t token had_cached w = (w, err upstream)
  attempts (suc left) t token had_cached (s, net) =
      after_send (λ fresh. attempts left t (some fresh) false) t had_cached (count_request s)
        (client.send (call_of libs t token) net)

  -- `upstream_pull_request`.
  unfoldable pub upstream_pull_request :
      Bytes → Bytes → Bytes → Bytes → Option Bytes → World → Pulled
  unfolding target_of attempts is_some
  upstream_pull_request host name method sub_path accept (s, net) =
      let t = target_of s host name method sub_path accept in
      let token = lookup t.token_key s.tokens in attempts 3 t token (is_some token) (s, net)
