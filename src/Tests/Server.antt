-- ===== src/Tests/Server.antt =====
-- Stand-ins for the libraries and the upstream registries of src/docker.rs, for the tests.
use dockfoxprox.Base.{
  ℕ, zero, suc, ◌++◌, true, ◌+◌, Option, none, some, [], ◌∷◌, Bytes, bytes, length,
}
use dockfoxprox.Config.{DockerUser}
use dockfoxprox.State.{State, Digest}
use dockfoxprox.Digest.{display}
use dockfoxprox.Docker.Http.{Stream}
use dockfoxprox.Docker.Pull.{Libs, Client, Reply}
use dockfoxprox.Docker.Route.{Incoming}
use dockfoxprox.Tests.Data.{start, repeat}

-- A stand-in for the hash, and names of uploads.
abbrev pub hash : Bytes → Digest
hash content = repeat 32 (length content)

abbrev pub upload_id : Bytes → Option ℕ
upload_id name = some 5

abbrev pub upload_name : ℕ → Bytes
upload_name id = bytes "five"

abbrev pub libs : Libs
libs = record {
  to_str = λ b. some b;
  show_status = λ status. bytes "status";
  base64_encode = λ b. b;
  base64_decode = λ b. some b;
  urlencode = λ b. b;
  urldecode = λ b. b;
  token_json = λ b. some (record { token = some b; access_token = none });
  sha256 = hash;
  parse_uuid = upload_id;
  show_uuid = upload_name;
}

abbrev pub body_of : Bytes → Stream
body_of content = record { chunks = content ∷ []; complete = true }

abbrev pub reply : ℕ → Option Bytes → Bytes → Reply
reply status challenge content = record {
  status = status;
  www_authenticate = challenge;
  docker_content_digest = none;
  content_type = none;
  content_length = none;
  body = body_of content;
}

-- A registry that wants a token, which its second answer is.
abbrev pub server : ℕ → Reply
server zero = reply 401 (some (bytes "Bearer realm=\"https://auth\",service=\"s\"")) []
server (suc zero) = reply 200 none (bytes "token")
server (suc (suc n)) = reply 200 none (bytes "hello")

abbrev pub upstream_client : Client
upstream_client = record { Net = ℕ; send = λ call n. (n + 1, some (server n)) }

abbrev pub get_blob : Incoming
get_blob = record {
  method = bytes "GET";
  path = bytes "/v2/ghcr.io/app/blobs/" ++ display (repeat 32 5);
  query = none;
  authorization = none;
  accept = none;
  content_type = none;
  body = some [];
  uuid = 5;
}

abbrev pub user : DockerUser
user = record { username = bytes "ann"; password = bytes "pass" }

abbrev pub with_user : State
with_user = record start { config = record (start.config) { docker_user = user ∷ [] } }
