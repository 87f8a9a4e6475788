-- ===== src/Docker/Access.antt =====
-- Who may use the registry, and which host is meant: `check_auth`, `validate_host`, `alias_host` and
-- the credentials for upstream hosts of src/docker.rs. The coding of Base64 and the reading of a
-- header as text are parameters.
use dockfoxprox.Base.{
  Bool, true, false, ◌&&◌, ◌||◌, Option, none, some, List, [], ◌∷◌, ◌++◌, Bytes, bytes, bytes_eq,
  strip_prefix, if◌then◌else◌, add64,
}
use dockfoxprox.Base.Map.{Map, lookup}
use dockfoxprox.Base.Text.{bytes_key}
use dockfoxprox.Config.{Config, DockerUser, DockerRegistry}
use dockfoxprox.State.{State}
use dockfoxprox.Redis.Text.{is_utf8}
use dockfoxprox.Docker.Http.{invalid_host, Fallible, ok, err}
use dockfoxprox.Docker.Text.{contains, split_once}

infixl 5 ◌>>=◌
abbrev pub ◌>>=◌ : {A B : Type 0} → Option A → (A → Option B) → Option B
none >>= f = none
some a >>= f = f a

-- `String::from_utf8`.
abbrev pub from_utf8 : Bytes → Option Bytes
from_utf8 b = if is_utf8 b then some b else none

module _ (to_str : Bytes → Option Bytes) (base64_decode : Bytes → Option Bytes) where
  -- The user name and the password of an `Authorization` header.
  unfoldable pub given_login : Option Bytes → Option (Bytes × Bytes)
  given_login header = do
    raw ← header
    auth ← to_str raw
    basic ← strip_prefix (bytes "Basic ") auth
    decoded ← base64_decode basic
    text ← from_utf8 decoded
    split_once 58 text

-- The loop over the configured users.
unfoldable pub is_user : Bytes → Bytes → List DockerUser → Bool
is_user username password [] = false
is_user username password (user ∷ users) =
    (bytes_eq user.username username && bytes_eq user.password password)
    || is_user username password users

abbrev pub count_failure : State → State
count_failure s = record s {
  metrics = record (s.metrics) { docker_auth_failures = add64 s.metrics.docker_auth_failures 1 };
}

-- Whether a header is good for any of the configured users, once it has been read.
unfoldable pub check_login : Option (Bytes × Bytes) → State → State × Bool
unfolding is_user
check_login none s = (s, false)
check_login (some (username, password)) s =
    if is_user username password s.config.docker_user then (s, true) else (count_failure s, false)

-- Without users nothing is checked.
unfoldable pub check_among : List DockerUser → Option (Bytes × Bytes) → State → State × Bool
unfolding check_login
check_among [] login s = (s, true)
check_among (user ∷ users) login s = check_login login s

module _ (to_str : Bytes → Option Bytes) (base64_decode : Bytes → Option Bytes) where
  -- `check_auth`: the state after it, and whether it succeeds; its only error is `InvalidAuth`.
  unfoldable pub check_auth : Option Bytes → State → State × Bool
  unfolding given_login check_among
  check_auth header s = check_among s.config.docker_user (given_login to_str base64_decode header) s

-- `validate_host`.
unfoldable pub validate_host : Bytes → Fallible {0} Unit
unfolding contains
validate_host host =
    if contains 47 host || contains 64 host || contains 32 host then err invalid_host else ok tt

-- `alias_host`.
unfoldable pub alias_host : Config → Bytes → Bytes
alias_host config host =
    if bytes_eq host (bytes "self")
    then bytes "self"
    else elim (lookup host config.docker_registry) [
      | some reg ↦ reg.url
      | none ↦
          if bytes_eq host (bytes "docker.io") || bytes_eq host (bytes "index.docker.io")
          then bytes "registry-1.docker.io"
          else host
    ]

-- `registry_for_host`, over the values in their order.
unfoldable pub registry_for_host : Bytes → Map Bytes DockerRegistry → Option DockerRegistry
registry_for_host host [] = none
registry_for_host host ((alias, reg) ∷ m) =
    let rest = registry_for_host host m in if bytes_eq reg.url host then some reg else rest

-- The credentials of a registry that has both.
unfoldable pub creds_of : DockerRegistry → Option (Bytes × Bytes)
creds_of reg = do user ← reg.username; pass ← reg.password; some (user, pass)

unfoldable pub basic_creds : Config → Bytes → Option (Bytes × Bytes)
unfolding registry_for_host creds_of
basic_creds config host = do reg ← registry_for_host host config.docker_registry; creds_of reg

-- `basic_auth_header`.
unfoldable pub basic_auth_header : (Bytes → Bytes) → Bytes → Bytes → Bytes
basic_auth_header base64_encode user pass =
    bytes "Basic " ++ base64_encode (user ++ bytes ":" ++ pass)
