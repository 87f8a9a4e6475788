-- ===== src/Docker/Http.antt =====
-- Responses, errors and headers of src/docker.rs.
use dockfoxprox.Base.{ℕ, Bool, Option, none, some, List, [], ◌∷◌, Bytes, bytes, bytes_eq}

-- A body that arrives in chunks, and whether it ends without an error of the connection.
pub record Stream : Type 0 where
  pub chunks : List Bytes
  pub complete : Bool

-- `ProxyBody`: what is there at once, or what is passed on as it arrives.
pub data Body : Type 0 where
  full : Bytes → Body
  streamed : Stream → Body

pub record Response : Type 0 where
  pub status : ℕ
  pub headers : List (Bytes × Bytes)
  pub body : Body

-- `DockerError`; the method is its name. The messages, which are only logged, are left out, and so are
-- the two errors of hyper, which no handler raises but for a response with an invalid header.
pub data DockerError : Type 0 where
  invalid_auth not_found invalid_host upstream : DockerError
  method_not_allowed : Bytes → DockerError

pub data Answer : Type 0 where
  replied : Response → Answer
  refused : DockerError → Answer

-- `empty`.
abbrev pub empty : Body
empty = full []

abbrev pub plain_text : Bytes × Bytes
plain_text = (bytes "content-type", bytes "text/plain; charset=utf-8")

-- `error_response`, before it is an `Ok`.
unfoldable pub error_reply : ℕ → Bytes → Response
error_reply status msg = record { status = status; headers = plain_text ∷ []; body = full msg }

unfoldable pub error_response : ℕ → Bytes → Answer
unfolding error_reply
error_response status msg = replied (error_reply status msg)

-- `ensure_self`.
unfoldable pub ensure_self : Bytes → Bool
ensure_self host = bytes_eq host (bytes "self")

-- The code's `Result<_, DockerError>`, with `?`.
pub data Fallible {ℓ} (A : Type ℓ) : Type ℓ where
  ok : A → Fallible A
  err : DockerError → Fallible A

infixl 5 ◌>>=◌
abbrev pub ◌>>=◌ {ℓ κ} : {A : Type ℓ} {B : Type κ} → Fallible A → (A → Fallible B) → Fallible B
ok a >>= f = f a
err e >>= f = err e

-- `ok_or`.
unfoldable pub ok_or {ℓ} : {A : Type ℓ} → DockerError → Option A → Fallible A
ok_or e none = err e
ok_or e (some a) = ok a
