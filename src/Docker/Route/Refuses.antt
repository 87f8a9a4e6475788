-- ===== src/Docker/Route/Refuses.antt =====
-- Requests that src/docker.rs refuses before it looks at their path.
use dockfoxprox.Base.{
  ◌≡◌, refl, ap, ◌∙◌, arith, Bool, true, false, inl, inr, Option, none, some, List, [], ◌∷◌, ◌++◌,
  Bytes, bytes, bytes_eq, strip_prefix, All, Bool-cases,
}
use dockfoxprox.Base.Text.{eq_of_bytes_eq, strip_prefix-append}
use dockfoxprox.Docker.Text.Laws.{split_once-append}
use dockfoxprox.Config.{DockerUser}
use dockfoxprox.State.{State}
use dockfoxprox.Docker.Http.{invalid_auth, replied}
use dockfoxprox.Docker.Access.{
  ◌>>=◌, from_utf8, given_login, is_user, check_login, check_among, check_auth,
}
use dockfoxprox.Docker.Pull.{Libs, Client, World}
use dockfoxprox.Docker.Blob.{plain}
use dockfoxprox.Docker.Route.{
  Incoming, Handled, admitted, handle_request_inner, handle_request, response_to, response_of,
}

>>=-eq-some :
    {A B : Type 0} (m : Option A) (f : A → Option B) {b : B}
    → (m >>= f) ≡ some b
    → (a : A) × (m ≡ some a) × (f a ≡ some b)
>>=-eq-some none f e = absurd (cc e)
>>=-eq-some (some a) f e = (a, refl, e)

from_utf8-same : (b text : Bytes) → from_utf8 b ≡ some text → b ≡ text
from_utf8-same b text e = ground arith

-- If one of the users has a name and a password, it is none for which a property fails.
is_user-found :
    (username password : Bytes) (users : List DockerUser) (P : DockerUser → Type 0)
    → ((u : DockerUser) → u.username ≡ username → u.password ≡ password → P u)
    → All (λ u. ¬ P u) users
    → is_user username password users ≡ false
unfolding is_user
is_user-found username password [] P f h = refl
is_user-found username password (u ∷ users) P f h =
    let rest = is_user-found username password users P f h.1 in
    elim (Bool-cases (bytes_eq u.username username)) [
      | inr d ↦ rw (d, rest) refl
      | inl d ↦ elim (Bool-cases (bytes_eq u.password password)) [
        | inr e ↦ rw (d, e, rest) refl
        | inl e ↦ absurd (
            h.0 (f u (eq_of_bytes_eq u.username username d) (eq_of_bytes_eq u.password password e)))
      ]
    ]

-- A login that was read is that of no user.
abbrev Unknown : List DockerUser → Option (Bytes × Bytes) → Type 0
Unknown users none = Unit
Unknown users (some (username, password)) = is_user username password users ≡ false

module _ (to_str : Bytes → Option Bytes) (base64_decode : Bytes → Option Bytes) where
  -- The header presents a user: it is `Basic` and the coding of the name, a colon and the password.
  abbrev pub Presents : Option Bytes → DockerUser → Type 0
  Presents header user =
      (raw : Bytes) × (basic : Bytes) × (header ≡ some raw)
      × (to_str raw ≡ some (bytes "Basic " ++ basic))
      × (base64_decode basic ≡ some (user.username ++ 58 ∷ user.password))

  given_login-Presents :
      (header : Option Bytes) (user : DockerUser)
      → given_login to_str base64_decode header ≡ some (user.username, user.password)
      → Presents header user
  unfolding given_login
  given_login-Presents header user e =
      let (raw, p, e) = >>=-eq-some header _ e in
      let (auth, q, e) = >>=-eq-some (to_str raw) _ e in
      let (basic, r, e) = >>=-eq-some (strip_prefix (bytes "Basic ") auth) _ e in
      let (decoded, t, e) = >>=-eq-some (base64_decode basic) _ e in
      let (text, u, e) = >>=-eq-some (from_utf8 decoded) _ e in
      let same : decoded ≡ text = from_utf8-same decoded text u in
      (
        raw,
        basic,
        p,
        q ∙ ap some (strip_prefix-append (bytes "Basic ") auth r),
        t ∙ ap some (same ∙ split_once-append 58 text user.username user.password e),
      )

  given_login-Unknown :
      (header : Option Bytes) (users : List DockerUser)
      → All (λ u. ¬ Presents header u) users
      → Unknown users (given_login to_str base64_decode header)
  given_login-Unknown header users h = read (given_login to_str base64_decode header) refl
    where
      read :
          (login : Option (Bytes × Bytes))
          → given_login to_str base64_decode header ≡ login
          → Unknown users login
      read none e = tt
      read (some (username, password)) e =
          is_user-found username password users (Presents header)
            (λ u p q. given_login-Presents header u (e ∙ (rw (p, q) refl))) h

-- The check fails, and only the metrics differ.
abbrev Fails : State → State × Bool → Type 0
Fails s checked = (checked.1 ≡ false) × (checked.0 ≡ record s { metrics = checked.0.metrics })

check_login-Fails :
    (login : Option (Bytes × Bytes)) (s : State)
    → Unknown s.config.docker_user login
    → Fails s (check_login login s)
unfolding check_login
check_login-Fails none s e = (refl, refl)
check_login-Fails (some (username, password)) s e = rw (e, check_login) (refl, refl)

check_among-Fails :
    (users : List DockerUser) (user : DockerUser) (more : List DockerUser)
    (login : Option (Bytes × Bytes)) (s : State)
    → users ≡ user ∷ more
    → Unknown s.config.docker_user login
    → Fails s (check_among users login s)
unfolding check_among
check_among-Fails [] user more login s e h = absurd (cc)
check_among-Fails (u ∷ users) user more login s e h = check_login-Fails login s h

module _ (libs : Libs) (client : Client) where
  -- The request is refused, and only the metrics differ.
  abbrev pub IsRefused : World libs client → Handled libs client → Type 0
  IsRefused (s, net) (w, outcome) =
      (outcome ≡ plain (replied (response_to invalid_auth)))
      × (w.1 ≡ net)
      × (w.0 ≡ record s { metrics = w.0.metrics })

  respond : Handled libs client → Handled libs client
  respond (w, outcome) = (w, record outcome { answer = replied (response_of outcome.answer) })

  admitted-IsRefused :
      (req : Incoming) (s : State) (net : client.Net) (checked : State × Bool)
      → Fails s checked
      → IsRefused (s, net) (respond (admitted libs client req net checked))
  unfolding admitted respond response_of
  admitted-IsRefused req s net (t, true) f = absurd (cc f.0)
  admitted-IsRefused req s net (t, false) f = (refl, refl, f.1)

  -- If there are users, and the `Authorization` header of a request presents none of them, which it does
  -- as `Basic` and the Base64 coding of the name, a colon and the password, the request is answered with
  -- 401 and the challenge, whatever its path and method are; it changes nothing but the metrics and asks
  -- no other server.
  pub handle_request_unauthorized :
      (req : Incoming) (s : State) (net : client.Net) (user : DockerUser) (more : List DockerUser)
      → s.config.docker_user ≡ user ∷ more
      → All
          (λ u. ¬ Presents libs.to_str libs.base64_decode req.authorization u)
          s.config.docker_user
      → IsRefused (s, net) (handle_request libs client req (s, net))
  unfolding handle_request handle_request_inner check_auth respond
  handle_request_unauthorized req s net user more e h =
      admitted-IsRefused req s net (check_auth libs.to_str libs.base64_decode req.authorization s) (
        check_among-Fails s.config.docker_user user more
          (given_login libs.to_str libs.base64_decode req.authorization) s e
          (given_login-Unknown libs.to_str libs.base64_decode req.authorization s.config.docker_user
            h))
