-- ===== src/Docker/Route/Admits.antt =====
-- The users that src/docker.rs lets in.
use dockfoxprox.Base.{
  ℕ, ℕ_discrete, ◌≡◌, ◌≢◌, refl, arith, Bool, true, false, ◌&&◌, ◌||◌, ◌==◌, inl, inr, Option, none,
  some, List, [], ◌∷◌, ◌++◌, Bytes, bytes_eq, strip_prefix, All, Option-cases, if◌then◌else◌,
}
use dockfoxprox.Base.Lists.{Among}
use dockfoxprox.Base.Text.{bytes_eq_refl}
use dockfoxprox.Config.{DockerUser}
use dockfoxprox.State.{State}
use dockfoxprox.Redis.Text.{is_utf8}
use dockfoxprox.Docker.Text.{split_once}
use dockfoxprox.Docker.Access.{given_login, is_user, check_login, check_among, check_auth}
use dockfoxprox.Docker.Route.Refuses.{Presents}

ne_test : (a b : ℕ) → a ≢ b → (b == a) ≡ false
ne_test a b h = ground arith

split_once-head : (c : ℕ) (s : Bytes) → split_once c (c ∷ s) ≡ some ([], s)
unfolding split_once
split_once-head c s = elim (Option-cases (split_once c s)) [
  | inl e ↦ rw (split_once, e) (first c s none)
  | inr ((a, b), e) ↦ rw (split_once, e) (first c s (some (c ∷ a, b)))
]
  where
    first :
        (c : ℕ) (s : Bytes) (o : Option (Bytes × Bytes))
        → (if c == c then some ([], s) else o) ≡ some ([], s)
    first c s o = ground arith

split_once-first :
    (c : ℕ) (a b : Bytes) → All (λ d. d ≢ c) a → split_once c (a ++ c ∷ b) ≡ some (a, b)
unfolding split_once
split_once-first c [] b h = split_once-head c b
split_once-first c (d ∷ a) b h = rw (split_once, split_once-first c a b h.1, ne_test d c h.0) refl

is_user-Among :
    (user : DockerUser) (users : List DockerUser)
    → Among user users
    → is_user user.username user.password users ≡ true
unfolding is_user
is_user-Among user [] m = elim m [ ]
is_user-Among user (u ∷ users) (inl e) =
    rw (e, bytes_eq_refl u.username, bytes_eq_refl u.password) refl
is_user-Among user (u ∷ users) (inr m) =
    rw (is_user-Among user users m)
      (either (bytes_eq u.username user.username && bytes_eq u.password user.password))
  where
    either : (b : Bool) → (b || true) ≡ true
    either true = refl
    either false = refl

module _ (to_str : Bytes → Option Bytes) (base64_decode : Bytes → Option Bytes) where
  given_login-presented :
      (header : Option Bytes) (user : DockerUser)
      → Presents to_str base64_decode header user
      → All (λ c. c ≢ 58) user.username
      → is_utf8 (user.username ++ 58 ∷ user.password) ≡ true
      → given_login to_str base64_decode header ≡ some (user.username, user.password)
  unfolding given_login strip_prefix ℕ_discrete
  given_login-presented header user (raw, basic, p, q, r) colon utf8 =
      rw (p, q, r, utf8) (split_once-first 58 user.username user.password colon)

  check_among-Among :
      (users : List DockerUser) (user : DockerUser) (s : State)
      → Among user users
      → is_user user.username user.password s.config.docker_user ≡ true
      → check_among users (some (user.username, user.password)) s ≡ (s, true)
  unfolding check_among check_login
  check_among-Among [] user s m e = elim m [ ]
  check_among-Among (u ∷ users) user s m e = rw (check_login, e) refl

  -- A request whose `Authorization` header presents one of the users passes the check, which changes
  -- nothing then; if the name has no colon, and the name and the password are UTF-8.
  pub check_auth-Presents :
      (header : Option Bytes) (user : DockerUser) (s : State)
      → Among user s.config.docker_user
      → Presents to_str base64_decode header user
      → All (λ c. c ≢ 58) user.username
      → is_utf8 (user.username ++ 58 ∷ user.password) ≡ true
      → check_auth to_str base64_decode header s ≡ (s, true)
  unfolding check_auth
  check_auth-Presents header user s m p colon utf8 =
      rw (given_login-presented header user p colon utf8) (
        check_among-Among s.config.docker_user user s m (is_user-Among user s.config.docker_user m))
