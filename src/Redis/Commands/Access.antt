-- ===== src/Redis/Commands/Access.antt =====
-- Who may do what over the Redis protocol, and what the commands on keys mean: `handle_conn`,
-- src/redis.rs.
use dockfoxprox.Base.{
  ℕ, ◌≡◌, refl, ap, ◌∙◌, arith, true, false, none, some, List, [], ◌∷◌, Bytes, ◌⊎◌, inl, inr,
  bytes_eq, Option-cases, Bool-cases,
}
use dockfoxprox.Base.Lists.{Among}
use dockfoxprox.Base.Map.{
  lookup, remove, Unique, lookup-insert_self, lookup-remove_self, lookup-remove_ne, remove-Unique,
}
use dockfoxprox.Base.Text.{bytes_key, Bytes-discrete, eq_of_bytes_eq}
use dockfoxprox.State.{State, RedisEntry, insert_redis, remove_redis}
use dockfoxprox.Redis.Resp.{write_bulk, write_nil}
use dockfoxprox.Redis.Commands.{
  Verb, verb_of, command_name, run_command, dispatch, run_auth, given_password, execute, run_get,
  run_set, run_del, get_key, remove_keys, ping, quit, hello, command, auth, get, set, del,
}
use dockfoxprox.Redis.Commands.Laws.{run_auth_state}

dispatch_unauthenticated :
    (verb : Verb) (args : List Bytes) (s : State)
    → (dispatch verb args false s).state
      ≡ record s { metrics = (dispatch verb args false s).state.metrics }
unfolding dispatch
dispatch_unauthenticated ping args s = refl
dispatch_unauthenticated quit args s = refl
dispatch_unauthenticated hello args s = refl
dispatch_unauthenticated command args s = refl
dispatch_unauthenticated auth args s = run_auth_state args false s
dispatch_unauthenticated verb args s = refl

-- A client that is not authenticated changes nothing but the metrics, whatever it sends.
pub run_command_unauthenticated :
    (args : List Bytes) (s : State)
    → (run_command args false s).state
      ≡ record s { metrics = (run_command args false s).state.metrics }
unfolding run_command
run_command_unauthenticated [] s = refl
run_command_unauthenticated (name ∷ args) s =
    dispatch_unauthenticated (verb_of (command_name name)) args _

-- The password that a client has to give was given.
abbrev pub Admitted : List Bytes → State → Type 0
Admitted args s = (p : Bytes) × (s.config.redis_password ≡ some p) × (given_password args ≡ some p)

run_auth-Admitted :
    (args : List Bytes) (s : State) → (run_auth args false s).authed ≡ true → Admitted args s
unfolding run_auth
run_auth-Admitted args s h = elim (Option-cases (given_password args)) [
  | inl e ↦ absurd (ground arith)
  | inr (given, e) ↦ elim (Option-cases s.config.redis_password) [
    | inl f ↦ absurd (ground arith)
    | inr (p, f) ↦ elim (Bool-cases (bytes_eq given p)) [
      | inl g ↦ (p, f, e ∙ ap some (eq_of_bytes_eq given p g))
      | inr g ↦ absurd (ground arith)
    ]
  ]
]

dispatch-Admitted :
    (verb : Verb) (args : List Bytes) (s : State)
    → (dispatch verb args false s).authed ≡ true
    → (verb ≡ auth) × Admitted args s
unfolding dispatch
dispatch-Admitted ping args s h = absurd (cc)
dispatch-Admitted quit args s h = absurd (cc)
dispatch-Admitted hello args s h = absurd (cc)
dispatch-Admitted command args s h = absurd (cc)
dispatch-Admitted auth args s h = (refl, run_auth-Admitted args s h)
dispatch-Admitted verb args s h = absurd (cc)

-- A client becomes authenticated by nothing but an AUTH with the configured password.
pub run_command-Admitted :
    (name : Bytes) (args : List Bytes) (s : State)
    → (run_command (name ∷ args) false s).authed ≡ true
    → (verb_of (command_name name) ≡ auth) × Admitted args s
unfolding run_command
run_command-Admitted name args s h = dispatch-Admitted (verb_of (command_name name)) args _ h

-- A GET after a SET of the same key replies with the value, whatever the cache held before.
pub get-set :
    (key value : Bytes) (options : List Bytes) (s : State)
    → (execute get (key ∷ []) (execute set (key ∷ value ∷ options) s).0).1 ≡ write_bulk value
unfolding execute run_get run_set get_key insert_redis
get-set key value options s =
    rw
      (lookup-insert_self key (RedisEntry.in_memory value s.next_id s.now) s.redis_entries, get_key)
      refl

remove_redis-none :
    (k : Bytes) (s : State) → lookup k s.redis_entries ≡ none → remove_redis k s ≡ (s, false)
unfolding remove_redis
remove_redis-none k s e = rw (e, remove_redis) refl

remove_redis-Unique :
    (j : Bytes) (s : State) → Unique s.redis_entries → Unique (remove_redis j s).0.redis_entries
unfolding remove_redis
remove_redis-Unique j s u = elim (Option-cases (lookup j s.redis_entries)) [
  | inl e ↦ rw (e, remove_redis) u
  | inr (v, e) ↦ rw (e, remove_redis) (remove-Unique j s.redis_entries u)
]

-- A key that is removed, or was not there, is not there after a removal.
lookup-remove_redis :
    (k j : Bytes) (s : State)
    → Unique s.redis_entries
    → (k ≡ j) ⊎ (lookup k s.redis_entries ≡ none)
    → lookup k (remove_redis j s).0.redis_entries ≡ none
unfolding remove_redis
lookup-remove_redis k j s u h = elim (Option-cases (lookup j s.redis_entries)) [
  | inl e ↦
      rw (e, remove_redis)
        (elim h [ inl same ↦ ap (λ x. lookup x s.redis_entries) same ∙ e | inr there ↦ there ])
  | inr (v, e) ↦
      rw (e, remove_redis)
        (elim (Bytes-discrete k j) [
          | yes p ↦
              ap (λ x. lookup x (remove j s.redis_entries)) p
              ∙ lookup-remove_self j s.redis_entries u
          | no p ↦
              lookup-remove_ne k j s.redis_entries p
              ∙ elim h [ inl same ↦ absurd (p same) | inr there ↦ there ]
        ])
]

-- The keys that are removed are gone, and none comes back.
remove_keys_absent :
    (k : Bytes) (ks : List Bytes) (n : ℕ) (s : State)
    → Unique s.redis_entries
    → Among k ks ⊎ (lookup k s.redis_entries ≡ none)
    → lookup k (remove_keys ks n s).0.redis_entries ≡ none
unfolding remove_keys
remove_keys_absent k [] n s u (inr e) = e
remove_keys_absent k [] n s u (inl m) = absurd m
remove_keys_absent k (j ∷ ks) n s u (inl (inl same)) =
    remove_keys_absent k ks _ (remove_redis j s).0 (remove_redis-Unique j s u)
      (inr (lookup-remove_redis k j s u (inl same)))
remove_keys_absent k (j ∷ ks) n s u (inl (inr later)) =
    remove_keys_absent k ks _ (remove_redis j s).0 (remove_redis-Unique j s u) (inl later)
remove_keys_absent k (j ∷ ks) n s u (inr e) =
    remove_keys_absent k ks _ (remove_redis j s).0 (remove_redis-Unique j s u)
      (inr (lookup-remove_redis k j s u (inr e)))

-- A GET after a DEL that names the key replies with nil, in every cache with one entry a key.
pub get-del :
    (key : Bytes) (keys : List Bytes) (s : State)
    → Unique s.redis_entries
    → Among key keys
    → (execute get (key ∷ []) (execute del keys s).0).1 ≡ write_nil
unfolding execute run_get run_del get_key
get-del key keys s u m = rw (remove_keys_absent key keys 0 s u (inl m), get_key) refl
