-- ===== src/System/Commands.antt =====
-- The commands of src/redis.rs leave the blobs and the uploads alone.
use dockfoxprox.Base.{
  ℕ, ◌≡◌, inl, inr, refl, ap, ◌∙◌, Option-cases, Bool, true, false, Option, none, some, List, [],
  ◌∷◌, Bytes, if◌then◌else◌,
}
use dockfoxprox.Base.Map.{lookup}
use dockfoxprox.Base.Text.{bytes_key, nat_key}
use dockfoxprox.State.{State, RedisEntry, insert_redis, flush_redis}
use dockfoxprox.Redis.Commands.{
  Verb, ping, quit, hello, command, auth, get, set, del, flush, touch_redis, get_disk, get_key,
  run_get, run_set, remove_keys, run_del, execute, dispatch, run_command, reply, verb_of,
  command_name,
}
use dockfoxprox.Redis.Commands.Laws.{run_auth_state}
use dockfoxprox.System.Blobs.{KeepsBlobs, remove_redis-KeepsBlobs}

remove_keys-KeepsBlobs :
    (ks : List Bytes) (n : ℕ) (s t : State) → KeepsBlobs s t → KeepsBlobs s (remove_keys ks n t).0
unfolding remove_keys
remove_keys-KeepsBlobs [] n s t h = h
remove_keys-KeepsBlobs (k ∷ ks) n s t h =
    let one = remove_redis-KeepsBlobs k t in
    remove_keys-KeepsBlobs ks _ s _ (one.0 ∙ h.0, one.1 ∙ h.1)

get_disk-KeepsBlobs : (k : Bytes) (id : ℕ) (s : State) → KeepsBlobs s (get_disk k id s).0
unfolding get_disk insert_redis
get_disk-KeepsBlobs k id s = elim (Option-cases (lookup id s.disk)) [
  | inl e ↦ rw (e, get_disk) (remove_redis-KeepsBlobs k s)
  | inr (v, e) ↦ rw (e, get_disk) (refl, refl)
]

get_key-KeepsBlobs : (k : Bytes) (s : State) → KeepsBlobs s (get_key k s).0
unfolding get_key touch_redis get_disk insert_redis
get_key-KeepsBlobs k s = found (lookup k s.redis_entries) refl
  where
    found : (o : Option RedisEntry) → lookup k s.redis_entries ≡ o → KeepsBlobs s (get_key k s).0
    found none e = rw (e, get_key) (refl, refl)
    found (some (RedisEntry.in_memory v id t)) e = rw (e, get_key) (refl, refl)
    found (some (RedisEntry.on_disk size id t)) e = rw (e, get_key) (get_disk-KeepsBlobs k id s)

execute-KeepsBlobs :
    (verb : Verb) (args : List Bytes) (s : State) → KeepsBlobs s (execute verb args s).0
unfolding execute run_get run_set run_del insert_redis flush_redis
execute-KeepsBlobs get (k ∷ []) s = get_key-KeepsBlobs k s
execute-KeepsBlobs set (k ∷ v ∷ args) s = (refl, refl)
execute-KeepsBlobs del args s = remove_keys-KeepsBlobs args 0 s s (refl, refl)
execute-KeepsBlobs flush args s = (refl, refl)
execute-KeepsBlobs verb args s = (refl, refl)

guarded-KeepsBlobs :
    (authed : Bool) (s : State) (r : State × Bytes) (refused : Bytes)
    → KeepsBlobs s r.0
    → KeepsBlobs s (if authed then reply true r else reply false (s, refused)).state
guarded-KeepsBlobs true s r refused h = h
guarded-KeepsBlobs false s r refused h = (refl, refl)

dispatch-KeepsBlobs :
    (verb : Verb) (args : List Bytes) (authed : Bool) (s : State)
    → KeepsBlobs s (dispatch verb args authed s).state
unfolding dispatch
dispatch-KeepsBlobs ping args authed s = (refl, refl)
dispatch-KeepsBlobs quit args authed s = (refl, refl)
dispatch-KeepsBlobs hello args authed s = (refl, refl)
dispatch-KeepsBlobs command args authed s = (refl, refl)
dispatch-KeepsBlobs auth args authed s =
    let e = run_auth_state args authed s in (ap (λ t. t.blobs) e, ap (λ t. t.uploads) e)
dispatch-KeepsBlobs verb args authed s =
    guarded-KeepsBlobs authed s _ _ (execute-KeepsBlobs _ args s)

pub run_command-KeepsBlobs :
    (args : List Bytes) (authed : Bool) (s : State) → KeepsBlobs s (run_command args authed s).state
unfolding run_command
run_command-KeepsBlobs [] authed s = (refl, refl)
run_command-KeepsBlobs (name ∷ args) authed s =
    dispatch-KeepsBlobs (verb_of (command_name name)) args authed _
