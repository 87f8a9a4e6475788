-- ===== src/Redis/Commands/Laws.antt =====
-- The usage counters under the commands of src/redis.rs.
use dockfoxprox.Base.{
  ℕ, ◌≡◌, refl, Bool, true, false, arith, Option, none, some, List, [], ◌∷◌, Bytes, inl, inr,
  Option-cases, ap, if◌then◌else◌,
}
use dockfoxprox.Base.Text.{bytes_key, nat_key}
use dockfoxprox.Base.Map.{lookup, sum_by-insert, weight}
use dockfoxprox.State.{State, RedisEntry, remove_redis}
use dockfoxprox.State.Measure.{IsAccounted, measured, redis_weight}
use dockfoxprox.State.Accounting.{
  insert_redis-IsAccounted, remove_redis-IsAccounted, flush_redis-IsAccounted,
}
use dockfoxprox.State.{redis_value_bucket}
use dockfoxprox.Redis.Commands.{
  Verb, ping, quit, hello, command, auth, get, set, del, flush, touch_redis, get_disk, get_key,
  run_get, run_set, remove_keys, run_del, execute, run_auth, dispatch, run_command, reply, verb_of,
  command_name,
}

-- The counters of a state that differs in its metrics alone.
touch_redis-IsAccounted :
    (k v : Bytes) (id t : ℕ) (s : State)
    → lookup k s.redis_entries ≡ some (RedisEntry.in_memory v id t)
    → IsAccounted s
    → IsAccounted (touch_redis k v id s)
unfolding touch_redis measured redis_value_bucket
touch_redis-IsAccounted k v id t s e h c =
    let entry = RedisEntry.in_memory v id s.now in
    omega (
      arith,
      h c,
      sum_by-insert (redis_weight c) k entry s.redis_entries,
      ap (weight (redis_weight c) k) e,
    )

get_disk-IsAccounted :
    (k : Bytes) (id : ℕ) (s : State) → IsAccounted s → IsAccounted (get_disk k id s).0
unfolding get_disk measured
get_disk-IsAccounted k id s h = elim (Option-cases (lookup id s.disk)) [
  | inl e ↦ rw (e, get_disk) (remove_redis-IsAccounted k s h)
  | inr (v, e) ↦ rw (e, get_disk) (insert_redis-IsAccounted k v s h)
]

get_key-IsAccounted : (k : Bytes) (s : State) → IsAccounted s → IsAccounted (get_key k s).0
unfolding get_key measured
get_key-IsAccounted k s h = found (lookup k s.redis_entries) refl
  where
    found : (o : Option RedisEntry) → lookup k s.redis_entries ≡ o → IsAccounted (get_key k s).0
    found none e = rw (e, get_key) h
    found (some (RedisEntry.in_memory v id t)) e =
        rw (e, get_key) (touch_redis-IsAccounted k v id t s e h)
    found (some (RedisEntry.on_disk size id t)) e = rw (e, get_key) (get_disk-IsAccounted k id s h)

remove_keys-IsAccounted :
    (ks : List Bytes) (n : ℕ) (s : State) → IsAccounted s → IsAccounted (remove_keys ks n s).0
unfolding remove_keys
remove_keys-IsAccounted [] n s h = h
remove_keys-IsAccounted (k ∷ ks) n s h =
    remove_keys-IsAccounted ks _ (remove_redis k s).0 (remove_redis-IsAccounted k s h)

execute-IsAccounted :
    (verb : Verb) (args : List Bytes) (s : State)
    → IsAccounted s
    → IsAccounted (execute verb args s).0
unfolding execute run_get run_set run_del measured
execute-IsAccounted get (k ∷ []) s h = get_key-IsAccounted k s h
execute-IsAccounted set (k ∷ v ∷ args) s h = insert_redis-IsAccounted k v s h
execute-IsAccounted del args s h = remove_keys-IsAccounted args 0 s h
execute-IsAccounted flush args s h = flush_redis-IsAccounted s h
execute-IsAccounted verb args s h = h

-- AUTH changes nothing but a counter of the metrics.
pub run_auth_state :
    (args : List Bytes) (authed : Bool) (s : State)
    → (run_auth args authed s).state ≡ record s { metrics = (run_auth args authed s).state.metrics }
unfolding run_auth
run_auth_state args authed s = ground arith

of_metrics : (s t : State) → t ≡ record s { metrics = t.metrics } → IsAccounted s → IsAccounted t
unfolding measured
of_metrics s t e h = rw e h

guarded-IsAccounted :
    (authed : Bool) (s : State) (r : State × Bytes) (refused : Bytes)
    → IsAccounted s
    → IsAccounted r.0
    → IsAccounted (if authed then reply true r else reply false (s, refused)).state
guarded-IsAccounted true s r refused h k = k
guarded-IsAccounted false s r refused h k = h

dispatch-IsAccounted :
    (verb : Verb) (args : List Bytes) (authed : Bool) (s : State)
    → IsAccounted s
    → IsAccounted (dispatch verb args authed s).state
unfolding dispatch
dispatch-IsAccounted ping args authed s h = h
dispatch-IsAccounted quit args authed s h = h
dispatch-IsAccounted hello args authed s h = h
dispatch-IsAccounted command args authed s h = h
dispatch-IsAccounted auth args authed s h = of_metrics s _ (run_auth_state args authed s) h
dispatch-IsAccounted verb args authed s h =
    guarded-IsAccounted authed s _ _ h (execute-IsAccounted _ args s h)

-- If every usage counter holds the bytes of its bucket, modulo 2^64, it does so after a command, whatever
-- its arguments are and whoever sends it.
pub run_command-IsAccounted :
    (args : List Bytes) (authed : Bool) (s : State)
    → IsAccounted s
    → IsAccounted (run_command args authed s).state
unfolding run_command measured
run_command-IsAccounted [] authed s h = h
run_command-IsAccounted (name ∷ args) authed s h =
    dispatch-IsAccounted (verb_of (command_name name)) args authed _ h
