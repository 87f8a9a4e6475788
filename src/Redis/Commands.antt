-- ===== src/Redis/Commands.antt =====
-- The commands of the Redis-protocol server: the `match` of `handle_conn`, src/redis.rs. What a
-- command does is a new state and the bytes of its reply.
pub mod Access
pub mod Laws
use dockfoxprox.Base.{
  ℕ, zero, suc, ◌+◌, Bool, true, false, ◌||◌, Option, none, some, List, [], ◌∷◌, ◌++◌, Bytes, bytes,
  length, bytes_eq, if◌then◌else◌, add64,
}
use dockfoxprox.Base.Map.{lookup, insert}
use dockfoxprox.Base.Text.{bytes_key, nat_key}
use dockfoxprox.Metrics.{Metrics}
use dockfoxprox.State.{State, RedisEntry, insert_redis, remove_redis, flush_redis}
use dockfoxprox.Redis.Text.{is_utf8, to_ascii_uppercase}
use dockfoxprox.Redis.Resp.{write_simple, write_error, write_integer, write_bulk, write_nil}

pub data Verb : Type 0 where
  ping quit hello command auth : Verb
  get set del exists flush select info dbsize : Verb
  other : Bytes → Verb

-- The arms of the `match`, for a name in upper case.
unfoldable pub verb_of : Bytes → Verb
verb_of c =
    if bytes_eq c (bytes "PING")
    then ping
    else if bytes_eq c (bytes "QUIT")
    then quit
    else if bytes_eq c (bytes "HELLO")
    then hello
    else if bytes_eq c (bytes "COMMAND")
    then command
    else if bytes_eq c (bytes "AUTH")
    then auth
    else if bytes_eq c (bytes "GET")
    then get
    else if bytes_eq c (bytes "SET")
    then set
    else if bytes_eq c (bytes "DEL") || bytes_eq c (bytes "UNLINK")
    then del
    else if bytes_eq c (bytes "EXISTS")
    then exists
    else if bytes_eq c (bytes "FLUSHDB") || bytes_eq c (bytes "FLUSHALL")
    then flush
    else if bytes_eq c (bytes "SELECT") || bytes_eq c (bytes "CLIENT")
    then select
    else if bytes_eq c (bytes "INFO")
    then info
    else if bytes_eq c (bytes "DBSIZE")
    then dbsize
    else other c

-- The name of a command, in upper case; empty if it is no UTF-8.
unfoldable pub command_name : Bytes → Bytes
command_name name = if is_utf8 name then to_ascii_uppercase name else []

abbrev pub count : (Metrics → Metrics) → State → State
count f s = record s { metrics = f s.metrics }

abbrev pub count_hit : State → State
count_hit = count (λ m. record m { redis_get_hit = add64 m.redis_get_hit 1 })

abbrev pub count_miss : State → State
count_miss = count (λ m. record m { redis_get_miss = add64 m.redis_get_miss 1 })

-- A hit in memory stores the time of the access in the entry.
unfoldable pub touch_redis : Bytes → Bytes → ℕ → State → State
touch_redis key value id s = record s {
  redis_entries = insert key (RedisEntry.in_memory value id s.now) s.redis_entries;
}

-- A hit on disk reads the file and stores its bytes as a new entry in memory; if the file cannot be
-- read the entry is dropped.
unfoldable pub get_disk : Bytes → ℕ → State → State × Bytes
get_disk key id s = elim (lookup id s.disk) [
  | some value ↦ (count_hit (insert_redis key value s).0, write_bulk value)
  | none ↦ (count_miss (remove_redis key s).0, write_nil)
]

unfoldable pub get_key : Bytes → State → State × Bytes
get_key key s = elim (lookup key s.redis_entries) [
  | none ↦ (count_miss s, write_nil)
  | some (RedisEntry.in_memory value id t) ↦
      (count_hit (touch_redis key value id s), write_bulk value)
  | some (RedisEntry.on_disk size id t) ↦ get_disk key id s
]

unfoldable pub run_get : List Bytes → State → State × Bytes
run_get (key ∷ []) s = get_key key s
run_get _ s = (s, write_error (bytes "ERR wrong number of arguments for 'get'"))

unfoldable pub run_set : List Bytes → State → State × Bytes
run_set (key ∷ value ∷ _) s = (
  count (λ m. record m { redis_set = add64 m.redis_set 1 }) (insert_redis key value s).0,
  write_simple (bytes "OK"),
)
run_set _ s = (s, write_error (bytes "ERR wrong number of arguments for 'set'"))

-- The loop of DEL: the state after it, and the number of keys that it removed.
unfoldable pub remove_keys : List Bytes → ℕ → State → State × ℕ
remove_keys [] n s = (s, n)
remove_keys (k ∷ ks) n s =
    let (s', removed) = remove_redis k s in remove_keys ks (if removed then n + 1 else n) s'

unfoldable pub run_del : List Bytes → State → State × Bytes
run_del keys s =
    let (s', n) = remove_keys keys 0 s in
    (count (λ m. record m { redis_del = add64 m.redis_del n }) s', write_integer n)

unfoldable pub count_keys : List Bytes → ℕ → State → ℕ
count_keys [] n s = n
count_keys (k ∷ ks) n s =
    count_keys ks (elim (lookup k s.redis_entries) [ none ↦ n | some _ ↦ n + 1 ]) s

-- The commands behind the check of the authentication.
unfoldable pub execute : Verb → List Bytes → State → State × Bytes
execute get args s = run_get args s
execute set args s = run_set args s
execute del args s = run_del args s
execute exists args s = (s, write_integer (count_keys args 0 s))
execute flush args s = (flush_redis s, write_simple (bytes "OK"))
execute select args s = (s, write_simple (bytes "OK"))
execute info args s = (s, write_bulk [])
execute dbsize args s = (s, write_integer (length s.redis_entries))
execute (other name) args s = (s, write_error (bytes "ERR unknown command '" ++ name ++ bytes "'"))
execute _ args s = (s, [])

-- What a command leaves: the state, whether the client is authenticated, the reply, and whether the
-- connection is closed behind it.
pub record Reply : Type 0 where
  pub state : State
  pub authed : Bool
  pub output : Bytes
  pub closed : Bool

abbrev pub reply : Bool → State × Bytes → Reply
reply authed (s, out) = record { state = s; authed = authed; output = out; closed = false }

-- The password of an AUTH; a user name in front of it is ignored.
unfoldable pub given_password : List Bytes → Option Bytes
given_password (p ∷ []) = some p
given_password (user ∷ p ∷ []) = some p
given_password _ = none

unfoldable pub run_auth : List Bytes → Bool → State → Reply
run_auth args authed s = elim (given_password args) [
  | none ↦ reply authed (s, write_error (bytes "ERR wrong number of arguments for 'auth'"))
  | some given ↦ elim s.config.redis_password [
    | none ↦ reply authed (s, write_error (bytes "ERR Client sent AUTH, but no password is set"))
    | some p ↦
        if bytes_eq given p
        then reply true (s, write_simple (bytes "OK"))
        else reply authed (
          count (λ m. record m { redis_auth_failures = add64 m.redis_auth_failures 1 }) s,
          write_error (bytes "WRONGPASS invalid username-password pair"),
        )
  ]
]

unfoldable pub run_ping : List Bytes → Bytes
run_ping [] = write_simple (bytes "PONG")
run_ping (message ∷ _) = write_bulk message

unfoldable pub dispatch : Verb → List Bytes → Bool → State → Reply
dispatch ping args authed s = reply authed (s, run_ping args)
dispatch quit args authed s = record {
  state = s;
  authed = authed;
  output = write_simple (bytes "OK");
  closed = true;
}
dispatch hello args authed s =
    reply authed (s, write_error (bytes "ERR NOPROTO unsupported protocol"))
dispatch command args authed s = reply authed (s, bytes "*0" ++ 13 ∷ 10 ∷ [])
dispatch auth args authed s = run_auth args authed s
dispatch verb args authed s =
    if authed
    then reply true (execute verb args s)
    else reply false (s, write_error (bytes "NOAUTH Authentication required."))

-- A round of the loop of `handle_conn`, for the arguments that were read.
unfoldable pub run_command : List Bytes → Bool → State → Reply
run_command [] authed s = reply authed (s, [])
run_command (name ∷ args) authed s =
    dispatch (verb_of (command_name name)) args authed
      (count (λ m. record m { redis_commands = add64 m.redis_commands 1 }) s)
