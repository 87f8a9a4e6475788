-- ===== src/Redis/Store.antt =====
-- The commands on keys, src/redis.rs, against a store that maps keys to values and knows nothing of
-- memory, disk or time.
pub mod Moves
pub mod Keys
pub mod Refines
use dockfoxprox.Base.{ℕ, ◌+◌, ◌≡◌, ◌≢◌, Option, none, some, List, [], ◌∷◌, Bytes, bytes, ite}
use dockfoxprox.Base.Map.{Map, lookup, Unique}
use dockfoxprox.Base.Text.{bytes_key, nat_key, Bytes-discrete}
use dockfoxprox.State.{State, RedisEntry}
use dockfoxprox.Redis.Resp.{write_bulk, write_nil, write_simple, write_integer}
use dockfoxprox.Redis.Commands.{Verb, get, set, del, exists, flush, execute}

-- What a store answers for a key.
abbrev pub Store : Type 0
Store = Bytes → Option Bytes

-- The commands, as a client means them.
pub data Op : Type 0 where
  get_op : Bytes → Op
  set_op : Bytes → Bytes → Op
  del_op : List Bytes → Op
  exists_op : List Bytes → Op
  flush_op : Op

unfoldable pub put : Bytes → Option Bytes → Store → Store
unfolding Bytes-discrete
put k v m j = ite (Bytes-discrete j k) v (m j)

abbrev pub answer : Option Bytes → Bytes
answer none = write_nil
answer (some v) = write_bulk v

abbrev pub add_if : Option Bytes → ℕ → ℕ
add_if none n = n
add_if (some v) n = n + 1

unfoldable pub delete_all : List Bytes → ℕ → Store → Store × ℕ
unfolding put
delete_all [] n m = (m, n)
delete_all (k ∷ ks) n m = delete_all ks (add_if (m k) n) (put k none m)

unfoldable pub count_all : List Bytes → ℕ → Store → ℕ
count_all [] n m = n
count_all (k ∷ ks) n m = count_all ks (add_if (m k) n) m

-- The store after a command, and the reply.
unfoldable pub spec : Op → Store → Store × Bytes
unfolding put delete_all count_all
spec (get_op k) m = (m, answer (m k))
spec (set_op k v) m = (put k (some v) m, write_simple (bytes "OK"))
spec (del_op ks) m = let (m', n) = delete_all ks 0 m in (m', write_integer n)
spec (exists_op ks) m = (m, write_integer (count_all ks 0 m))
spec flush_op m = ((λ j. none), write_simple (bytes "OK"))

-- The command of the code.
unfoldable pub perform : Op → State → State × Bytes
unfolding execute
perform (get_op k) s = execute get (k ∷ []) s
perform (set_op k v) s = execute set (k ∷ v ∷ []) s
perform (del_op ks) s = execute del ks s
perform (exists_op ks) s = execute exists ks s
perform flush_op s = execute flush [] s

abbrev pub value_of : Option RedisEntry → Map ℕ Bytes → Option Bytes
value_of none disk = none
value_of (some (RedisEntry.in_memory v id t)) disk = some v
value_of (some (RedisEntry.on_disk size id t)) disk = lookup id disk

-- The store that a state stands for: a value on disk is what is in its file.
unfoldable pub view : State → Store
view s k = value_of (lookup k s.redis_entries) s.disk

-- Each key stands once; entries on disk have files, and different entries different ones.
pub record IsCoherent (s : State) : Type 0 where
  pub unique : Unique s.redis_entries
  pub backed :
      (k : Bytes) (size id t : ℕ)
      → lookup k s.redis_entries ≡ some (RedisEntry.on_disk size id t)
      → (v : Bytes) × (lookup id s.disk ≡ some v)
  pub separate :
      (j k : Bytes) (m n id id' t u : ℕ)
      → j ≢ k
      → lookup j s.redis_entries ≡ some (RedisEntry.on_disk m id t)
      → lookup k s.redis_entries ≡ some (RedisEntry.on_disk n id' u)
      → id ≢ id'
