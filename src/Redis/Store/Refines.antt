-- ===== src/Redis/Store/Refines.antt =====
-- The commands on keys, src/redis.rs, do what the store does.
use dockfoxprox.Base.{◌≡◌, ◌≢◌, refl, sym, ◌∙◌, ap, Option, none, some, List, [], ◌∷◌, Bytes}
use dockfoxprox.Base.Map.{lookup}
use dockfoxprox.Base.Text.{bytes_key, nat_key}
use dockfoxprox.State.{State, RedisEntry, insert_redis, flush_redis}
use dockfoxprox.Redis.Resp.{write_integer}
use dockfoxprox.Redis.Commands.{
  execute, get_key, get_disk, touch_redis, run_get, run_set, run_del, remove_keys,
}
use dockfoxprox.Redis.Store.{
  Store, Op, get_op, set_op, del_op, exists_op, flush_op, answer, spec, perform, view, IsCoherent,
}
use dockfoxprox.Redis.Store.Moves.{view-Moved, Moved-IsCoherent, insert_redis-Moved}
use dockfoxprox.Redis.Store.Keys.{
  put_lem, view-insert_redis, recounted, view_counted, view_of, remove_keys-refines,
  count_keys-refines, touch_redis-Moved, touch_redis-found,
}

-- A state whose key is put back with the value that it had stands for the same store.
put_back :
    (k v : Bytes) (s s' : State)
    → view s k ≡ some v
    → view s' k ≡ some v
    → ((j : Bytes) → j ≢ k → view s' j ≡ view s j)
    → view s' ≡ view s
put_back k v s s' e f g =
    put_lem k (some v) (view s) (view s') f g
    ∙ sym (put_lem k (some v) (view s) (view s) e (λ j n. refl))

-- The state after a command stands for the store after it, and the replies are the same.
abbrev pub Agrees : State → State × Bytes → Store × Bytes → Type 0
Agrees s (s', out) (m, out') = IsCoherent s' × (view s' ≡ m) × (out ≡ out')

get_key-Agrees :
    (k : Bytes) (s : State) → IsCoherent s → Agrees s (get_key k s) (view s, answer (view s k))
unfolding get_key get_disk
get_key-Agrees k s c = found (lookup k s.redis_entries) refl
  where
    found :
        (o : Option RedisEntry)
        → lookup k s.redis_entries ≡ o
        → Agrees s (get_key k s) (view s, answer (view s k))
    found none e =
        let has = view_of k s none e in
        rw (e, get_key) (recounted _ s c, view_counted _ s, ap answer (sym has))
    found (some (RedisEntry.in_memory v id t)) e =
        let m = touch_redis-Moved k v id t s c e in
        let has = view_of k s (some (RedisEntry.in_memory v id t)) e in
        let s' = touch_redis k v id s in
        let now = touch_redis-found k v id s in
        rw (e, get_key)
          (
            recounted _ s' (Moved-IsCoherent k s s' c m),
            view_counted _ s'
                ∙ put_back k v s s' has (view_of k s' (some (RedisEntry.in_memory v id s.now)) now)
                    (view-Moved k s s' c m),
            ap answer (sym has),
          )
    found (some (RedisEntry.on_disk size id t)) e =
        let (v, f) = c.backed k size id t e in
        let has = view_of k s (some (RedisEntry.on_disk size id t)) e ∙ f in
        let s' = (insert_redis k v s).0 in
        let same = view-insert_redis k v s c in
        rw (e, get_key, f, get_disk)
          (
            recounted _ s' (Moved-IsCoherent k s s' c (insert_redis-Moved k v s c)),
            view_counted _ s' ∙ same ∙ sym (put_lem k (some v) (view s) (view s) has (λ j n. refl)),
            ap answer (sym has),
          )

flush_redis-Agrees : (s : State) → Agrees s (perform flush_op s) (spec flush_op (view s))
unfolding perform execute flush_redis spec view lookup
flush_redis-Agrees s = (
  record {
    unique = tt;
    backed = λ k size id t e. absurd (cc e);
    separate = λ j k m n id id' t u ne e f. absurd (cc e);
  },
  refl,
  refl,
)

-- Each command on keys does what the store does: from a cache in which each key stands once and entries
-- on disk have files of their own, the store that the new cache stands for, and the reply, are those of
-- the store, and the cache is again such a cache. This is so wherever values are, in memory or on disk.
pub perform-Agrees :
    (op : Op) (s : State) → IsCoherent s → Agrees s (perform op s) (spec op (view s))
unfolding perform execute run_get run_set run_del spec
perform-Agrees (get_op k) s c = get_key-Agrees k s c
perform-Agrees (set_op k v) s c = (
  recounted _ (insert_redis k v s).0
      (Moved-IsCoherent k s (insert_redis k v s).0 c (insert_redis-Moved k v s c)),
  view_counted _ (insert_redis k v s).0 ∙ view-insert_redis k v s c,
  refl,
)
perform-Agrees (del_op ks) s c =
    let (d, p, q) = remove_keys-refines ks 0 s c in
    (
      recounted _ (remove_keys ks 0 s).0 d,
      view_counted _ (remove_keys ks 0 s).0 ∙ p,
      ap write_integer q,
    )
perform-Agrees (exists_op ks) s c = (c, refl, ap write_integer (count_keys-refines ks 0 s c))
perform-Agrees flush_op s c = flush_redis-Agrees s

-- The replies to commands, one after the other.
unfoldable pub performed : List Op → State → List Bytes
performed [] s = []
performed (op ∷ ops) s = (perform op s).1 ∷ performed ops (perform op s).0

unfoldable pub specified : List Op → Store → List Bytes
specified [] m = []
specified (op ∷ ops) m = (spec op m).1 ∷ specified ops (spec op m).0

-- The replies to any sequence of GET, SET, DEL, EXISTS and FLUSHALL are those of the store that the cache
-- stands for, if in the cache each key stands once and entries on disk have files of their own.
pub performed-specified :
    (ops : List Op) (s : State) → IsCoherent s → performed ops s ≡ specified ops (view s)
unfolding performed specified
performed-specified [] s c = refl
performed-specified (op ∷ ops) s c =
    let (d, p, q) = perform-Agrees op s c in
    let rest = performed-specified ops (perform op s).0 d ∙ ap (specified ops) p in
    λ i. q i ∷ rest i
