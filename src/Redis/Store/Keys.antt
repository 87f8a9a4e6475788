-- ===== src/Redis/Store/Keys.antt =====
-- What the steps of the commands on keys, src/redis.rs, do to the store that a state stands for.
use mathlib.Core.Path.{fun_ext}
use mathlib.Core.Logic.{if_pos, if_neg}
use dockfoxprox.Base.{
  ℕ, ◌+◌, ◌≡◌, ◌≢◌, refl, sym, ◌∙◌, ap, Option, none, some, List, [], ◌∷◌, Bytes, Option-cases, inl,
  inr, if◌then◌else◌,
}
use dockfoxprox.Base.Map.{
  lookup, lookup-insert_self, lookup-insert_ne, lookup-remove_self, insert-Unique,
}
use dockfoxprox.Base.Text.{bytes_key, nat_key, Bytes-discrete}
use dockfoxprox.Metrics.{Metrics}
use dockfoxprox.State.{State, RedisEntry, insert_redis, remove_redis, unlink_entry}
use dockfoxprox.Redis.Commands.{touch_redis, remove_keys, count_keys}
use dockfoxprox.Redis.Store.{Store, put, add_if, delete_all, count_all, value_of, view, IsCoherent}
use dockfoxprox.Redis.Store.Moves.{
  Moved, no_disk, unlinked, view-Moved, Moved-IsCoherent, insert_redis-Moved, remove_redis-Moved,
}

-- A store with a key changed.
pub put_lem :
    (k : Bytes) (v : Option Bytes) (m n : Store)
    → n k ≡ v
    → ((j : Bytes) → j ≢ k → n j ≡ m j)
    → n ≡ put k v m
unfolding put
put_lem k v m n here there = fun_ext (λ j. elim (Bytes-discrete j k) [
  | yes p ↦ rw (if_pos (Bytes-discrete j k) p v (m j)) (ap n p ∙ here)
  | no p ↦ rw (if_neg (Bytes-discrete j k) p v (m j)) (there j p)
])

pub view-insert_redis :
    (k v : Bytes) (s : State) → IsCoherent s → view (insert_redis k v s).0 ≡ put k (some v) (view s)
unfolding view insert_redis
view-insert_redis k v s c =
    put_lem k (some v) (view s) (view (insert_redis k v s).0)
      (rw (lookup-insert_self k (RedisEntry.in_memory v s.next_id s.now) s.redis_entries) refl)
      (view-Moved k s (insert_redis k v s).0 c (insert_redis-Moved k v s c))

pub recounted :
    (metrics : Metrics) (s : State) → IsCoherent s → IsCoherent (record s { metrics = metrics })
recounted metrics s c = record { unique = c.unique; backed = c.backed; separate = c.separate }

pub view_counted : (metrics : Metrics) (s : State) → view (record s { metrics = metrics }) ≡ view s
unfolding view
view_counted metrics s = refl

pub view_of :
    (k : Bytes) (s : State) (o : Option RedisEntry)
    → lookup k s.redis_entries ≡ o
    → view s k ≡ value_of o s.disk
unfolding view
view_of k s o e = ap (λ x. value_of x s.disk) e

-- Whether a key has an entry is whether the store has a value.
pub add_if-entry :
    (k : Bytes) (s : State) (e : RedisEntry) (n : ℕ)
    → IsCoherent s
    → lookup k s.redis_entries ≡ some e
    → add_if (view s k) n ≡ n + 1
add_if-entry k s (RedisEntry.in_memory v id t) n c e =
    ap (λ o. add_if o n) (view_of k s (some (RedisEntry.in_memory v id t)) e)
add_if-entry k s (RedisEntry.on_disk size id t) n c e =
    let (v, f) = c.backed k size id t e in
    ap (λ o. add_if o n) (view_of k s (some (RedisEntry.on_disk size id t)) e ∙ f)

-- What a removal does.
abbrev pub Removes : Bytes → State → Type 0
Removes k s =
    IsCoherent (remove_redis k s).0
    × (view (remove_redis k s).0 ≡ put k none (view s))
    × ((n : ℕ) → (if (remove_redis k s).1 then n + 1 else n) ≡ add_if (view s k) n)

pub remove_redis-Removes : (k : Bytes) (s : State) → IsCoherent s → Removes k s
unfolding remove_redis
remove_redis-Removes k s c = elim (Option-cases (lookup k s.redis_entries)) [
  | inl e ↦
      rw (e, remove_redis)
        (
          c,
          put_lem k none (view s) (view s) (view_of k s none e) (λ j n. refl),
          λ n. ap (λ o. add_if o n) (sym (view_of k s none e)),
        )
  | inr (old, e) ↦
      let m = remove_redis-Moved k old s c e in
      (
        Moved-IsCoherent k s (remove_redis k s).0 c m,
        put_lem k none (view s) (view (remove_redis k s).0)
            (view_of k (remove_redis k s).0 none (removed old e))
            (view-Moved k s (remove_redis k s).0 c m),
        λ n. rw (e, remove_redis) (sym (add_if-entry k s old n c e)),
      )
]
  where
    removed :
        (old : RedisEntry)
        → lookup k s.redis_entries ≡ some old
        → lookup k (remove_redis k s).0.redis_entries ≡ none
    removed old e = rw (e, remove_redis) (lookup-remove_self k s.redis_entries c.unique)

pub remove_keys-refines :
    (ks : List Bytes) (n : ℕ) (s : State)
    → IsCoherent s
    → IsCoherent (remove_keys ks n s).0
      × (view (remove_keys ks n s).0 ≡ (delete_all ks n (view s)).0)
      × ((remove_keys ks n s).1 ≡ (delete_all ks n (view s)).1)
unfolding remove_keys delete_all
remove_keys-refines [] n s c = (c, refl, refl)
remove_keys-refines (k ∷ ks) n s c =
    let (d, e, f) = remove_redis-Removes k s c in
    let s' = (remove_redis k s).0 in
    let (g, p, q) = remove_keys-refines ks (if (remove_redis k s).1 then n + 1 else n) s' d in
    let same : delete_all ks (if (remove_redis k s).1 then n + 1 else n) (view s')
        ≡ delete_all ks (add_if (view s k) n) (put k none (view s)) =
      λ i. delete_all ks (f n i) (e i) in
    (g, p ∙ ap (λ x. x.0) same, q ∙ ap (λ x. x.1) same)

pub count_keys-refines :
    (ks : List Bytes) (n : ℕ) (s : State)
    → IsCoherent s
    → count_keys ks n s ≡ count_all ks n (view s)
unfolding count_keys count_all
count_keys-refines [] n s c = refl
count_keys-refines (k ∷ ks) n s c = elim (Option-cases (lookup k s.redis_entries)) [
  | inl e ↦ rw (e) (
      count_keys-refines ks n s c
      ∙ ap (λ m. count_all ks m (view s)) (ap (λ o. add_if o n) (sym (view_of k s none e))))
  | inr (old, e) ↦ rw (e) (
      count_keys-refines ks (n + 1) s c
      ∙ ap (λ m. count_all ks m (view s)) (sym (add_if-entry k s old n c e)))
]

pub touch_redis-Moved :
    (k v : Bytes) (id t : ℕ) (s : State)
    → IsCoherent s
    → lookup k s.redis_entries ≡ some (RedisEntry.in_memory v id t)
    → Moved k s (touch_redis k v id s)
unfolding touch_redis unlinked unlink_entry
touch_redis-Moved k v id t s c e = record {
  others = λ j n. lookup-insert_ne j k (RedisEntry.in_memory v id s.now) s.redis_entries n;
  disk = rw (e, unlinked) refl;
  unique = insert-Unique k (RedisEntry.in_memory v id s.now) s.redis_entries c.unique;
  in_memory = λ j size id' t' p g. no_disk k j v id s.now size id' t' s p g;
}

pub touch_redis-found :
    (k v : Bytes) (id : ℕ) (s : State)
    → lookup k (touch_redis k v id s).redis_entries ≡ some (RedisEntry.in_memory v id s.now)
unfolding touch_redis
touch_redis-found k v id s = lookup-insert_self k (RedisEntry.in_memory v id s.now) s.redis_entries

pub insert_redis-found :
    (k v : Bytes) (s : State)
    → lookup k (insert_redis k v s).0.redis_entries ≡ some (RedisEntry.in_memory v s.next_id s.now)
unfolding insert_redis
insert_redis-found k v s =
    lookup-insert_self k (RedisEntry.in_memory v s.next_id s.now) s.redis_entries
