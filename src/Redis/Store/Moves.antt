-- ===== src/Redis/Store/Moves.antt =====
-- What the insertion and the removal of a redis entry, src/state.rs, do to the store that a state stands
-- for.
use mathlib.Core.Path.{subst}
use dockfoxprox.Base.{ℕ, ◌≡◌, ◌≢◌, refl, sym, ◌∙◌, ap, Option, none, some, Bytes}
use dockfoxprox.Base.Map.{
  Map, lookup, insert, remove, Unique, lookup-insert_self, lookup-insert_ne, lookup-remove_ne,
  lookup-remove_self, insert-Unique, remove-Unique,
}
use dockfoxprox.Base.Text.{bytes_key, nat_key, Bytes-discrete}
use dockfoxprox.State.{State, RedisEntry, insert_redis, remove_redis, unlink_entry}
use dockfoxprox.Redis.Store.{value_of, view, IsCoherent}

-- The disk without the file of an entry.
unfoldable pub unlinked : Option RedisEntry → Map ℕ Bytes → Map ℕ Bytes
unlinked none disk = disk
unlinked (some e) disk = unlink_entry e disk

unlinked-lookup :
    (o : Option RedisEntry) (id : ℕ) (disk : Map ℕ Bytes)
    → ((size id' t : ℕ) → o ≡ some (RedisEntry.on_disk size id' t) → id ≢ id')
    → lookup id (unlinked o disk) ≡ lookup id disk
unfolding unlinked unlink_entry
unlinked-lookup none id disk h = refl
unlinked-lookup (some (RedisEntry.in_memory v id' t)) id disk h = refl
unlinked-lookup (some (RedisEntry.on_disk size id' t)) id disk h =
    lookup-remove_ne id id' disk (h size id' t refl)

-- A state in which the entry of a key is another, and the old one's file is gone.
pub record Moved (k : Bytes) (s s' : State) : Type 0 where
  pub others : (j : Bytes) → j ≢ k → lookup j s'.redis_entries ≡ lookup j s.redis_entries
  pub disk : s'.disk ≡ unlinked (lookup k s.redis_entries) s.disk
  pub unique : Unique s'.redis_entries
  pub in_memory :
      (j : Bytes) (size id t : ℕ)
      → j ≡ k
      → lookup j s'.redis_entries ≢ some (RedisEntry.on_disk size id t)

module _ (k : Bytes) (s s' : State) (c : IsCoherent s) (m : Moved k s s') where
  -- The file of another entry is where it was.
  file_kept :
      (j : Bytes) (size id t : ℕ)
      → j ≢ k
      → lookup j s.redis_entries ≡ some (RedisEntry.on_disk size id t)
      → lookup id s'.disk ≡ lookup id s.disk
  file_kept j size id t n e =
      ap (lookup id) m.disk
      ∙ unlinked-lookup (lookup k s.redis_entries) id s.disk
          (λ size' id' t' f. c.separate j k size size' id id' t t' n e f)

  pub view-Moved : (j : Bytes) → j ≢ k → view s' j ≡ view s j
  unfolding view
  view-Moved j n =
      ap (λ o. value_of o s'.disk) (m.others j n) ∙ found (lookup j s.redis_entries) refl
    where
      found :
          (o : Option RedisEntry)
          → lookup j s.redis_entries ≡ o
          → value_of (lookup j s.redis_entries) s'.disk ≡ value_of (lookup j s.redis_entries) s.disk
      found none e = rw e refl
      found (some (RedisEntry.in_memory v id t)) e = rw e refl
      found (some (RedisEntry.on_disk size id t)) e = rw e (file_kept j size id t n e)

  pub Moved-IsCoherent : IsCoherent s'
  Moved-IsCoherent = record {
    unique = m.unique;
    backed = λ j size id t e. elim (Bytes-discrete j k) [
      | yes p ↦ absurd (m.in_memory j size id t p e)
      | no n ↦
          let old = sym (m.others j n) ∙ e in
          let (v, f) = c.backed j size id t old in (v, file_kept j size id t n old ∙ f)
    ];
    separate = λ i j a b id id' t u n e f. elim (Bytes-discrete i k) [
      | yes p ↦ absurd (m.in_memory i a id t p e)
      | no p ↦ elim (Bytes-discrete j k) [
        | yes q ↦ absurd (m.in_memory j b id' u q f)
        | no q ↦ c.separate i j a b id id' t u n (sym (m.others i p) ∙ e) (sym (m.others j q) ∙ f)
      ]
    ];
  }

-- What was put in is not on disk.
pub no_disk :
    (k j v : Bytes) (n now size id t : ℕ) (s : State)
    → j ≡ k
    → lookup j (insert k (RedisEntry.in_memory v n now) s.redis_entries)
      ≢ some (RedisEntry.on_disk size id t)
no_disk k j v n now size id t s p e =
    let here = lookup-insert_self k (RedisEntry.in_memory v n now) s.redis_entries in
    let there =
      subst
        (λ x.
          lookup x (insert k (RedisEntry.in_memory v n now) s.redis_entries)
          ≡ some (RedisEntry.on_disk size id t))
        p e in
    absurd (cc (sym here ∙ there))

pub insert_redis-Moved : (k v : Bytes) (s : State) → IsCoherent s → Moved k s (insert_redis k v s).0
unfolding insert_redis unlinked
insert_redis-Moved k v s c = record {
  others = λ j n. lookup-insert_ne j k _ s.redis_entries n;
  disk = found (lookup k s.redis_entries);
  unique = insert-Unique k _ s.redis_entries c.unique;
  in_memory = λ j size id t p e. no_disk k j v _ _ size id t s p e;
}
  where
    found :
        (o : Option RedisEntry)
        → elim o [ some old ↦ unlink_entry old s.disk | none ↦ s.disk ] ≡ unlinked o s.disk
    found none = refl
    found (some e) = refl

pub remove_redis-Moved :
    (k : Bytes) (e : RedisEntry) (s : State)
    → IsCoherent s
    → lookup k s.redis_entries ≡ some e
    → Moved k s (remove_redis k s).0
unfolding remove_redis unlinked
remove_redis-Moved k e s c f =
    rw (f, remove_redis)
      (record {
        others = λ j n. lookup-remove_ne j k s.redis_entries n;
        disk = rw (f, unlinked) refl;
        unique = remove-Unique k s.redis_entries c.unique;
        in_memory = λ j size id t p g.
            let there =
              subst (λ x. lookup x (remove k s.redis_entries) ≡ some (RedisEntry.on_disk size id t))
                p g in
            absurd (cc (sym (lookup-remove_self k s.redis_entries c.unique) ∙ there));
      })
