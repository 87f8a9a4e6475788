-- ===== src/Tests/Stores.antt =====
-- The commands on keys, src/redis.rs, at a concrete cache.
use dockfoxprox.Base.{ℕ, ◌≡◌, refl, ap, ◌∙◌, sym, arith, some, List, [], ◌∷◌, Bytes, bytes}
use dockfoxprox.Base.Map.{lookup}
use dockfoxprox.Base.Text.{bytes_key, nat_key, Bytes-discrete}
use dockfoxprox.State.{State, RedisEntry}
use dockfoxprox.Redis.Store.{Op, get_op, set_op, del_op, exists_op, flush_op, view, IsCoherent}
use dockfoxprox.Redis.Store.Refines.{performed, specified, performed-specified}
use dockfoxprox.Tests.Data.{start}

-- A key on disk, and one in memory.
abbrev two_keys : State
two_keys = record start {
  redis_entries =
      (97 ∷ [], RedisEntry.on_disk 2 4 900000)
      ∷ (98 ∷ [], RedisEntry.in_memory (bytes "v") 3 900000)
      ∷ [];
  disk = (4, bytes "hi") ∷ [];
}

only_disk :
    (k : Bytes) (size id t : ℕ)
    → lookup k two_keys.redis_entries ≡ some (RedisEntry.on_disk size id t)
    → (k ≡ 97 ∷ []) × (id ≡ 4)
unfolding lookup
only_disk k size id t e = ground arith

two_keys-IsCoherent : IsCoherent two_keys
unfolding lookup Bytes-discrete
two_keys-IsCoherent = record {
  unique = (refl, (refl, tt));
  backed =
      λ k size id t e. (bytes "hi", ap (λ x. lookup x two_keys.disk) (only_disk k size id t e).1);
  separate = λ j k m n id id' t u ne e f.
      absurd (ne ((only_disk j m id t e).0 ∙ sym (only_disk k n id' u f).0));
}

abbrev commands : List Op
commands =
    get_op (bytes "a")
    ∷ set_op (bytes "b") (bytes "w")
    ∷ del_op (bytes "a" ∷ bytes "c" ∷ [])
    ∷ exists_op (bytes "a" ∷ bytes "b" ∷ [])
    ∷ flush_op
    ∷ get_op (bytes "b")
    ∷ []

performed_example : performed commands two_keys ≡ specified commands (view two_keys)
performed_example = performed-specified commands two_keys two_keys-IsCoherent
