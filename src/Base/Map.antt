-- ===== src/Base/Map.antt =====
-- A concurrent hash map seen from one task: an association list in the order of iteration, which
-- the library leaves open. An insertion replaces the entry of its key; a removal takes it out.
use Prim.Native.Nat.{ℕ, ◌+◌}
use mathlib.Core.Path.{◌≡◌, refl}
use mathlib.Core.Logic.{ite, ◌≢◌}
use mathlib.Core.List.{List, [], ◌∷◌}
use mathlib.Core.Option.{Option, none, some}
use native.Mathlib.Omega.{arith}

-- What a key type needs: a decision of equality.
pub record Key {ℓ} (K : Type ℓ) : Type ℓ where
  pub dec : Discrete K

abbrev pub Map {ℓ} : Type ℓ → Type ℓ → Type ℓ
Map K V = List (K × V)

module _ {ℓ} {K V : Type ℓ} where
  -- The sum of a weight over the entries.
  unfoldable pub sum_by : (K → V → ℕ) → Map K V → ℕ
  sum_by w [] = 0
  sum_by w ((j, v) ∷ m) = w j v + sum_by w m

  -- The weight of the entry of a key, 0 where there is none.
  abbrev pub weight : (K → V → ℕ) → K → Option V → ℕ
  weight w k none = 0
  weight w k (some v) = w k v

module _ {ℓ} {K V : Type ℓ} ⦃e : Key K⦄ where
  unfoldable pub lookup : K → Map K V → Option V
  lookup k [] = none
  lookup k ((j, v) ∷ m) = ite (e.dec k j) (some v) (lookup k m)

  unfoldable pub insert : K → V → Map K V → Map K V
  insert k v [] = (k, v) ∷ []
  insert k v ((j, w) ∷ m) = ite (e.dec k j) ((k, v) ∷ m) ((j, w) ∷ insert k v m)

  unfoldable pub remove : K → Map K V → Map K V
  remove k [] = []
  remove k ((j, w) ∷ m) = ite (e.dec k j) m ((j, w) ∷ remove k m)

  -- Each key stands once.
  abbrev pub Unique : Map K V → Type ℓ
  Unique [] = Unit
  Unique ((j, w) ∷ m) = (lookup j m ≡ none) × Unique m

  pub lookup-insert_self : (k : K) (v : V) (m : Map K V) → lookup k (insert k v m) ≡ some v
  unfolding lookup insert
  lookup-insert_self k v [] = ground arith
  lookup-insert_self k v (x ∷ m) = ground (arith, lookup-insert_self k v m)

  pub lookup-insert_ne :
      (j k : K) (v : V) (m : Map K V) → j ≢ k → lookup j (insert k v m) ≡ lookup j m
  unfolding lookup insert
  lookup-insert_ne j k v [] h = ground arith
  lookup-insert_ne j k v (x ∷ m) h = ground (arith, lookup-insert_ne j k v m h)

  pub lookup-remove_ne : (j k : K) (m : Map K V) → j ≢ k → lookup j (remove k m) ≡ lookup j m
  unfolding lookup remove
  lookup-remove_ne j k [] h = refl
  lookup-remove_ne j k (x ∷ m) h = ground (arith, lookup-remove_ne j k m h)

  pub lookup-remove_self : (k : K) (m : Map K V) → Unique m → lookup k (remove k m) ≡ none
  unfolding lookup remove
  lookup-remove_self k [] u = refl
  lookup-remove_self k (x ∷ m) u = ground (arith, lookup-remove_self k m u.1)

  pub insert-Unique : (k : K) (v : V) (m : Map K V) → Unique m → Unique (insert k v m)
  unfolding lookup insert
  insert-Unique k v [] u = (refl, tt)
  insert-Unique k v (x ∷ m) u = ground (arith, insert-Unique k v m u.1, lookup-insert_ne x.0 k v m)

  pub remove-Unique : (k : K) (m : Map K V) → Unique m → Unique (remove k m)
  unfolding lookup remove
  remove-Unique k [] u = tt
  remove-Unique k (x ∷ m) u = ground (arith, remove-Unique k m u.1, lookup-remove_ne x.0 k m)

  pub sum_by-insert :
      (w : K → V → ℕ) (k : K) (v : V) (m : Map K V)
      → sum_by w (insert k v m) + weight w k (lookup k m) ≡ sum_by w m + w k v
  unfolding lookup insert sum_by
  sum_by-insert w k v [] = omega arith
  sum_by-insert w k v (x ∷ m) = ground (arith, sum_by-insert w k v m)

  pub sum_by-remove :
      (w : K → V → ℕ) (k : K) (m : Map K V)
      → sum_by w (remove k m) + weight w k (lookup k m) ≡ sum_by w m
  unfolding lookup remove sum_by
  sum_by-remove w k [] = refl
  sum_by-remove w k (x ∷ m) = ground (arith, sum_by-remove w k m)
