-- ===== src/Eviction/Json.antt =====
-- `referenced_digests` of src/eviction.rs. What serde_json makes of a manifest's bytes is a parameter.
pub mod Occurs
use dockfoxprox.Base.{
  Bool, Option, none, some, List, [], ◌∷◌, ◌++◌, Bytes, bytes, bytes_eq, if◌then◌else◌,
}
use dockfoxprox.State.{Digest}
use dockfoxprox.Digest.{parse}

-- A `serde_json::Value`; numbers are of no interest to the walk.
mutual
  pub data Value : Type 0 where
    null number : Value
    bool : Bool → Value
    string : Bytes → Value
    array : Items → Value
    object : Fields → Value

  pub data Items : Type 0 where
    nil : Items
    cons : Value → Items → Items

  pub data Fields : Type 0 where
    end : Fields
    field : Bytes → Value → Fields → Fields

-- The digest that the value of a field named "digest" holds.
unfoldable pub field_digest : Bytes → Value → Option Digest
field_digest k (string s) = if bytes_eq k (bytes "digest") then parse s else none
field_digest k v = none

abbrev pub push : Option Digest → List Digest → List Digest
push none out = out
push (some d) out = out ++ d ∷ []

-- The inner function `walk`, which appends to `out`.
unfoldable mutual
  unfolding field_digest

  pub walk : Value → List Digest → List Digest
  walk null out = out
  walk number out = out
  walk (bool b) out = out
  walk (string s) out = out
  walk (array a) out = walk_items a out
  walk (object m) out = walk_fields m out

  pub walk_items : Items → List Digest → List Digest
  walk_items nil out = out
  walk_items (cons v a) out = walk_items a (walk v out)

  pub walk_fields : Fields → List Digest → List Digest
  walk_fields end out = out
  walk_fields (field k v m) out = walk_fields m (walk v (push (field_digest k v) out))

unfoldable pub referenced_digests : (Bytes → Option Value) → Bytes → List Digest
unfolding walk
referenced_digests json content = elim (json content) [ none ↦ [] | some v ↦ walk v [] ]
