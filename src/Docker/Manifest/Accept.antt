-- ===== src/Docker/Manifest/Accept.antt =====
-- The `Accept` header that `manifest_accept` of src/docker.rs makes.
use dockfoxprox.Base.{◌≡◌, ◌⊎◌, Bool, true, ◌||◌, List, ◌∷◌, ◌++◌, Bytes, bytes, bytes_eq}
use dockfoxprox.Docker.Text.{split, is_empty, any_ignore_case}

-- A media type that names none: nothing, or the wildcard.
unfoldable pub names_none : Bytes → Bool
names_none t = is_empty t || bytes_eq t (bytes "*/*")

-- A list goes on another.
abbrev pub Extends : List Bytes → List Bytes → Type 0
Extends xs ys = (extra : List Bytes) × (ys ≡ xs ++ extra)

abbrev pub Has : List Bytes → Bytes → Type 0
Has out t = (names_none t ≡ true) ⊎ (any_ignore_case t out ≡ true)

-- The parts of the client's header.
abbrev pub parts_of : Bytes → List Bytes
parts_of a = (split 44 a).0 ∷ (split 44 a).1
