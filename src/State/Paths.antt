-- ===== src/State/Paths.antt =====
-- `State::cache_path` of src/state.rs. A path is the list of its components.
use dockfoxprox.Base.{ℕ, ◌<◌, ◌^◌, ◌≡◌, List, [], ◌∷◌, Bytes, bytes, drop}
use dockfoxprox.Base.Hex.{hex_fixed, hex_fixed-injective}
use dockfoxprox.State.{State}

unfoldable pub cache_path : State → ℕ → List Bytes
cache_path s id =
    let hex = hex_fixed 16 id in s.config.data_folder ∷ bytes "blobs" ∷ drop 14 hex ∷ hex ∷ []

-- Two ids never share a file, so the files can be told by their ids.
pub cache_path-injective :
    (s : State) (a b : ℕ) → a < 2 ^ 64 → b < 2 ^ 64 → cache_path s a ≡ cache_path s b → a ≡ b
unfolding cache_path
cache_path-injective s a b ha hb e = hex_fixed-injective 16 a b ha hb (cc e)
