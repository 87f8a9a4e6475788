-- ===== src/Config.antt =====
-- The configuration, src/config.rs. A `Size` of src/size.rs is its number of bytes; texts are their
-- bytes. Reading it from TOML is serde's.
use dockfoxprox.Base.{ℕ, ◌*◌, ◌/◌, Option, none, some, List, Bytes, bytes}
use dockfoxprox.Base.Map.{Map}

pub record DockerUser : Type 0 where
  pub username : Bytes
  pub password : Bytes

pub record DockerRegistry : Type 0 where
  pub url : Bytes
  pub username : Option Bytes
  pub password : Option Bytes

pub record Config : Type 0 where
  pub https_port : Option ℕ
  pub http_port : Option ℕ
  pub data_folder : Bytes
  pub memory_limit : ℕ
  pub small_limit : Option ℕ
  pub disk_limit : ℕ
  pub docker_user : List DockerUser
  pub docker_registry : Map Bytes DockerRegistry
  pub redis_port : Option ℕ
  pub redis_password : Option Bytes

abbrev pub default_data_folder : Bytes
default_data_folder = bytes "/data/dockfoxprox"

abbrev pub default_memory_limit : ℕ
default_memory_limit = 1024 * 1024 * 1024 * 16

abbrev pub default_disk_limit : ℕ
default_disk_limit = 1024 * 1024 * 1024 * 100

-- `Config::small_memory_limit`.
unfoldable pub small_memory_limit : Config → ℕ
small_memory_limit c = elim c.small_limit [ some n ↦ n | none ↦ c.memory_limit / 8 ]
