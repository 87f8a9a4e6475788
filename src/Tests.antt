-- ===== src/Tests.antt =====
-- The theorems on the modules of src/ at concrete inputs.
pub mod Data
pub mod Caches
pub mod Protocol
pub mod Restart
pub mod Server
pub mod Registry
pub mod Stores
pub mod Web
pub mod Sizes
