-- ===== src/Eviction/Keeps.antt =====
-- What a pass of `evict` (src/eviction.rs) may take out of the cache: `Keeps.Tracked` is the invariant of
-- one blob, `Keeps.Spill` and `Keeps.Drop` keep it through a round, `Keeps.Scan` establishes it, and
-- `Keeps.Whole` has the statement about the pass.
pub mod Tracked
pub mod Spill
pub mod Drop
pub mod Scan
pub mod Whole
