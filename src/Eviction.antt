-- ===== src/Eviction.antt =====
-- The eviction pass, src/eviction.rs: `Eviction.Json` finds the digests that a manifest refers to,
-- `Eviction.Pass` is the bookkeeping of a pass and its first scan, `Eviction.Step` what happens to one
-- candidate, `Eviction.Evict` the loop, the sweep and the whole pass.
pub mod Json
pub mod Pass
pub mod Step
pub mod Evict
pub mod Heaps
pub mod Ends
pub mod Frame
pub mod Listed
pub mod Budget
pub mod Keeps
