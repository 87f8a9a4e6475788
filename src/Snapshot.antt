-- ===== src/Snapshot.antt =====
-- The snapshot that carries the caches over a restart, src/snapshot.rs. The coding of a snapshot as CBOR
-- and what the file system answers are parameters.
pub mod Recount
pub mod Save
pub mod Load
pub mod Accounting
pub mod RoundTrip
pub mod Files
pub mod Blobs
pub mod Rows
pub mod Restart
