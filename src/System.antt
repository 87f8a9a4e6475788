-- ===== src/System.antt =====
-- The parts of the program at work on one state: the registry, the redis server, the tasks that fill the
-- cache, the clock and the eviction, one step of one of them after the other.
pub mod Blobs
pub mod Commands
pub mod Evict
pub mod Steps
