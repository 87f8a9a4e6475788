-- ===== src/Docker.antt =====
-- The registry server, src/docker.rs: requests and the answers to them, the requests that it makes
-- upstream itself, and the tasks that fill the cache.
pub mod Http
pub mod Text
pub mod Access
pub mod Challenge
pub mod Pull
pub mod Upload
pub mod Manifest
pub mod Blob
pub mod Route
pub mod Keeps
