-- ===== src/Redis.antt =====
-- The Redis-protocol server, src/redis.rs: `Redis.Text` and `Redis.Resp` read and write the wire
-- format, `Redis.Commands` answers one command, `Redis.Conn` is the loop of a connection.
pub mod Text
pub mod Resp
pub mod RoundTrip
pub mod Commands
pub mod Conn
pub mod Store
