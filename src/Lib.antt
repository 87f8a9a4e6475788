-- ===== src/Lib.antt =====
-- A model of dockfoxprox, a caching proxy for container registries that serves a cache over the Redis
-- protocol too, and of what makes its parts correct.
--
-- The parts of the program and how they interact. One `State` (src/state.rs) holds the caches:
-- manifests, blobs, tags, uploads, tokens and redis entries, and seven counters of the bytes that they
-- hold. The Redis server (src/redis.rs) reads commands from a connection and changes the redis entries;
-- the registry server (src/docker.rs) fills manifests and blobs; the eviction loop (src/eviction.rs)
-- runs a pass when a counter is over its limit; the snapshot (src/snapshot.rs) carries the caches over
-- a restart; the metrics (src/metrics.rs) publish the counters.
--
-- Which module models what:
--   Base       numbers, lists, maps, texts and hexadecimal digits, shared by all
--   Config     src/config.rs: the configuration
--   Digest     src/digest.rs: from_str is parse, Display is display
--   Metrics    src/metrics.rs: the record of counters; Metrics.Render is render
--   State      src/state.rs: the operations under the names of the source. State.Buckets has the
--              counters, State.Measure what they stand for, State.Accounting the proofs
--   Redis      src/redis.rs: Redis.Resp is read_command and the writers, Redis.Commands the match of
--              handle_conn arm by arm, Redis.Conn its loop
--   Docker     src/docker.rs: Docker.Route is handle_request and its dispatcher, Docker.Access the check of
--              users and hosts, Docker.Manifest and Docker.Blob the handlers of manifests and blobs and
--              the task of spawn_blob_fill, Docker.Upload the uploads, Docker.Pull the requests to
--              upstream registries, Docker.Challenge the parsing of their challenges, Docker.Text what
--              the code uses of Rust's text functions. Docker.Keeps has what requests keep
--   Eviction   src/eviction.rs: Eviction.Json is referenced_digests, Eviction.Pass the scan at the
--              start of evict, Eviction.Step the bodies of its loop, Eviction.Evict the loop, the sweep,
--              the counters it stores, and the condition in evict_loop
--   Snapshot   src/snapshot.rs: Snapshot.Save is save, Snapshot.Load is load, load_or_wipe and
--              wipe_cache, Snapshot.Recount is recompute_usage
--   Size       src/size.rs: sizes as text
--   Server     src/main.rs: the router handle and the headers of serve_connection
--   System     the parts on one state: the steps of the program in any order
--   Tests      the theorems at concrete inputs
--
-- How the code is modelled. A task runs alone: an operation is a function from the state before it to
-- the state after it, and no other task changes the maps in the middle of it. A DashMap is an
-- association list in the order of its iteration, which the library leaves open. An Arc is its value;
-- what is stored through a shared one is stored in its map. A counter is a 64-bit pattern, whose
-- additions wrap around. Sums of u64 wrap, as in a release build. `disk` holds the files under
-- blobs/ by their ids; an unlink takes place at once and succeeds. The time is the field `now`, which
-- no operation but a tick changes. Of a BinaryHeap's candidates that are equally old the first one pushed is
-- popped.
--
-- Parameters: what serde_json makes of a manifest; whether a write to disk succeeds, by the file's id;
-- the coding of a snapshot, and what the file system answers when it is written, read and removed;
-- and, in the record Libs, SHA-256, the text form of UUIDs, the coding of Base64, percent-encoding, the
-- JSON of a token, and the text of headers and statuses. The HTTP client is the record Client: its state, and
-- what it answers to a request in that state, which may be anything. Floating-point numbers (src/size.rs)
-- and the layer that sets a header (src/main.rs) are parameters too. The hasher of an upload is the
-- bytes that it was fed. What reading a request's body gives, and the UUID that a new upload gets,
-- come with the request.
--
-- Bounds and fuel. The loop of evict runs on fuel: a round takes a candidate from a heap, and a
-- candidate of the large pool comes back once at most, for the disk, so the candidates counted so are
-- enough. The loop of a connection runs on one round for each byte of the input and one more, since a
-- command takes a byte at least. The loop over the parameters of a challenge runs on one round for each
-- byte of it, and each round that goes on passes over an equals sign. A pull has three attempts, as in
-- the source.
--
-- Not modelled: the channel between a task and a client of the registry server, a client that goes away,
-- and the text of an upstream error for the log (src/docker.rs); listeners, TLS, signals, logging, the
-- clock task and the waiting of evict_loop; interleavings within an operation, which tasks of their own
-- could see: a step is a whole request, command, task or pass; the unit tests.
pub mod Base
pub mod Config
pub mod Metrics
pub mod State
pub mod Digest
pub mod Redis
pub mod Docker
pub mod Eviction
pub mod Snapshot
pub mod Size
pub mod Server
pub mod System
pub mod Tests
