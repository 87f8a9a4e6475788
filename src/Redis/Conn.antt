-- ===== src/Redis/Conn.antt =====
-- The loop of a connection: `handle_conn` of src/redis.rs, over all that a client sends until it
-- closes.
pub mod Ends
use dockfoxprox.Base.{
  ℕ, zero, suc, ◌+◌, Bool, true, false, Option, none, some, List, [], ◌∷◌, ◌++◌, Bytes, length,
  if◌then◌else◌, add64,
}
use dockfoxprox.State.{State}
use dockfoxprox.Redis.Resp.{Result, ok, err, IoError, read_command}
use dockfoxprox.Redis.Commands.{Reply, run_command}

-- How a connection ends. `out_of_fuel` is no end of the code but that of the fuel.
pub data End : Type 0 where
  closed out_of_fuel : End
  failed : IoError → End

pub record Session : Type 0 where
  pub state : State
  pub output : Bytes
  pub end : End

-- A round of the loop, from what was read; `next` is the rest of the loop.
unfoldable pub round :
    (Bytes → Bool → State → Session) → Result (Option (List Bytes) × Bytes) → Bool → State → Session
round next (err e) authed s = record { state = s; output = []; end = failed e }
round next (ok (none, rest)) authed s = record { state = s; output = []; end = closed }
round next (ok (some args, rest)) authed s =
    let r = run_command args authed s in
    let more = next rest r.authed r.state in
    if r.closed
    then record { state = r.state; output = r.output; end = closed }
    else record more { output = r.output ++ more.output }

unfoldable pub serve : ℕ → Bytes → Bool → State → Session
unfolding round
serve zero input authed s = record { state = s; output = []; end = out_of_fuel }
serve (suc fuel) input authed s = round (serve fuel) (read_command input) authed s

-- `handle_conn`: a client is authenticated at once if no password is configured. A command takes a
-- byte of the input at least, so there are no more rounds than bytes, and one for the end.
unfoldable pub handle_conn : Bytes → State → Session
handle_conn input s =
    let authed : Bool = elim s.config.redis_password [ none ↦ true | some _ ↦ false ] in
    serve (length input + 1) input authed s

-- What `serve` does for a client that connects: it is counted, and its task runs.
unfoldable pub accept_conn : Bytes → State → Session
unfolding handle_conn
accept_conn input s = handle_conn input (record s {
  metrics = record (s.metrics) { redis_connections = add64 s.metrics.redis_connections 1 };
})
