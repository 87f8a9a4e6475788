-- ===== src/Tests/Protocol.antt =====
-- The theorems on src/digest.rs, src/redis.rs and src/metrics.rs at concrete inputs.
use dockfoxprox.Base.{
  ◌≡◌, ◌≢◌, refl, arith, true, false, some, List, [], ◌∷◌, ◌++◌, Bytes, bytes, map, inl, inr,
}
use dockfoxprox.Base.Map.{lookup}
use dockfoxprox.Base.Text.{bytes_key, bytes_eq}
use native.Mathlib.Decide.{ℕ_discrete}
use dockfoxprox.Redis.Text.{is_utf8, to_ascii_uppercase}
use dockfoxprox.Base.Hex.{ascii_lower, to_digit, hex_digit}
use dockfoxprox.Digest.{parse, display}
use dockfoxprox.Digest.RoundTrip.{IsDigest, parse-display, display-parse}
use dockfoxprox.Redis.Resp.{ok, write_bulk, write_nil, read_command}
use dockfoxprox.Redis.RoundTrip.{encode_command, read_command-encode_command}
use dockfoxprox.Redis.Commands.{
  run_command, execute, get, set, del, auth, verb_of, command_name, dispatch, run_auth,
  given_password,
}
use dockfoxprox.Redis.Commands.Laws.{run_command-IsAccounted}
use dockfoxprox.Redis.Commands.Access.{
  Admitted, run_command_unauthenticated, run_command-Admitted, get-set, get-del,
}
use dockfoxprox.Redis.Conn.{End, handle_conn}
use dockfoxprox.Redis.Conn.Ends.{handle_conn_ends, handle_conn-IsAccounted}
use dockfoxprox.State.Measure.{IsAccounted}
use dockfoxprox.Tests.Data.{start, start-IsAccounted, filled, layer}

parse-display_example : parse (display layer) ≡ some layer
parse-display_example = parse-display layer (refl, ground arith)

display-parse_example : IsDigest layer × (display layer ≡ map ascii_lower (display layer))
unfolding parse display to_digit hex_digit ℕ_discrete
display-parse_example = display-parse (display layer) {d = layer} refl

abbrev ping_line : List Bytes
ping_line = bytes "PING" ∷ bytes "you" ∷ []

read_command_example :
    read_command (encode_command ping_line ++ bytes "rest") ≡ ok (some ping_line, bytes "rest")
read_command_example =
    read_command-encode_command ping_line (bytes "rest") (omega arith)
      (omega arith, (omega arith, tt))

abbrev auth_line : List Bytes
auth_line = bytes "AUTH" ∷ bytes "secret" ∷ []

run_command-IsAccounted_example : IsAccounted (run_command auth_line false start).state
run_command-IsAccounted_example = run_command-IsAccounted auth_line false start start-IsAccounted

run_command_unauthenticated_example :
    (run_command (bytes "FLUSHALL" ∷ []) false filled).state
    ≡ record filled { metrics = (run_command (bytes "FLUSHALL" ∷ []) false filled).state.metrics }
run_command_unauthenticated_example = run_command_unauthenticated (bytes "FLUSHALL" ∷ []) filled

right_password : (run_command (bytes "auth" ∷ bytes "secret" ∷ []) false start).authed ≡ true
unfolding run_command dispatch verb_of bytes_eq command_name is_utf8 to_ascii_uppercase run_auth
    given_password
right_password = refl

run_command-Admitted_example :
    (verb_of (command_name (bytes "auth")) ≡ auth) × Admitted (bytes "secret" ∷ []) start
run_command-Admitted_example =
    run_command-Admitted (bytes "auth") (bytes "secret" ∷ []) start right_password

get-set_example :
    (execute get (bytes "k" ∷ []) (execute set (bytes "k" ∷ bytes "v" ∷ []) filled).0).1
    ≡ write_bulk (bytes "v")
get-set_example = get-set (bytes "k") (bytes "v") [] filled

get-del_example :
    (execute get (bytes "k" ∷ []) (execute del (bytes "j" ∷ bytes "k" ∷ []) filled).0).1 ≡ write_nil
unfolding lookup
get-del_example =
    get-del (bytes "k") (bytes "j" ∷ bytes "k" ∷ []) filled (refl, tt) (inr (inl refl))

handle_conn_ends_example : (handle_conn (bytes "*1") start).end ≢ End.out_of_fuel
handle_conn_ends_example = handle_conn_ends (bytes "*1") start

handle_conn-IsAccounted_example : IsAccounted (handle_conn (encode_command auth_line) start).state
handle_conn-IsAccounted_example =
    handle_conn-IsAccounted (encode_command auth_line) start start-IsAccounted
