-- ===== src/Redis/Conn/Ends.antt =====
-- The end of a connection's loop, `handle_conn` of src/redis.rs, and the states that it goes through.
use dockfoxprox.Base.{
  ℕ, zero, suc, ◌+◌, ◌≤◌, ◌<◌, ◌≡◌, ◌≢◌, refl, Bool, arith, Option, none, some, List, [], ◌∷◌,
  Bytes, length, drop, inl, inr, Bool-cases, ◌==◌,
}
use dockfoxprox.State.{State}
use dockfoxprox.State.Measure.{IsAccounted}
use dockfoxprox.Redis.Resp.{
  Result, ok, err, ◌>>=◌, read_until, read_header_line, parse_len, read_exact, read_payload,
  read_bulk_of, read_bulk, read_bulks, read_array, read_command_of, read_command,
}
use dockfoxprox.Redis.Commands.{run_command}
use dockfoxprox.Redis.Commands.Laws.{run_command-IsAccounted}
use dockfoxprox.Redis.Conn.{End, Session, round, serve, handle_conn}

-- What a reader leaves of the input is no longer than the input.
abbrev LeavesLess {ℓ} : {A : Type ℓ} → ℕ → Result (A × Bytes) → Type 0
LeavesLess n (err e) = Unit
LeavesLess n (ok (a, rest)) = length rest ≤ n

length-read_until :
    (d : ℕ) (s : Bytes) → length (read_until d s).0 + length (read_until d s).1 ≡ length s
unfolding read_until
length-read_until d [] = refl
length-read_until d (c ∷ s) = ground (arith, length-read_until d s)

-- A line takes a byte at least.
abbrev TakesLine : ℕ → Result (Option Bytes × Bytes) → Type 0
TakesLine n (err e) = Unit
TakesLine n (ok (none, rest)) = length rest ≤ n
TakesLine n (ok (some line, rest)) = length rest < n

read_header_line-TakesLine : (s : Bytes) → TakesLine (length s) (read_header_line s)
unfolding read_header_line
read_header_line-TakesLine s = ground (arith, length-read_until 10 s)

length-drop-le : (n : ℕ) (s : Bytes) → length (drop n s) ≤ length s
length-drop-le zero s = omega arith
length-drop-le (suc n) [] = omega arith
length-drop-le (suc n) (c ∷ s) = omega (arith, length-drop-le n s)

read_exact-LeavesLess : (n : ℕ) (s : Bytes) → LeavesLess (length s) (read_exact n s)
unfolding read_exact
read_exact-LeavesLess n s = ground (arith, length-drop-le n s)

module _ {A B : Type 0} where
  bind_LeavesLess :
      (n : ℕ) (m : Result (A × Bytes)) (f : A × Bytes → Result (B × Bytes))
      → LeavesLess n m
      → ((p : A × Bytes) → length p.1 ≤ n → LeavesLess n (f p))
      → LeavesLess n (m >>= f)
  bind_LeavesLess n (ok (a, rest)) f h k = k (a, rest) h
  bind_LeavesLess n (err e) f h k = tt

  bind_any :
      (n : ℕ) (m : Result A) (f : A → Result (B × Bytes))
      → ((a : A) → LeavesLess n (f a))
      → LeavesLess n (m >>= f)
  bind_any n (ok a) f k = k a
  bind_any n (err e) f k = tt

weaken : {A : Type 0} (n k : ℕ) (m : Result (A × Bytes)) → k ≤ n → LeavesLess k m → LeavesLess n m
weaken n k (ok (a, rest)) h l = omega arith
weaken n k (err e) h l = tt

of_TakesLine : (n : ℕ) (m : Result (Option Bytes × Bytes)) → TakesLine n m → LeavesLess n m
of_TakesLine n (ok (none, rest)) h = h
of_TakesLine n (ok (some line, rest)) h = omega arith
of_TakesLine n (err e) h = tt

exact : (n k : ℕ) (s : Bytes) → length s ≤ n → LeavesLess n (read_exact k s)
exact n k s h = weaken n (length s) (read_exact k s) h (read_exact-LeavesLess k s)

read_payload-LeavesLess : (digits s : Bytes) → LeavesLess (length s) (read_payload digits s)
unfolding read_payload
read_payload-LeavesLess digits s = bind_any (length s) (parse_len digits) _ (λ len.
    bind_LeavesLess (length s) (read_exact len s) _ (exact _ len s (omega arith)) (λ p h.
      bind_LeavesLess (length s) (read_exact 2 p.1) _ (exact _ 2 p.1 h) (λ q h'. ground arith)))

read_bulk_of-LeavesLess : (p : Option Bytes × Bytes) → LeavesLess (length p.1) (read_bulk_of p)
unfolding read_bulk_of
read_bulk_of-LeavesLess (none, s) = tt
read_bulk_of-LeavesLess (some [], s) = tt
read_bulk_of-LeavesLess (some (c ∷ digits), s) = elim (Bool-cases (c == 36)) [
  | inl e ↦ rw e (read_payload-LeavesLess digits s)
  | inr e ↦ rw e tt
]

read_bulk-LeavesLess : (s : Bytes) → LeavesLess (length s) (read_bulk s)
unfolding read_bulk
read_bulk-LeavesLess s =
    bind_LeavesLess (length s) (read_header_line s) _
      (of_TakesLine (length s) (read_header_line s) (read_header_line-TakesLine s))
      (λ p h. weaken _ _ (read_bulk_of p) h (read_bulk_of-LeavesLess p))

read_bulks-LeavesLess : (n : ℕ) (s : Bytes) → LeavesLess (length s) (read_bulks n s)
unfolding read_bulks
read_bulks-LeavesLess zero s = omega arith
read_bulks-LeavesLess (suc n) s =
    bind_LeavesLess (length s) (read_bulk s) _ (read_bulk-LeavesLess s) (λ p h.
      bind_LeavesLess (length s) (read_bulks n p.1) _
        (weaken _ _ (read_bulks n p.1) h (read_bulks-LeavesLess n p.1)) (λ q h'. h'))

read_array-LeavesLess : (digits s : Bytes) → LeavesLess (length s) (read_array digits s)
unfolding read_array
read_array-LeavesLess digits s =
    bind_any (length s) (parse_len digits) _
      (λ n. bind_LeavesLess (length s) (read_bulks n s) _ (read_bulks-LeavesLess n s) (λ p h. h))

-- A command that was read took a byte of the input at least.
abbrev TakesCommand : ℕ → Result (Option (List Bytes) × Bytes) → Type 0
TakesCommand n (err e) = Unit
TakesCommand n (ok (none, rest)) = Unit
TakesCommand n (ok (some args, rest)) = length rest < n

takes :
    (n k : ℕ) (m : Result (Option (List Bytes) × Bytes)) → k < n → LeavesLess k m → TakesCommand n m
takes n k (ok (none, rest)) h l = tt
takes n k (ok (some args, rest)) h l = omega arith
takes n k (err e) h l = tt

read_command_of-TakesCommand :
    (n : ℕ) (m : Result (Option Bytes × Bytes))
    → TakesLine n m
    → TakesCommand n (m >>= read_command_of)
unfolding read_command_of
read_command_of-TakesCommand n (err e) h = tt
read_command_of-TakesCommand n (ok (none, s)) h = tt
read_command_of-TakesCommand n (ok (some [], s)) h = h
read_command_of-TakesCommand n (ok (some (c ∷ line), s)) h = elim (Bool-cases (c == 42)) [
  | inl e ↦ rw e (takes n (length s) (read_array line s) h (read_array-LeavesLess line s))
  | inr e ↦ rw e (ground arith)
]

read_command-TakesCommand : (s : Bytes) → TakesCommand (length s) (read_command s)
unfolding read_command
read_command-TakesCommand s =
    read_command_of-TakesCommand (length s) (read_header_line s) (read_header_line-TakesLine s)

module _ (next : Bytes → Bool → State → Session) where
  round_ends :
      (n : ℕ) (m : Result (Option (List Bytes) × Bytes)) (authed : Bool) (s : State)
      → TakesCommand n m
      → ((rest : Bytes) (a : Bool) (t : State)
          → length rest < n
          → (next rest a t).end ≢ End.out_of_fuel)
      → (round next m authed s).end ≢ End.out_of_fuel
  unfolding round
  round_ends n (err e) authed s h k = λ p. cc
  round_ends n (ok (none, rest)) authed s h k = λ p. cc
  round_ends n (ok (some args, rest)) authed s h k =
      let r = run_command args authed s in
      elim (Bool-cases r.closed) [
        | inl e ↦ rw e (λ p. cc)
        | inr e ↦ rw e (k rest r.authed r.state h)
      ]

  round_keeps :
      (P : State → Type 0) (m : Result (Option (List Bytes) × Bytes)) (authed : Bool) (s : State)
      → ((args : List Bytes) (a : Bool) (t : State) → P t → P (run_command args a t).state)
      → ((rest : Bytes) (a : Bool) (t : State) → P t → P (next rest a t).state)
      → P s
      → P (round next m authed s).state
  unfolding round
  round_keeps P (err e) authed s one k h = h
  round_keeps P (ok (none, rest)) authed s one k h = h
  round_keeps P (ok (some args, rest)) authed s one k h =
      let r = run_command args authed s in
      elim (Bool-cases r.closed) [
        | inl e ↦ rw e (one args authed s h)
        | inr e ↦ rw e (k rest r.authed r.state (one args authed s h))
      ]

serve_ends :
    (fuel : ℕ) (input : Bytes) (authed : Bool) (s : State)
    → length input < fuel
    → (serve fuel input authed s).end ≢ End.out_of_fuel
unfolding serve
serve_ends zero input authed s h = elim h [ ]
serve_ends (suc fuel) input authed s h =
    round_ends (serve fuel) (length input) (read_command input) authed s
      (read_command-TakesCommand input) (λ rest a t l. serve_ends fuel rest a t (omega arith))

-- A connection ends for every input: by the client, by QUIT or by an error of the protocol.
pub handle_conn_ends : (input : Bytes) (s : State) → (handle_conn input s).end ≢ End.out_of_fuel
unfolding handle_conn
handle_conn_ends input s = serve_ends (length input + 1) input _ s (omega arith)

serve_keeps :
    (P : State → Type 0) (fuel : ℕ) (input : Bytes) (authed : Bool) (s : State)
    → ((args : List Bytes) (a : Bool) (t : State) → P t → P (run_command args a t).state)
    → P s
    → P (serve fuel input authed s).state
unfolding serve
serve_keeps P zero input authed s one h = h
serve_keeps P (suc fuel) input authed s one h =
    round_keeps (serve fuel) P (read_command input) authed s one
      (λ rest a t. serve_keeps P fuel rest a t one) h

-- What every command keeps, a whole connection keeps.
pub handle_conn_keeps :
    (P : State → Type 0) (input : Bytes) (s : State)
    → ((args : List Bytes) (a : Bool) (t : State) → P t → P (run_command args a t).state)
    → P s
    → P (handle_conn input s).state
unfolding handle_conn
handle_conn_keeps P input s one h = serve_keeps P (length input + 1) input _ s one h

-- If every usage counter holds the bytes of its bucket, modulo 2^64, it does so when a connection has
-- ended, whatever the client sent.
pub handle_conn-IsAccounted :
    (input : Bytes) (s : State) → IsAccounted s → IsAccounted (handle_conn input s).state
handle_conn-IsAccounted input s h = handle_conn_keeps IsAccounted input s run_command-IsAccounted h
