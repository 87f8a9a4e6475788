-- ===== src/Redis/Resp.antt =====
-- The wire format, src/redis.rs: `read_command` and the writers. A connection's input is the list of
-- the bytes that are still to come, which ends where the client closes.
use dockfoxprox.Base.{
  ℕ, zero, suc, ◌-◌, ◌==◌, ltb, Bool, false, not, ◌||◌, Option, none, some, List, [], ◌∷◌, ◌++◌,
  Bytes, bytes, length, get_elem?, take, drop, bytes_eq, if◌then◌else◌,
}
use dockfoxprox.Redis.Text.{is_utf8, split_whitespace, parse_usize, decimal}

-- The kinds of `io::Error` that the reader returns.
pub data IoError : Type 0 where
  unexpected_eof invalid_data : IoError

pub data Result {ℓ} (A : Type ℓ) : Type ℓ where
  ok : A → Result A
  err : IoError → Result A

infixl 5 ◌>>=◌
abbrev pub ◌>>=◌ {ℓ κ} : {A : Type ℓ} {B : Type κ} → Result A → (A → Result B) → Result B
ok a >>= f = f a
err e >>= f = err e

-- `read_until`: the bytes up to the delimiter, with it, and the bytes behind.
unfoldable pub read_until : ℕ → Bytes → Bytes × Bytes
read_until delim [] = ([], [])
read_until delim (c ∷ s) =
    let more = read_until delim s in if c == delim then (c ∷ [], s) else (c ∷ more.0, more.1)

unfoldable pub is_at : Bytes → ℕ → ℕ → Bool
is_at buf i c = elim (get_elem? buf i) [ none ↦ false | some d ↦ d == c ]

-- `read_header_line`.
unfoldable pub read_header_line : Bytes → Result (Option Bytes × Bytes)
unfolding read_until is_at
read_header_line s =
    let (buf, rest) = read_until 10 s in
    if length buf == 0
    then ok (none, rest)
    else if not (is_at buf (length buf - 1) 10)
    then err unexpected_eof
    else if ltb (length buf) 2 || not (is_at buf (length buf - 2) 13)
    then err invalid_data
    else ok (some (take (length buf - 2) buf), rest)

-- `parse_len`. What is no UTF-8 is no number either.
unfoldable pub parse_len : Bytes → Result ℕ
parse_len b = elim (parse_usize b) [ none ↦ err invalid_data | some n ↦ ok n ]

-- `read_exact`.
unfoldable pub read_exact : ℕ → Bytes → Result (Bytes × Bytes)
read_exact n s = if ltb (length s) n then err unexpected_eof else ok (take n s, drop n s)

-- What stands behind the header of a bulk string, which its length's digits are from.
unfoldable pub read_payload : Bytes → Bytes → Result (Bytes × Bytes)
read_payload digits s = do
  len ← parse_len digits
  (buf, s₁) ← read_exact len s
  (crlf, s₂) ← read_exact 2 s₁
  if bytes_eq crlf (13 ∷ 10 ∷ []) then ok (buf, s₂) else err invalid_data

unfoldable pub read_bulk_of : Option Bytes × Bytes → Result (Bytes × Bytes)
unfolding read_payload
read_bulk_of (none, s) = err unexpected_eof
read_bulk_of (some [], s) = err invalid_data
read_bulk_of (some (c ∷ digits), s) =
    let payload = read_payload digits s in if c == 36 then payload else err invalid_data

-- One bulk string of the array: a round of the loop of `read_command`.
unfoldable pub read_bulk : Bytes → Result (Bytes × Bytes)
unfolding read_bulk_of
read_bulk s = do header ← read_header_line s; read_bulk_of header

unfoldable pub read_bulks : ℕ → Bytes → Result (List Bytes × Bytes)
read_bulks zero s = ok ([], s)
read_bulks (suc n) s = do (arg, s₁) ← read_bulk s; (args, s₂) ← read_bulks n s₁; ok (arg ∷ args, s₂)

unfoldable pub read_array : Bytes → Bytes → Result (Option (List Bytes) × Bytes)
read_array digits s = do n ← parse_len digits; (args, s₁) ← read_bulks n s; ok (some args, s₁)

-- An array of bulk strings, or the words of an inline command.
unfoldable pub read_command_of : Option Bytes × Bytes → Result (Option (List Bytes) × Bytes)
unfolding read_array
read_command_of (none, s) = ok (none, s)
read_command_of (some [], s) = ok (some [], s)
read_command_of (some (c ∷ line), s) =
    let items = read_array line s in
    if c == 42
    then items
    else if is_utf8 (c ∷ line)
    then ok (some (split_whitespace (c ∷ line)), s)
    else err invalid_data

-- `read_command`: the arguments, or `none` at a clean end, and the input that is left.
unfoldable pub read_command : Bytes → Result (Option (List Bytes) × Bytes)
unfolding read_command_of
read_command s = do header ← read_header_line s; read_command_of header

unfoldable pub write_simple : Bytes → Bytes
write_simple s = bytes "+" ++ s ++ 13 ∷ 10 ∷ []

unfoldable pub write_error : Bytes → Bytes
write_error s = bytes "-" ++ s ++ 13 ∷ 10 ∷ []

-- The server writes counts alone, which are not negative.
unfoldable pub write_integer : ℕ → Bytes
write_integer n = bytes ":" ++ decimal n ++ 13 ∷ 10 ∷ []

unfoldable pub write_bulk : Bytes → Bytes
write_bulk b = bytes "$" ++ (decimal (length b) ++ 13 ∷ 10 ∷ b ++ 13 ∷ 10 ∷ [])

unfoldable pub write_nil : Bytes
write_nil = bytes "$-1" ++ 13 ∷ 10 ∷ []
