-- ===== src/Redis/RoundTrip.antt =====
-- The writers of src/redis.rs against its reader: numbers, bulk strings, whole commands.
use mathlib.Core.List.{append_assoc}
use native.Mathlib.Numerals.{add-one}
use dockfoxprox.Base.{
  ℕ, zero, suc, ◌+◌, ◌-◌, ◌*◌, ◌/◌, ◌%◌, ◌^◌, ◌≤◌, ◌<◌, ◌≡◌, ◌≢◌, refl, ◌∙◌, arith, true, false,
  some, List, [], ◌∷◌, ◌++◌, Bytes, bytes, length, All, All-append, All-imp, length-append,
  take-append, drop-append, bytes_eq_refl, ltb, ◌==◌, Bool-cases, inl, inr,
}
use dockfoxprox.Redis.Text.{parse_digits, parse_usize, decimal_from, decimal}
use dockfoxprox.Redis.Resp.{
  ok, read_until, is_at, read_header_line, parse_len, read_exact, read_bulk, read_bulks,
  read_command, write_bulk,
}

abbrev IsDecimal : ℕ → Type 0
IsDecimal c = (48 ≤ c) × (c ≤ 57)

decimal_from-IsDecimal : (fuel n : ℕ) → All IsDecimal (decimal_from fuel n)
unfolding decimal_from
decimal_from-IsDecimal zero n = tt
decimal_from-IsDecimal (suc fuel) n = elim (Bool-cases (ltb n 10)) [
  | inl e ↦ rw e (ground arith)
  | inr e ↦ rw e (All-append _ _ _ (decimal_from-IsDecimal fuel (n / 10)) (omega arith))
]

parse_digits-append :
    (xs ys : Bytes) (acc a : ℕ)
    → parse_digits acc xs ≡ some a
    → parse_digits acc (xs ++ ys) ≡ parse_digits a ys
unfolding parse_digits
parse_digits-append [] ys acc a h = ground arith
parse_digits-append (x ∷ xs) ys acc a h =
    ground (arith, parse_digits-append xs ys (acc * 10 + (x - 48)) a)

parse_digits-decimal_from :
    (fuel n : ℕ) → n < fuel → n < 2 ^ 64 → parse_digits 0 (decimal_from fuel n) ≡ some n
unfolding decimal_from
parse_digits-decimal_from zero n h w = elim h [ ]
parse_digits-decimal_from (suc fuel) n h w = elim (Bool-cases (ltb n 10)) [
  | inl e ↦ rw e (unfold parse_digits in ground arith)
  | inr e ↦ rw e (
      parse_digits-append (decimal_from fuel (n / 10)) _ 0 (n / 10)
        (parse_digits-decimal_from fuel (n / 10) (ground arith) (omega arith))
      ∙ (unfold parse_digits in ground arith))
]

append-ne-nil : (s : Bytes) (c : ℕ) → s ++ c ∷ [] ≢ []
append-ne-nil [] c h = cc
append-ne-nil (x ∷ s) c h = cc

parse_usize-digits : (s : Bytes) → All IsDecimal s → s ≢ [] → parse_usize s ≡ parse_digits 0 s
unfolding parse_usize
parse_usize-digits [] d h = absurd (h refl)
parse_usize-digits (c ∷ []) d h = refl
parse_usize-digits (c ∷ x ∷ s) d h =
    let plain : (c == 43) ≡ false = ground (arith, d.0) in rw (plain, parse_usize)

decimal_from-ne-nil : (fuel n : ℕ) → decimal_from (fuel + 1) n ≢ []
unfolding decimal_from
decimal_from-ne-nil fuel n = rw add-one (elim (Bool-cases (ltb n 10)) [
  | inl e ↦ rw e (λ h. cc)
  | inr e ↦ rw e (append-ne-nil (decimal_from fuel (n / 10)) (n % 10 + 48))
])

-- A number of the machine's range reads back from its decimal digits.
pub parse_usize-decimal : (n : ℕ) → n < 2 ^ 64 → parse_usize (decimal n) ≡ some n
unfolding decimal
parse_usize-decimal n w =
    parse_usize-digits _ (decimal_from-IsDecimal (n + 1) n) (decimal_from-ne-nil n n)
    ∙ parse_digits-decimal_from (n + 1) n (omega arith) w

read_until-append :
    (line rest : Bytes)
    → All (λ c. c ≢ 10) line
    → read_until 10 (line ++ 13 ∷ 10 ∷ rest) ≡ (line ++ 13 ∷ 10 ∷ [], rest)
unfolding read_until
read_until-append [] rest h = refl
read_until-append (c ∷ line) rest h = ground (arith, read_until-append line rest h.1)

is_at_mid : (line : Bytes) (a b : ℕ) → is_at (line ++ a ∷ b ∷ []) (length line) a ≡ true
unfolding is_at
is_at_mid [] a b = ground arith
is_at_mid (c ∷ line) a b = is_at_mid line a b

is_at_last : (line : Bytes) (a b : ℕ) → is_at (line ++ a ∷ b ∷ []) (suc (length line)) b ≡ true
unfolding is_at
is_at_last [] a b = ground arith
is_at_last (c ∷ line) a b = is_at_last line a b

-- A line that ends with CRLF and has no line feed in it is read without its end.
pub read_header_line-append :
    (line rest : Bytes)
    → All (λ c. c ≢ 10) line
    → read_header_line (line ++ 13 ∷ 10 ∷ rest) ≡ ok (some line, rest)
unfolding read_header_line
read_header_line-append line rest h =
    let buf : Bytes = line ++ 13 ∷ 10 ∷ [] in
    let long : length buf ≡ suc (suc (length line)) =
      omega (arith, length-append line (13 ∷ 10 ∷ [])) in
    let last : length buf - 1 ≡ suc (length line) = omega arith in
    let mid : length buf - 2 ≡ length line = omega arith in
    let present : (length buf == 0) ≡ false = ground arith in
    let wide : ltb (length buf) 2 ≡ false = ground arith in
    rw (read_until-append line rest h)
      (rw (present, last, is_at_last line 13 10, wide, mid, is_at_mid line 13 10, take-append) refl)

-- The array of bulk strings by which a client sends a command.
unfoldable pub encode_bulks : List Bytes → Bytes
encode_bulks [] = []
encode_bulks (a ∷ args) = write_bulk a ++ encode_bulks args

unfoldable pub encode_command : List Bytes → Bytes
encode_command args = bytes "*" ++ (decimal (length args) ++ 13 ∷ 10 ∷ encode_bulks args)

-- Each argument has a length that a machine word holds.
abbrev pub IsSized : List Bytes → Type 0
IsSized = All (λ a. length a < 2 ^ 64)

decimal_line : (n : ℕ) → All (λ c. c ≢ 10) (decimal n)
unfolding decimal
decimal_line n =
    All-imp IsDecimal _ _ (λ c (p : IsDecimal c). omega arith) (decimal_from-IsDecimal (n + 1) n)

read_exact-append : (a rest : Bytes) → read_exact (length a) (a ++ rest) ≡ ok (a, rest)
unfolding read_exact
read_exact-append a rest =
    let fits : ltb (length (a ++ rest)) (length a) ≡ false = ground (arith, length-append a rest) in
    rw (fits, take-append, drop-append)

parse_len-decimal : (n : ℕ) → n < 2 ^ 64 → parse_len (decimal n) ≡ ok n
unfolding parse_len
parse_len-decimal n h = rw (parse_usize-decimal n h, parse_len)

-- A bulk string of fewer than 2^64 bytes reads back as its bytes, whatever these are, and the rest of
-- the input stays.
pub read_bulk-write_bulk :
    (a rest : Bytes) → length a < 2 ^ 64 → read_bulk (write_bulk a ++ rest) ≡ ok (a, rest)
unfolding read_bulk write_bulk
read_bulk-write_bulk a rest h = simp append_assoc (
    rw
      (
        read_header_line-append (36 ∷ decimal (length a)) (a ++ 13 ∷ 10 ∷ rest)
            (omega arith, decimal_line (length a)),
        parse_len-decimal (length a) h,
        read_exact-append a (13 ∷ 10 ∷ rest),
        read_exact-append (13 ∷ 10 ∷ []) rest,
        bytes_eq_refl,
      )
      refl)

read_bulks-encode_bulks :
    (args : List Bytes) (rest : Bytes)
    → IsSized args
    → read_bulks (length args) (encode_bulks args ++ rest) ≡ ok (args, rest)
unfolding read_bulks encode_bulks
read_bulks-encode_bulks [] rest h = refl
read_bulks-encode_bulks (a ∷ args) rest h = rw (
  append_assoc,
  read_bulk-write_bulk a (encode_bulks args ++ rest) h.0,
  read_bulks-encode_bulks args rest h.1,
)

-- A command that a client sends as an array of fewer than 2^64 bulk strings, each of fewer than 2^64
-- bytes, is read as exactly its arguments, and what the client sends behind it is left.
pub read_command-encode_command :
    (args : List Bytes) (rest : Bytes)
    → length args < 2 ^ 64
    → IsSized args
    → read_command (encode_command args ++ rest) ≡ ok (some args, rest)
unfolding read_command encode_command
read_command-encode_command args rest h sized = simp append_assoc (
    rw
      (
        read_header_line-append (42 ∷ decimal (length args)) (encode_bulks args ++ rest)
            (omega arith, decimal_line (length args)),
        parse_len-decimal (length args) h,
        read_bulks-encode_bulks args rest sized,
      )
      refl)
