-- ===== src/Redis/Text.antt =====
-- What src/redis.rs uses of Rust's text functions, over bytes: UTF-8, white space, numbers.
use dockfoxprox.Base.{
  ℕ, zero, suc, ◌+◌, ◌-◌, ◌*◌, ◌/◌, ◌%◌, ◌^◌, Bool, true, false, ◌&&◌, ◌||◌, Option, none, some,
  List, [], ◌∷◌, ◌++◌, map, Bytes, ltb, leb, ◌==◌, if◌then◌else◌,
}

abbrev between : ℕ → ℕ → ℕ → Bool
between lo hi c = leb lo c && leb c hi

-- The ranges of the bytes that have to follow a first byte of a well-formed sequence.
unfoldable pub followers : ℕ → Option (List (ℕ × ℕ))
followers c =
    if leb c 0x7f
    then some []
    else if between 0xc2 0xdf c
    then some ((0x80, 0xbf) ∷ [])
    else if c == 0xe0
    then some ((0xa0, 0xbf) ∷ (0x80, 0xbf) ∷ [])
    else if c == 0xed
    then some ((0x80, 0x9f) ∷ (0x80, 0xbf) ∷ [])
    else if between 0xe1 0xef c
    then some ((0x80, 0xbf) ∷ (0x80, 0xbf) ∷ [])
    else if c == 0xf0
    then some ((0x90, 0xbf) ∷ (0x80, 0xbf) ∷ (0x80, 0xbf) ∷ [])
    else if between 0xf1 0xf3 c
    then some ((0x80, 0xbf) ∷ (0x80, 0xbf) ∷ (0x80, 0xbf) ∷ [])
    else if c == 0xf4
    then some ((0x80, 0x8f) ∷ (0x80, 0xbf) ∷ (0x80, 0xbf) ∷ [])
    else none

utf8_from : List (ℕ × ℕ) → Bytes → Bool
unfolding followers
utf8_from [] [] = true
utf8_from (r ∷ rs) [] = false
utf8_from [] (c ∷ s) = elim (followers c) [ none ↦ false | some rs ↦ utf8_from rs s ]
utf8_from ((lo, hi) ∷ rs) (c ∷ s) = between lo hi c && utf8_from rs s

-- Whether `str::from_utf8` accepts the bytes.
unfoldable pub is_utf8 : Bytes → Bool
unfolding utf8_from
is_utf8 s = utf8_from [] s

-- The number of bytes of the white-space character (`char::is_whitespace`) that a text begins with, 0
-- if it begins with another.
unfoldable pub white_width : Bytes → ℕ
white_width [] = 0
white_width (c ∷ []) = if between 9 13 c || c == 32 then 1 else 0
white_width (c ∷ d ∷ []) =
    if between 9 13 c || c == 32 then 1 else if c == 0xc2 && (d == 0x85 || d == 0xa0) then 2 else 0
white_width (c ∷ d ∷ e ∷ _) =
    if between 9 13 c || c == 32
    then 1
    else if c == 0xc2 && (d == 0x85 || d == 0xa0)
    then 2
    else if c == 0xe1 && d == 0x9a && e == 0x80
    then 3
    else if c == 0xe2 && d == 0x80 && (between 0x80 0x8a e || e == 0xa8 || e == 0xa9 || e == 0xaf)
    then 3
    else if c == 0xe2 && d == 0x81 && e == 0x9f
    then 3
    else if c == 0xe3 && d == 0x80 && e == 0x80
    then 3
    else 0

push_word : Bytes → List Bytes → List Bytes
push_word [] ws = ws
push_word (c ∷ w) ws = (c ∷ w) ∷ ws

-- `skip` bytes of a white-space character are still to be passed over.
split_from : ℕ → Bytes → Bytes → List Bytes
unfolding white_width push_word
split_from skip word [] = push_word word []
split_from (suc skip) word (c ∷ s) = split_from skip word s
split_from zero word (c ∷ s) = elim (white_width (c ∷ s)) [
  | zero ↦ split_from zero (word ++ c ∷ []) s
  | suc more ↦ push_word word (split_from more [] s)
]

-- `str::split_whitespace`.
unfoldable pub split_whitespace : Bytes → List Bytes
unfolding split_from
split_whitespace s = split_from 0 [] s

unfoldable pub ascii_upper : ℕ → ℕ
ascii_upper c = if leb 97 c && leb c 122 then c - 32 else c

-- `str::to_ascii_uppercase`.
unfoldable pub to_ascii_uppercase : Bytes → Bytes
unfolding ascii_upper
to_ascii_uppercase = map ascii_upper

unfoldable pub parse_digits : ℕ → Bytes → Option ℕ
parse_digits acc [] = some acc
parse_digits acc (c ∷ s) =
    let n = acc * 10 + (c - 48) in
    let rest = parse_digits n s in if leb 48 c && leb c 57 && ltb n (2 ^ 64) then rest else none

-- `str::parse::<usize>` on a 64-bit machine: a plus sign may stand in front of the digits.
unfoldable pub parse_usize : Bytes → Option ℕ
unfolding parse_digits
parse_usize [] = none
parse_usize (c ∷ []) = parse_digits 0 (c ∷ [])
parse_usize (c ∷ d ∷ s) = if c == 43 then parse_digits 0 (d ∷ s) else parse_digits 0 (c ∷ d ∷ s)

unfoldable pub decimal_from : ℕ → ℕ → Bytes
decimal_from zero n = []
decimal_from (suc fuel) n =
    let above = decimal_from fuel (n / 10) in
    if ltb n 10 then (n + 48) ∷ [] else above ++ (n % 10 + 48) ∷ []

-- The decimal digits of a number.
unfoldable pub decimal : ℕ → Bytes
unfolding decimal_from
decimal n = decimal_from (n + 1) n
