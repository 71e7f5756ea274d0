-- ===== src/Common/Text.antt =====
-- What the source uses of `str`: `trim`, `parse::<usize>`, tests on characters.
pub mod Decimal
use Prim.Native.Char.{Char, code}
use Prim.Native.String.{◌∷◌ as cons_char, [] as no_char}
use sdle_shopping_list.Common.{
  ℕ, ◌+◌, ◌*◌, ◌-◌, ◌^◌, eqb, leb, ltb, String, Bool, true, false, ◌&&◌, ◌||◌, Option, none, some,
  if◌then◌else◌,
}

-- Unicode's White_Space.
is_whitespace : Char → Bool
is_whitespace c =
    leb 9 (code c) && leb (code c) 13
    || eqb (code c) 32
    || eqb (code c) 133
    || eqb (code c) 160
    || eqb (code c) 5760
    || leb 8192 (code c) && leb (code c) 8202
    || eqb (code c) 8232
    || eqb (code c) 8233
    || eqb (code c) 8239
    || eqb (code c) 8287
    || eqb (code c) 12288

unfoldable pub is_empty : String → Bool
is_empty no_char = true
is_empty (cons_char c s) = false

trim_start : String → String
unfolding is_whitespace
trim_start no_char = no_char
trim_start (cons_char c s) =
    let rest = trim_start s in if is_whitespace c then rest else cons_char c s

trim_end : String → String
unfolding is_whitespace is_empty
trim_end no_char = no_char
trim_end (cons_char c s) =
    let rest = trim_end s in if is_empty rest && is_whitespace c then no_char else cons_char c rest

unfoldable pub trim : String → String
unfolding trim_start trim_end
trim s = trim_end (trim_start s)

unfoldable pub is_ascii_digit : Char → Bool
is_ascii_digit c = leb b'0' (code c) && leb (code c) b'9'

unfoldable pub is_ascii_alphabetic : Char → Bool
is_ascii_alphabetic c =
    leb b'a' (code c) && leb (code c) b'z' || leb b'A' (code c) && leb (code c) b'Z'

-- `.chars().all(test)`
unfoldable pub all_chars : (Char → Bool) → String → Bool
all_chars test no_char = true
all_chars test (cons_char c s) = test c && all_chars test s

-- The value of a text of digits behind `acc`.
digits : ℕ → String → Option ℕ
unfolding is_ascii_digit
digits acc no_char = some acc
digits acc (cons_char c s) =
    let rest = digits (acc * 10 + (code c - b'0')) s in if is_ascii_digit c then rest else none

below : ℕ → Option ℕ → Option ℕ
below bound none = none
below bound (some n) = if ltb n bound then some n else none

number : ℕ → String → Option ℕ
unfolding digits below
number bound no_char = none
number bound (cons_char c s) = below bound (digits 0 (cons_char c s))

-- Digits behind an optional plus sign, below the bound of the type.
parse_number : ℕ → String → Option ℕ
unfolding number
parse_number bound no_char = none
parse_number bound (cons_char c s) =
    if eqb (code c) b'+' then number bound s else number bound (cons_char c s)

-- `s.parse::<usize>().ok()`
unfoldable pub parse_usize : String → Option ℕ
unfolding parse_number
parse_usize = parse_number (2 ^ 64)

-- `s.parse::<u16>().ok()`
unfoldable pub parse_u16 : String → Option ℕ
unfolding parse_number
parse_u16 = parse_number (2 ^ 16)

-- `s.starts_with('a')`, and the rest `s[1..]` behind it.
unfoldable pub after_a : String → Option String
after_a no_char = none
after_a (cons_char c s) = if eqb (code c) b'a' then some s else none
