-- ===== src/Common/Text/Decimal.antt =====
-- Numbers as texts: what `{}` prints, and that it parses back.
use Prim.Native.Char.{Char, code}
use text.Mathlib.TextLemmas.{append_assoc, append-nil, nil-append, cons-append}
use Prim.Native.String.{◌++◌ as append, ◌∷◌ as cons_char, [] as no_char}
use sdle_shopping_list.Common.{
  ℕ, zero, suc, ◌+◌, ◌*◌, ◌-◌, ◌/◌, ◌%◌, ◌^◌, ◌<◌, ◌==◌, nat_eq, ltb, String, true, false, some,
  ◌≡◌, refl, ap, sym, ◌∙◌, arith, if◌then◌else◌, Bool-cases, inl, inr,
}
use sdle_shopping_list.Common.Text.{
  is_whitespace, is_empty, trim_start, trim_end, trim, is_ascii_digit, all_chars, digits, below,
  number, parse_number, parse_u16,
}

digit : ℕ → String
digit d =
    if d == 0
    then "0"
    else if d == 1
    then "1"
    else if d == 2
    then "2"
    else if d == 3
    then "3"
    else if d == 4
    then "4"
    else if d == 5
    then "5"
    else if d == 6
    then "6"
    else if d == 7
    then "7"
    else if d == 8
    then "8"
    else "9"

-- `{}` of an unsigned number: its decimal digits. A number has fewer than `n + 1` of them.
unfoldable pub decimal : ℕ → ℕ → String
unfolding digit
decimal zero n = ""
decimal (suc fuel) n =
    let front = decimal fuel (n / 10) in if ltb n 10 then digit n else append front (digit (n % 10))

-- A digit is one character.
digit_char : (n : ℕ) → n < 10 → (c : Char) × (digit n ≡ cons_char c no_char) × (code c ≡ b'0' + n)
unfolding digit
digit_char zero h = ("0", refl, refl)
digit_char (suc zero) h = ("1", refl, refl)
digit_char (suc (suc zero)) h = ("2", refl, refl)
digit_char (suc (suc (suc zero))) h = ("3", refl, refl)
digit_char (suc (suc (suc (suc zero)))) h = ("4", refl, refl)
digit_char (suc (suc (suc (suc (suc zero))))) h = ("5", refl, refl)
digit_char (suc (suc (suc (suc (suc (suc zero)))))) h = ("6", refl, refl)
digit_char (suc (suc (suc (suc (suc (suc (suc zero))))))) h = ("7", refl, refl)
digit_char (suc (suc (suc (suc (suc (suc (suc (suc zero)))))))) h = ("8", refl, refl)
digit_char (suc (suc (suc (suc (suc (suc (suc (suc (suc zero))))))))) h = ("9", refl, refl)
digit_char (suc (suc (suc (suc (suc (suc (suc (suc (suc (suc n)))))))))) h = absurd (omega arith)

digits-digit :
    (acc n : ℕ) (t : String) → n < 10 → digits acc (append (digit n) t) ≡ digits (acc * 10 + n) t
unfolding digits is_ascii_digit
digits-digit acc n t h =
    let (c, e, k) = digit_char n h in
    let value : code c - b'0' ≡ n = omega arith in
    let is_digit : is_ascii_digit c ≡ true = ground arith in
    rw (e, cons-append, nil-append, is_digit, value) refl

digits-decimal :
    (fuel n : ℕ) (t : String) → n < fuel → digits 0 (append (decimal fuel n) t) ≡ digits n t
unfolding decimal
digits-decimal zero n t h = absurd (omega arith)
digits-decimal (suc fuel) n t h = elim (Bool-cases (ltb n 10)) [
  | inl small ↦ rw small (digits-digit 0 n t (ground arith) ∙ ap (λ k. digits k t) (omega arith))
  | inr large ↦ rw large (
      ap (digits 0) (append_assoc (decimal fuel (n / 10)) (digit (n % 10)) t)
      ∙ digits-decimal fuel (n / 10) (append (digit (n % 10)) t) (ground arith)
      ∙ digits-digit (n / 10) (n % 10) t (omega arith)
      ∙ ap (λ k. digits k t) (omega arith))
]

-- A number prints as digits, at least one.
all_digits-append :
    (s t : String)
    → all_chars is_ascii_digit s ≡ true
    → all_chars is_ascii_digit t ≡ true
    → all_chars is_ascii_digit (append s t) ≡ true
unfolding all_chars
all_digits-append no_char t h k = rw nil-append k
all_digits-append (cons_char c s) t h k = rw cons-append (ground (arith, h, all_digits-append s t))

all_digits-digit : (n : ℕ) → n < 10 → all_chars is_ascii_digit (digit n) ≡ true
unfolding all_chars is_ascii_digit
all_digits-digit n h = let (c, e, k) = digit_char n h in rw e (ground arith)

all_digits-decimal : (fuel n : ℕ) → all_chars is_ascii_digit (decimal fuel n) ≡ true
unfolding decimal
all_digits-decimal zero n = unfold all_chars in refl
all_digits-decimal (suc fuel) n = elim (Bool-cases (ltb n 10)) [
  | inl small ↦ rw small (all_digits-digit n (ground arith))
  | inr large ↦ rw large (
      all_digits-append (decimal fuel (n / 10)) (digit (n % 10)) (all_digits-decimal fuel (n / 10))
        (all_digits-digit (n % 10) (omega arith)))
]

-- A line of digits is trimmed to them.
trim_end-line : (s : String) → all_chars is_ascii_digit s ≡ true → trim_end (append s "\n") ≡ s
unfolding trim_end all_chars is_ascii_digit is_whitespace is_empty
trim_end-line no_char h = refl
trim_end-line (cons_char c s) h = rw (cons-append, trim_end) (ground (arith, trim_end-line s))

trim_start-digits :
    (s : String)
    → all_chars is_ascii_digit s ≡ true
    → is_empty s ≡ false
    → (t : String) → trim_start (append s t) ≡ append s t
unfolding trim_start all_chars is_ascii_digit is_whitespace is_empty
trim_start-digits no_char h k t = absurd (ground arith)
trim_start-digits (cons_char c s) h k t = rw cons-append (ground arith)

parse-digits :
    (bound : ℕ) (s : String)
    → all_chars is_ascii_digit s ≡ true
    → is_empty s ≡ false
    → parse_number bound s ≡ below bound (digits 0 s)
unfolding parse_number number all_chars is_ascii_digit is_empty
parse-digits bound no_char h k = absurd (ground arith)
parse-digits bound (cons_char c s) h k = ground arith

is_empty-append : (s t : String) → is_empty t ≡ false → is_empty (append s t) ≡ false
unfolding is_empty
is_empty-append no_char t h = rw nil-append h
is_empty-append (cons_char c s) t h = rw cons-append refl

is_empty-digit : (n : ℕ) → n < 10 → is_empty (digit n) ≡ false
unfolding is_empty
is_empty-digit n h = let (c, e, k) = digit_char n h in rw e refl

decimal-ne-empty : (fuel n : ℕ) → is_empty (decimal (suc fuel) n) ≡ false
unfolding decimal is_empty
decimal-ne-empty fuel n = elim (Bool-cases (ltb n 10)) [
  | inl small ↦ rw small (is_empty-digit n (ground arith))
  | inr large ↦ rw large (
      is_empty-append (decimal fuel (n / 10)) (digit (n % 10))
        (is_empty-digit (n % 10) (omega arith)))
]

-- A u16 that is printed on a line parses back.
pub parse_u16-decimal :
    (n : ℕ) → n < 2 ^ 16 → parse_u16 (trim (append (decimal (suc n) n) "\n")) ≡ some n
unfolding parse_u16 trim
parse_u16-decimal n h =
    let s = decimal (suc n) n in
    let ds = all_digits-decimal (suc n) n in
    let full = decimal-ne-empty n n in
    let value : digits 0 s ≡ some n =
      ap (digits 0) (sym (append-nil s)) ∙ digits-decimal (suc n) n "" (omega arith) in
    rw
      (trim_start-digits s ds full "\n", trim_end-line s ds, parse-digits (2 ^ 16) s ds full, value)
      (unfold below in ground (arith, h))
