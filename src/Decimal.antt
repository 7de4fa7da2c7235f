-- ===== src/Decimal.antt =====
-- Decimal texts: `strconv.Itoa`, `strconv.Atoi`, `strconv.ParseUint(s, 10, 64)` and `%06d`, as the
-- program uses them. A Go `int` is an int64 here.
pub mod RoundTrip
use dpwire.Prelude.{
  ℕ, zero, suc, ◌+◌, ◌-◌, ◌*◌, ◌/◌, ◌%◌, ◌^◌, Bool, true, false, ◌&&◌, ◌||◌, Option, none, some,
  List, [], ◌∷◌, ◌++◌, Bytes, length, replicate, ltb, leb, ◌==◌, if◌then◌else◌,
}

-- `negsuc n` is -(n + 1).
pub data ℤ : Type 0 where
  pos : ℕ → ℤ
  negsuc : ℕ → ℤ

abbrev pub max_int64 : ℕ
max_int64 = 2 ^ 63 - 1

abbrev pub max_uint64 : ℕ
max_uint64 = 2 ^ 64 - 1

-- The digits of `n`, with fuel above `n`.
unfoldable pub digits : ℕ → ℕ → Bytes
digits zero n = []
digits (suc f) n =
    let more = digits f (n / 10) in
    if ltb n 10 then (b'0' + n) ∷ [] else more ++ (b'0' + n % 10) ∷ []

unfoldable pub format_nat : ℕ → Bytes
format_nat n = digits (suc n) n

unfoldable pub itoa : ℤ → Bytes
itoa (pos n) = format_nat n
itoa (negsuc n) = b'-' ∷ format_nat (suc n)

-- `fmt.Sprintf("%06d", n)`
unfoldable pub format_padded : ℕ → Bytes
format_padded n = let s = format_nat n in replicate (6 - length s) b'0' ++ s

abbrev pub is_digit : ℕ → Bool
is_digit c = leb b'0' c && leb c b'9'

-- The number that a text of digits spells behind `n`.
unfoldable pub read_digits : Bytes → ℕ → Option ℕ
read_digits [] n = some n
read_digits (c ∷ cs) n =
    let rest = read_digits cs (n * 10 + (c - b'0')) in if is_digit c then rest else none

-- A text with no digit is a syntax error.
unfoldable pub read_number : Bytes → Option ℕ
read_number [] = none
read_number (c ∷ cs) = read_digits (c ∷ cs) 0

-- The value and whether there was no error; out of range the value is the nearest bound.
pub record Parsed : Type 0 where
  pub value : ℤ
  pub good : Bool

abbrev syntax_error : Parsed
syntax_error = record { value = pos 0; good = false }

signed : Bool → Option ℕ → Parsed
signed negative none = syntax_error
signed false (some n) =
    if leb n max_int64
    then record { value = pos n; good = true }
    else record { value = pos max_int64; good = false }
signed true (some zero) = record { value = pos 0; good = true }
signed true (some (suc n)) =
    if leb n max_int64
    then record { value = negsuc n; good = true }
    else record { value = negsuc max_int64; good = false }

-- `strconv.Atoi`: on a range error the value is the nearest int64, and on a syntax error 0. A numeral that is too
-- long and has another character later is a syntax error here, where Go reports the range.
unfoldable pub atoi : Bytes → Parsed
unfolding signed
atoi [] = syntax_error
atoi (c ∷ cs) =
    if c == b'-'
    then signed true (read_number cs)
    else if c == b'+'
    then signed false (read_number cs)
    else signed false (read_number (c ∷ cs))

-- `n + 1` on an int64.
unfoldable pub next_int64 : ℤ → ℤ
next_int64 (pos n) = if n == max_int64 then negsuc max_int64 else pos (n + 1)
next_int64 (negsuc zero) = pos 0
next_int64 (negsuc (suc n)) = negsuc n

-- `strconv.ParseUint(s, 10, 64)`, where `none` is any error.
unfoldable pub parse_uint64 : Bytes → Option ℕ
parse_uint64 s = elim (read_number s) [
  | none ↦ none
  | some n ↦ if leb n max_uint64 then some n else none
]
