-- ===== src/Decimal/RoundTrip.antt =====
-- Decimal texts are read back: `Atoi(Itoa(n))`, `ParseUint(Itoa(n))`, and `%06d` names one number.
use dpwire.Prelude.{
  ℕ, zero, suc, ◌+◌, ◌-◌, ◌*◌, ◌/◌, ◌%◌, ◌≤◌, ◌<◌, ◌≡◌, ◌≢◌, refl, ap, ◌∙◌, true, Option, none,
  some, [], ◌∷◌, ◌++◌, arith, Bytes, length, replicate, Bool-cases, inl, inr, ltb, ltb→lt,
}
use dpwire.Decimal.{
  pos, max_int64, max_uint64, digits, format_nat, format_padded, read_digits, read_number, atoi,
  parse_uint64,
}

-- Reading a text with one more digit.
abbrev then_digit : Option ℕ → ℕ → Option ℕ
then_digit none c = none
then_digit (some m) c = some (m * 10 + (c - b'0'))

read_digits-concat :
    (xs : Bytes) (n c : ℕ)
    → b'0' ≤ c
    → c ≤ b'9'
    → read_digits (xs ++ c ∷ []) n ≡ then_digit (read_digits xs n) c
unfolding read_digits
read_digits-concat [] n c lo hi = ground arith
read_digits-concat (x ∷ xs) n c lo hi =
    ground (arith, read_digits-concat xs (n * 10 + (x - b'0')) c lo hi)

read_digits_one : (d : ℕ) → d < 10 → read_digits ((b'0' + d) ∷ []) 0 ≡ some d
unfolding read_digits
read_digits_one d h = ground arith

read_digits-digits : (f n : ℕ) → n < f → read_digits (digits f n) 0 ≡ some n
unfolding digits
read_digits-digits zero n h = absurd (omega arith)
read_digits-digits (suc f) n h = elim (Bool-cases (ltb n 10)) [
  | inl small ↦ rw small (read_digits_one n (ltb→lt n 10 small))
  | inr large ↦ rw large (
      ground (
        arith,
        read_digits-concat (digits f (n / 10)) 0 (b'0' + n % 10) (omega arith) (omega arith),
        read_digits-digits f (n / 10),
      ))
]

-- The first byte is a digit: there is no sign, and the text is not empty.
abbrev StartsDigit : Bytes → Type 0
StartsDigit [] = ⊥
StartsDigit (c ∷ cs) = (b'0' ≤ c) × (c ≤ b'9')

StartsDigit-append : (xs ys : Bytes) → StartsDigit xs → StartsDigit (xs ++ ys)
StartsDigit-append [] ys h = absurd h
StartsDigit-append (x ∷ xs) ys h = h

digits-StartsDigit : (f n : ℕ) → n < f → StartsDigit (digits f n)
unfolding digits
digits-StartsDigit zero n h = absurd (omega arith)
digits-StartsDigit (suc f) n h = elim (Bool-cases (ltb n 10)) [
  | inl small ↦ rw small (omega (arith, ltb→lt n 10 small))
  | inr large ↦ rw large (StartsDigit-append _ _ (digits-StartsDigit f (n / 10) (ground arith)))
]

read_number-of_digit : (s : Bytes) → StartsDigit s → read_number s ≡ read_digits s 0
unfolding read_number
read_number-of_digit [] h = absurd h
read_number-of_digit (c ∷ cs) h = refl

read_number-format_nat : (n : ℕ) → read_number (format_nat n) ≡ some n
unfolding format_nat
read_number-format_nat n =
    read_number-of_digit _ (digits-StartsDigit (suc n) n (omega arith))
    ∙ read_digits-digits (suc n) n (omega arith)

atoi-of_digit :
    (s : Bytes) (n : ℕ)
    → StartsDigit s
    → read_number s ≡ some n
    → n ≤ max_int64
    → atoi s ≡ record { value = pos n; good = true }
unfolding atoi
atoi-of_digit [] n h e fits = absurd h
atoi-of_digit (c ∷ cs) n h e fits = ground arith

-- `Atoi` reads back what `Itoa` prints, for every number in range.
pub atoi-format_nat :
    (n : ℕ) → n ≤ max_int64 → atoi (format_nat n) ≡ record { value = pos n; good = true }
atoi-format_nat n =
    atoi-of_digit (format_nat n) n (unfold format_nat in digits-StartsDigit (suc n) n (omega arith))
      (read_number-format_nat n)

-- `ParseUint` reads back what `Itoa` prints, for every uint64.
pub parse_uint64-format_nat : (n : ℕ) → n ≤ max_uint64 → parse_uint64 (format_nat n) ≡ some n
unfolding parse_uint64
parse_uint64-format_nat n fits = ground (arith, read_number-format_nat n)

read_digits-replicate :
    (k : ℕ) (s : Bytes) → read_digits (replicate k b'0' ++ s) 0 ≡ read_digits s 0
unfolding read_digits
read_digits-replicate zero s = refl
read_digits-replicate (suc k) s = read_digits-replicate k s

read_digits-format_padded : (n : ℕ) → read_digits (format_padded n) 0 ≡ some n
unfolding format_padded format_nat
read_digits-format_padded n =
    read_digits-replicate (6 - length (digits (suc n) n)) _
    ∙ read_digits-digits (suc n) n (omega arith)

-- `%06d` names one number.
pub format_padded-injective : (m n : ℕ) → format_padded m ≡ format_padded n → m ≡ n
format_padded-injective m n e =
    cc (read_digits-format_padded m, read_digits-format_padded n, ap (λ s. read_digits s 0) e)

pub format_nat-injective : (m n : ℕ) → format_nat m ≡ format_nat n → m ≡ n
format_nat-injective m n e =
    cc (read_number-format_nat m, read_number-format_nat n, ap read_number e)

StartsDigit-ne-nil : (s : Bytes) → StartsDigit s → s ≢ []
StartsDigit-ne-nil [] h e = h
StartsDigit-ne-nil (c ∷ cs) h e = cc

pub format_nat-ne-nil : (n : ℕ) → format_nat n ≢ []
unfolding format_nat
format_nat-ne-nil n = StartsDigit-ne-nil _ (digits-StartsDigit (suc n) n (omega arith))
