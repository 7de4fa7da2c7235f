-- ===== src/Crypto/Bits.antt =====
-- Exclusive or on words, for every width.
use Prim.Native.Nat.{digits, bit_xor, bit_xor-bitwise, differ}
use native.Mathlib.Nat.{pow-suc}
use dpwire.Prelude.{ℕ, zero, suc, ◌+◌, ◌*◌, ◌/◌, ◌%◌, ◌^◌, ◌≤◌, ◌<◌, ◌≡◌, refl, ap, ◌∙◌, arith}

abbrev xor_digits : ℕ → ℕ → ℕ → ℕ
xor_digits n a b = digits (λ b. b) differ n a b

xor_digits_fuel : (n m a b : ℕ) → a ≤ n → a ≤ m → xor_digits n a b ≡ xor_digits m a b
xor_digits_fuel zero zero a b p q = refl
xor_digits_fuel zero (suc m) zero b p q = refl
xor_digits_fuel zero (suc m) (suc a) b p q = absurd (omega arith)
xor_digits_fuel (suc n) zero zero b p q = refl
xor_digits_fuel (suc n) zero (suc a) b p q = absurd (omega arith)
xor_digits_fuel (suc n) (suc m) zero b p q = refl
xor_digits_fuel (suc n) (suc m) (suc a) b p q =
    omega (arith, xor_digits_fuel n m (suc a / 2) (b / 2) (omega arith) (omega arith))

zero-bit_xor : (b : ℕ) → bit_xor 0 b ≡ b
zero-bit_xor b = bit_xor-bitwise 0 b

abbrev differ_zero : (y : ℕ) → differ 0 y ≡ y
differ_zero y = refl

bit_xor_step : (a b : ℕ) → bit_xor a b ≡ bit_xor (a / 2) (b / 2) * 2 + differ (a % 2) (b % 2)
bit_xor_step zero b = omega (arith, zero-bit_xor b, zero-bit_xor (b / 2))
bit_xor_step (suc a) b = omega (
  arith,
  bit_xor-bitwise (suc a) b,
  bit_xor-bitwise (suc a / 2) (b / 2),
  xor_digits_fuel a (suc a / 2) (suc a / 2) (b / 2) (omega arith) (omega arith),
)

differ_bit : (x y : ℕ) → x < 2 → y < 2 → (differ x y < 2) × (differ (differ x y) y ≡ x)
differ_bit zero zero h k = omega arith
differ_bit zero (suc zero) h k = omega arith
differ_bit (suc zero) zero h k = omega arith
differ_bit (suc zero) (suc zero) h k = omega arith
differ_bit (suc (suc x)) y h k = absurd (omega arith)
differ_bit x (suc (suc y)) h k = absurd (omega arith)

cancel_below : (k x t : ℕ) → x ≤ k → t ≤ k → bit_xor (bit_xor x t) t ≡ x
cancel_below zero zero zero h g = refl
cancel_below zero zero (suc t) h g = absurd (omega arith)
cancel_below zero (suc x) t h g = absurd (omega arith)
cancel_below (suc k) x t h g =
    let y = bit_xor x t in
    let bits = differ_bit (x % 2) (t % 2) (omega arith) (omega arith) in
    let high : y / 2 ≡ bit_xor (x / 2) (t / 2) = omega (arith, bit_xor_step x t) in
    let low : y % 2 ≡ differ (x % 2) (t % 2) = omega (arith, bit_xor_step x t) in
    let again : bit_xor (y / 2) (t / 2) ≡ x / 2 =
      ap (λ h. bit_xor h (t / 2)) high
      ∙ cancel_below k (x / 2) (t / 2) (omega arith) (omega arith) in
    let back : differ (y % 2) (t % 2) ≡ x % 2 = ap (λ l. differ l (t % 2)) low ∙ bits.1 in
    omega (arith, bit_xor_step y t, again, back)

-- `(x ^ t) ^ t == x`
pub bit_xor-bit_xor_self : (x t : ℕ) → bit_xor (bit_xor x t) t ≡ x
bit_xor-bit_xor_self x t = cancel_below (x + t) x t (omega arith) (omega arith)

-- Words stay words.
pub bit_xor-lt : (k x t : ℕ) → x < 2 ^ k → t < 2 ^ k → bit_xor x t < 2 ^ k
bit_xor-lt zero zero zero h g = omega arith
bit_xor-lt zero zero (suc t) h g = absurd (omega arith)
bit_xor-lt zero (suc x) t h g = absurd (omega arith)
bit_xor-lt (suc k) x t h g = omega (
  arith,
  bit_xor_step x t,
  differ_bit (x % 2) (t % 2) (omega arith) (omega arith),
  pow-suc 2 k,
  bit_xor-lt k (x / 2) (t / 2) (omega (arith, pow-suc 2 k)) (omega (arith, pow-suc 2 k)),
)
