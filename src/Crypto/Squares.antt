-- ===== src/Crypto/Squares.antt =====
-- Powers modulo `m` by squaring, which is how a large exponent is computed.
use dpwire.Prelude.{
  ℕ, zero, suc, ◌+◌, ◌*◌, ◌/◌, ◌%◌, ◌^◌, ◌<◌, ◌≡◌, sym, ap, ◌∙◌, arith, ◌==◌, if◌then◌else◌,
  Bool-cases, inl, inr,
}
use native.Mathlib.Nat.{add-mul-mod_self_left, mod-eq_of_lt, mul_assoc, pow-suc, pow-zero}
use dpwire.Crypto.Powers.{exp_mod, exp_mod-lt, mul_mod_left, mul_mod_right}

-- `k` halvings of the exponent.
unfoldable pub by_squares : ℕ → ℕ → ℕ → ℕ → ℕ
by_squares zero x n m = 1 % m
by_squares (suc k) x n m =
    let half = by_squares k x (n / 2) m in (half * half % m * (if n % 2 == 1 then x else 1)) % m

exp_mod-add : (x a b m : ℕ) → 0 < m → exp_mod x (a + b) m ≡ exp_mod x a m * exp_mod x b m % m
unfolding exp_mod
exp_mod-add x a zero m h =
    ap (λ n. exp_mod x n m) (omega arith)
    ∙ sym (mod-eq_of_lt (exp_mod-lt x a m h))
    ∙ ap (λ u. u % m) (omega arith)
    ∙ sym (mul_mod_right (exp_mod x a m) 1 m)
exp_mod-add x a (suc b) m h =
    let one_more : a + suc b ≡ suc (a + b) = omega arith in
    ap (λ n. exp_mod x n m) one_more
    ∙ ap (λ u. u * x % m) (exp_mod-add x a b m h)
    ∙ mul_mod_left (exp_mod x a m * exp_mod x b m) x m
    ∙ ap (λ u. u % m) (mul_assoc (exp_mod x a m) (exp_mod x b m) x)
    ∙ sym (mul_mod_right (exp_mod x a m) (exp_mod x b m * x) m)

twice : (x y m : ℕ) → 0 < m → exp_mod x (y + y) m * 1 % m ≡ exp_mod x (y + y) m
twice x y m h = ap (λ u. u % m) (omega arith) ∙ mod-eq_of_lt (exp_mod-lt x (y + y) m h)

-- With a halving for each binary digit of the exponent, this is the power.
pub by_squares-exp_mod : (k x n m : ℕ) → 0 < m → n < 2 ^ k → by_squares k x n m ≡ exp_mod x n m
unfolding by_squares exp_mod
by_squares-exp_mod zero x n m h small =
    let none_left : 0 ≡ n = omega (arith, small, pow-zero 2) in ap (λ e. exp_mod x e m) none_left
by_squares-exp_mod (suc k) x n m h small =
    let y = n / 2 in
    let fits : y < 2 ^ k = omega (arith, small, pow-suc 2 k) in
    let square : by_squares k x y m * by_squares k x y m % m ≡ exp_mod x (y + y) m =
      ap (λ u. u * u % m) (by_squares-exp_mod k x y m h fits) ∙ sym (exp_mod-add x y y m h) in
    elim (Bool-cases (n % 2 == 1)) [
      | inl odd ↦
          let whole : suc (y + y) ≡ n = ground arith in
          rw (by_squares, odd) (ap (λ u. u * x % m) square ∙ ap (λ e. exp_mod x e m) whole)
      | inr even ↦
          let whole : y + y ≡ n = ground arith in
          rw (by_squares, even)
            (ap (λ u. u * 1 % m) square ∙ twice x y m h ∙ ap (λ e. exp_mod x e m) whole)
    ]

-- No power of 0 but the first is 1.
pub exp_mod_zero : (y m : ℕ) → 0 < m → exp_mod 0 (suc y) m ≡ 0
unfolding exp_mod
exp_mod_zero y m h = ap (λ u. u % m) (omega arith) ∙ mod-eq_of_lt h

-- The square of -1 is 1.
minus_one_twice : (k : ℕ) → (1 + k) * (1 + k) % (2 + k) ≡ 1
minus_one_twice k =
    let product : (1 + k) * (1 + k) ≡ 1 + (2 + k) * k = grind arith in
    ap (λ u. u % (2 + k)) product ∙ add-mul-mod_self_left 1 (2 + k) k ∙ mod-eq_of_lt (omega arith)

minus_one_even : (j k : ℕ) → exp_mod (1 + k) (j + j) (2 + k) ≡ 1
unfolding exp_mod
minus_one_even zero k = mod-eq_of_lt (omega arith)
minus_one_even (suc j) k =
    let two_more : suc j + suc j ≡ suc (suc (j + j)) = omega arith in
    ap (λ n. exp_mod (1 + k) n (2 + k)) two_more
    ∙ ap (λ u. (u * (1 + k) % (2 + k)) * (1 + k) % (2 + k)) (minus_one_even j k)
    ∙ mul_mod_left (1 * (1 + k)) (1 + k) (2 + k)
    ∙ ap (λ u. u * (1 + k) % (2 + k)) (omega arith)
    ∙ minus_one_twice k

-- An odd power of -1 is -1.
pub minus_one_odd : (j k : ℕ) → exp_mod (1 + k) (suc (j + j)) (2 + k) ≡ 1 + k
unfolding exp_mod
minus_one_odd j k =
    ap (λ u. u * (1 + k) % (2 + k)) (minus_one_even j k)
    ∙ ap (λ u. u % (2 + k)) (omega arith)
    ∙ mod-eq_of_lt (omega arith)
