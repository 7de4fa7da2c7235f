-- ===== src/Crypto/Powers.antt =====
-- big.Int's `Exp(x, y, m)`: powers modulo `m`.
use dpwire.Prelude.{ℕ, zero, suc, ◌+◌, ◌*◌, ◌/◌, ◌%◌, ◌^◌, ◌<◌, ◌≡◌, refl, sym, ap, ◌∙◌, arith}
use native.Mathlib.Nat.{
  mod-add-div, add-mul-mod_self_left, mod-lt, mul_assoc, mul_comm, add-mul, mod-eq_of_lt, pow-suc,
  pow-zero,
}

unfoldable pub exp_mod : ℕ → ℕ → ℕ → ℕ
exp_mod x zero m = 1 % m
exp_mod x (suc y) m = (exp_mod x y m * x) % m

pub exp_mod-lt : (x y m : ℕ) → 0 < m → exp_mod x y m < m
unfolding exp_mod
exp_mod-lt x zero m h = mod-lt 1 h
exp_mod-lt x (suc y) m h = mod-lt (exp_mod x y m * x) h

-- A factor may be reduced first.
pub mul_mod_left : (u v m : ℕ) → (u % m) * v % m ≡ u * v % m
mul_mod_left u v m =
    let split : u * v ≡ (u % m) * v + m * ((u / m) * v) =
      ap (λ w. w * v) (sym (mod-add-div u m))
      ∙ add-mul (u % m) (m * (u / m)) v
      ∙ ap (λ w. (u % m) * v + w) (mul_assoc m (u / m) v) in
    sym (ap (λ w. w % m) split ∙ add-mul-mod_self_left ((u % m) * v) m ((u / m) * v))

pub mul_mod_right : (u v m : ℕ) → u * (v % m) % m ≡ u * v % m
mul_mod_right u v m =
    ap (λ w. w % m) (mul_comm u (v % m)) ∙ mul_mod_left v u m ∙ ap (λ w. w % m) (mul_comm v u)

exp_mod-pow : (x y m : ℕ) → exp_mod x y m ≡ x ^ y % m
unfolding exp_mod
exp_mod-pow x zero m = ap (λ w. w % m) (sym (pow-zero x))
exp_mod-pow x (suc y) m =
    ap (λ w. w * x % m) (exp_mod-pow x y m)
    ∙ mul_mod_left (x ^ y) x m
    ∙ ap (λ w. w % m) (sym (pow-suc x y))

-- The base may be reduced first.
exp_mod_base : (u y m : ℕ) → exp_mod (u % m) y m ≡ exp_mod u y m
unfolding exp_mod
exp_mod_base u zero m = refl
exp_mod_base u (suc y) m =
    ap (λ w. w * (u % m) % m) (exp_mod_base u y m) ∙ mul_mod_right (exp_mod u y m) u m

one_pow : (b : ℕ) → 1 ^ b ≡ 1
one_pow zero = pow-zero 1
one_pow (suc b) = omega (arith, pow-suc 1 b, one_pow b)

mul_pow : (x y b : ℕ) → (x * y) ^ b ≡ x ^ b * y ^ b
mul_pow x y zero = rw (pow-zero (x * y), pow-zero x, pow-zero y) refl
mul_pow x y (suc b) =
    pow-suc (x * y) b
    ∙ ap (λ w. w * (x * y)) (mul_pow x y b)
    ∙ exchange (x ^ b) (y ^ b) x y
    ∙ ap (λ w. w * (y ^ b * y)) (sym (pow-suc x b))
    ∙ ap (λ w. x ^ suc b * w) (sym (pow-suc y b))
  where
    exchange : (p q r s : ℕ) → (p * q) * (r * s) ≡ (p * r) * (q * s)
    exchange p q r s =
        mul_assoc p q (r * s)
        ∙ ap (λ w. p * w) (sym (mul_assoc q r s) ∙ ap (λ w. w * s) (mul_comm q r) ∙ mul_assoc r q s)
        ∙ sym (mul_assoc p r (q * s))

pow_pow : (x a b : ℕ) → (x ^ a) ^ b ≡ (x ^ b) ^ a
pow_pow x zero b = ap (λ w. w ^ b) (pow-zero x) ∙ one_pow b ∙ sym (pow-zero (x ^ b))
pow_pow x (suc a) b =
    ap (λ w. w ^ b) (pow-suc x a)
    ∙ mul_pow (x ^ a) x b
    ∙ ap (λ w. w * x ^ b) (pow_pow x a b)
    ∙ sym (pow-suc (x ^ b) a)

exp_mod-exp_mod_pow : (x a b m : ℕ) → exp_mod (exp_mod x a m) b m ≡ (x ^ a) ^ b % m
exp_mod-exp_mod_pow x a b m =
    ap (λ w. exp_mod w b m) (exp_mod-pow x a m) ∙ exp_mod_base (x ^ a) b m ∙ exp_mod-pow (x ^ a) b m

-- Two exponents may be applied in either order.
pub exp_mod_comm : (x a b m : ℕ) → exp_mod (exp_mod x a m) b m ≡ exp_mod (exp_mod x b m) a m
exp_mod_comm x a b m =
    exp_mod-exp_mod_pow x a b m
    ∙ ap (λ w. w % m) (pow_pow x a b)
    ∙ sym (exp_mod-exp_mod_pow x b a m)

-- Powers of one.
pub exp_mod_one : (b m : ℕ) → 1 < m → exp_mod 1 b m ≡ 1
exp_mod_one b m h = exp_mod-pow 1 b m ∙ ap (λ w. w % m) (one_pow b) ∙ mod-eq_of_lt h
