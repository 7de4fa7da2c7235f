-- ===== src/Registration/Exchange/Agreement.antt =====
-- Two sides of an exchange derive one secret.
use dpwire.Prelude.{
  ℕ, suc, ◌+◌, ◌%◌, ◌≢◌, sym, ◌-◌, ◌/◌, ◌^◌, ◌<◌, ◌≤◌, ◌≡◌, refl, ap, ◌∙◌, true, false, Bytes,
  length, ltb, ◌==◌, ok, arith, ==_iff,
}
use dpwire.Crypto.Words.{
  set_bytes, fill_bytes, set_bytes-fill_bytes, set_bytes-zero, length-fill_bytes,
}
use dpwire.Crypto.Powers.{exp_mod, exp_mod-lt, exp_mod_comm, exp_mod_one}
use dpwire.Crypto.Squares.{exp_mod_zero, minus_one_odd}
use dpwire.Registration.Exchange.{public_bytes, shared_bytes, starts_with_zero}

-- What group 14 is used for: a modulus of at most 256 bytes, half of which is odd, and the order of 2 divides
-- that half.
pub record IsGroup (prime : ℕ) : Type 0 where
  pub large : 4 < prime
  pub fits : prime ≤ 256 ^ 256
  pub odd_half : ((prime - 1) / 2) % 2 ≡ 1
  pub order : exp_mod 2 ((prime - 1) / 2) prime ≡ 1

-- A private key that is no multiple of the order of 2: its public value is not 1.
pub record IsPrivate (prime private_key : ℕ) : Type 0 where
  pub not_one : exp_mod 2 private_key prime ≢ 1

module _ (prime : ℕ) (g : IsGroup prime) where
  public_value : (b : ℕ) → set_bytes (public_bytes prime b) ≡ exp_mod 2 b prime
  unfolding public_bytes
  public_value b =
      set_bytes-zero (fill_bytes 256 (exp_mod 2 b prime))
      ∙ set_bytes-fill_bytes 256 (exp_mod 2 b prime)
          (omega (arith, exp_mod-lt 2 b prime (omega (arith, g.large)), g.fits))

  pub length-public_bytes : (b : ℕ) → length (public_bytes prime b) ≡ 257
  unfolding public_bytes
  length-public_bytes b = omega (arith, length-fill_bytes 256 (exp_mod 2 b prime))

  zero_first : (b : ℕ) → starts_with_zero (public_bytes prime b) ≡ true
  unfolding starts_with_zero public_bytes
  zero_first b = refl

  other_size : (b : ℕ) → (length (public_bytes prime b) == 256) ≡ false
  other_size b = ground (arith, length-public_bytes b)

  in_subgroup : (b : ℕ) → exp_mod (exp_mod 2 b prime) ((prime - 1) / 2) prime ≡ 1
  in_subgroup b =
      exp_mod_comm 2 b ((prime - 1) / 2) prime
      ∙ ap (λ x. exp_mod x b prime) g.order
      ∙ exp_mod_one b prime (omega (arith, g.large))

  -- No public value is 0 or -1, since neither is in the subgroup.
  public_value-ne-zero : (b : ℕ) → exp_mod 2 b prime ≢ 0
  public_value-ne-zero b e =
      let half : suc ((prime - 1) / 2 - 1) ≡ (prime - 1) / 2 = omega (arith, g.large) in
      let one_is_zero : ◌≡◌ {A = ℕ} 1 0 =
        sym (in_subgroup b)
        ∙ ap (λ v. exp_mod v ((prime - 1) / 2) prime) e
        ∙ ap (λ n. exp_mod 0 n prime) (sym half)
        ∙ exp_mod_zero _ prime (omega (arith, g.large)) in
      absurd (omega (arith, one_is_zero))

  public_value-ne-minus_one : (b : ℕ) → exp_mod 2 b prime ≢ prime - 1
  public_value-ne-minus_one b e =
      let j = (prime - 1) / 2 / 2 in
      let half : (prime - 1) / 2 ≡ suc (j + j) = omega (arith, g.odd_half) in
      let below : prime - 1 ≡ 1 + (prime - 2) = omega (arith, g.large) in
      let whole : prime ≡ 2 + (prime - 2) = omega (arith, g.large) in
      let one_is_minus_one : 1 ≡ 1 + (prime - 2) =
        sym (in_subgroup b)
        ∙ ap (λ v. exp_mod v ((prime - 1) / 2) prime) (e ∙ below)
        ∙ ap (λ n. exp_mod (1 + (prime - 2)) n prime) half
        ∙ ap (exp_mod (1 + (prime - 2)) (suc (j + j))) whole
        ∙ minus_one_odd j (prime - 2) in
      absurd (omega (arith, g.large, one_is_minus_one))

  public_value-range :
      (b : ℕ) → IsPrivate prime b → (2 ≤ exp_mod 2 b prime) × (exp_mod 2 b prime ≤ prime - 2)
  public_value-range b p =
      let less = exp_mod-lt 2 b prime (omega (arith, g.large)) in
      (
        omega (arith, public_value-ne-zero b, p.not_one),
        omega (arith, less, public_value-ne-minus_one b, g.large),
      )

  -- What the public bytes of the other side give.
  pub shared_bytes-public_bytes :
      (a b : ℕ)
      → IsPrivate prime b
      → shared_bytes prime a (public_bytes prime b)
        ≡ ok (fill_bytes 256 (exp_mod (exp_mod 2 b prime) a prime))
  unfolding shared_bytes starts_with_zero
  shared_bytes-public_bytes a b p =
      let range = public_value-range b p in
      let size : (length (public_bytes prime b) == 257) ≡ true =
        (==_iff _ 257).1 (length-public_bytes b) in
      let not_short : ltb (exp_mod 2 b prime) 2 ≡ false = ground (arith, range.0) in
      let not_long : ltb (prime - 2) (exp_mod 2 b prime) ≡ false = ground (arith, range.1) in
      let member : (exp_mod (exp_mod 2 b prime) ((prime - 1) / 2) prime == 1) ≡ true =
        (==_iff _ 1).1 (in_subgroup b) in
      rw
        (
          shared_bytes,
          other_size b,
          size,
          zero_first b,
          public_value b,
          not_short,
          not_long,
          member,
        )
        refl

-- In a group as IsGroup describes it, and where neither public value is 1: the two sides of an exchange accept
-- each other's public bytes and derive the same 256 bytes.
pub shared_bytes_agree :
    (prime a b : ℕ)
    → IsGroup prime
    → IsPrivate prime a
    → IsPrivate prime b
    → (secret : Bytes) × ((length secret ≡ 256)
        × ((shared_bytes prime a (public_bytes prime b) ≡ ok secret)
            × (shared_bytes prime b (public_bytes prime a) ≡ ok secret)))
shared_bytes_agree prime a b g pa pb = (
  fill_bytes 256 (exp_mod (exp_mod 2 b prime) a prime),
  (
    length-fill_bytes 256 (exp_mod (exp_mod 2 b prime) a prime),
    (
      shared_bytes-public_bytes prime g a b pb,
      shared_bytes-public_bytes prime g b a pa
          ∙ ap (λ x. ok (fill_bytes 256 x)) (exp_mod_comm 2 a b prime),
    ),
  ),
)
