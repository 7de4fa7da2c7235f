-- ===== src/Registration/Keys.antt =====
-- internal/wire/registration/crypto.go: pbkdf2SHA256 and deriveKeys.
use Prim.Native.Nat.{bit_xor}
use dpwire.Prelude.{
  ℕ, zero, suc, ◌+◌, ◌-◌, ◌%◌, ◌^◌, ◌≤◌, ◌<◌, ◌≡◌, refl, ap, ◌∙◌, [], ◌∷◌, ◌++◌, Bytes, length,
  take, drop, ltb, if◌then◌else◌, arith, length-append, length-take, length-drop, Bool-cases, inl,
  inr,
}
use dpwire.Crypto.Words.{fill_bytes}

-- `t[offset] ^= u[offset]`; the two are MACs of one length.
xor_bytes : Bytes → Bytes → Bytes
xor_bytes [] us = []
xor_bytes (t ∷ ts) [] = t ∷ ts
xor_bytes (t ∷ ts) (u ∷ us) = bit_xor t u ∷ xor_bytes ts us

module _ (hmac : Bytes → Bytes → Bytes) (password salt : Bytes) where
  -- `for index := 1; index < iterations; index++`, with the rounds that are left.
  pbkdf2_rounds : ℕ → Bytes → Bytes → Bytes
  unfolding xor_bytes
  pbkdf2_rounds zero u t = t
  pbkdf2_rounds (suc rounds) u t =
      pbkdf2_rounds rounds (hmac password u) (xor_bytes t (hmac password u))

  unfoldable pub pbkdf2_block : ℕ → ℕ → Bytes
  unfolding pbkdf2_rounds
  pbkdf2_block iterations block =
      let u = hmac password (salt ++ fill_bytes 4 block) in pbkdf2_rounds (iterations - 1) u u

  -- `for block := uint32(1); len(result) < length; block++`, on fuel.
  pbkdf2_loop : ℕ → ℕ → ℕ → ℕ → Bytes → Bytes
  pbkdf2_loop zero iterations size block result = result
  pbkdf2_loop (suc fuel) iterations size block result =
      let rest =
        pbkdf2_loop fuel iterations size ((block + 1) % 2 ^ 32)
          (result ++ pbkdf2_block iterations block) in
      if ltb (length result) size then rest else result

  -- No block is empty, so that one round for each byte is enough.
  unfoldable pub pbkdf2 : ℕ → ℕ → Bytes
  unfolding pbkdf2_loop
  pbkdf2 iterations size = take size (pbkdf2_loop size iterations size 1 [])

unfoldable pub derive_keys : (Bytes → Bytes → Bytes) → Bytes → Bytes → Bytes × Bytes
derive_keys hmac shared salt =
    let derived = pbkdf2 hmac shared salt 10000 48 in (take 32 derived, drop 32 derived)

length-xor_bytes : (t u : Bytes) → length (xor_bytes t u) ≡ length t
unfolding xor_bytes
length-xor_bytes [] us = refl
length-xor_bytes (t ∷ ts) [] = refl
length-xor_bytes (t ∷ ts) (u ∷ us) = ap suc (length-xor_bytes ts us)

module _ (hmac : Bytes → Bytes → Bytes) (size : ℕ) (macs : (k m : Bytes) → 0 < length (hmac k m))
    (password salt : Bytes) where
  length-pbkdf2_rounds :
      (rounds : ℕ) (u t : Bytes) → length (pbkdf2_rounds hmac password salt rounds u t) ≡ length t
  unfolding pbkdf2_rounds
  length-pbkdf2_rounds zero u t = refl
  length-pbkdf2_rounds (suc rounds) u t =
      length-pbkdf2_rounds rounds _ _ ∙ length-xor_bytes t (hmac password u)

  block-pos : (iterations block : ℕ) → 0 < length (pbkdf2_block hmac password salt iterations block)
  unfolding pbkdf2_block
  block-pos iterations block =
      let u = hmac password (salt ++ fill_bytes 4 block) in
      omega (
        arith,
        length-pbkdf2_rounds (iterations - 1) u u,
        macs password (salt ++ fill_bytes 4 block),
      )

  loop_long :
      (fuel iterations block : ℕ) (result : Bytes)
      → size ≤ fuel + length result
      → size ≤ length (pbkdf2_loop hmac password salt fuel iterations size block result)
  unfolding pbkdf2_loop
  loop_long zero iterations block result h = omega (arith, h)
  loop_long (suc fuel) iterations block result h = elim (Bool-cases (ltb (length result) size)) [
    | inl short ↦
        rw (pbkdf2_loop, short)
          (loop_long fuel iterations ((block + 1) % 2 ^ 32)
            (result ++ pbkdf2_block hmac password salt iterations block)
            (omega (
              arith,
              h,
              length-append result (pbkdf2_block hmac password salt iterations block),
              block-pos iterations block,
            )))
    | inr long ↦ rw (pbkdf2_loop, long) (ground arith)
  ]

-- PBKDF2 gives as many bytes as it is asked for, for any MAC that is never empty: the loop's rounds suffice.
pub length-pbkdf2 :
    (hmac : Bytes → Bytes → Bytes)
    → ((k m : Bytes) → 0 < length (hmac k m))
    → (password salt : Bytes) (iterations size : ℕ)
    → length (pbkdf2 hmac password salt iterations size) ≡ size
unfolding pbkdf2
length-pbkdf2 hmac macs password salt iterations size = omega (
  arith,
  length-take size (pbkdf2_loop hmac password salt size iterations size 1 []),
  loop_long hmac size macs password salt size iterations 1 [] (omega arith),
)

-- The two keys are of 32 and 16 bytes.
pub length-derive_keys :
    (hmac : Bytes → Bytes → Bytes)
    → ((k m : Bytes) → 0 < length (hmac k m))
    → (shared salt : Bytes)
    → (length (derive_keys hmac shared salt).0 ≡ 32)
      × (length (derive_keys hmac shared salt).1 ≡ 16)
unfolding derive_keys
length-derive_keys hmac macs shared salt =
    let derived = pbkdf2 hmac shared salt 10000 48 in
    (
      omega (arith, length-take 32 derived, length-pbkdf2 hmac macs shared salt 10000 48),
      omega (arith, length-drop 32 derived, length-pbkdf2 hmac macs shared salt 10000 48),
    )
