-- ===== src/Crypto/Aeskw/RoundTrip.antt =====
-- Unwrapping undoes wrapping.
use dpwire.Prelude.{
  ℕ, zero, suc, ◌+◌, ◌-◌, ◌*◌, ◌/◌, ◌%◌, ◌≤◌, ◌≡◌, refl, ap, ◌∙◌, true, false, ◌++◌, Bytes, length,
  take, drop, arith, bytes_eq_refl, ok, ◌>>=◌, ltb, ◌==◌, length-append, take-append_at,
  drop-append_at,
}
use dpwire.Crypto.Words.{AreBytes}
use dpwire.Crypto.Aeskw.Blocks.{BlockCipher}
use dpwire.Crypto.Aeskw.{
  Registers, default_iv, is_key, wrap_rounds, wrap_passes, unwrap_rounds, unwrap_passes, wrap,
  unwrap,
}
use dpwire.Crypto.Aeskw.Steps.{
  IsRegisters, registers, registers_path, wrap_step-IsRegisters, unwrap_step-wrap_step,
}

module _ (c : BlockCipher) (kek : Bytes) (n : ℕ) where
  wrap_rounds-IsRegisters :
      (j m : ℕ)
      → m ≤ n
      → (s : Registers) → IsRegisters n s
      → IsRegisters n (wrap_rounds c.encrypt kek n j m s)
  unfolding wrap_rounds
  wrap_rounds-IsRegisters j zero le s h = h
  wrap_rounds-IsRegisters j (suc m) le s h =
      wrap_step-IsRegisters c kek n _ (wrap_rounds-IsRegisters j m (omega arith) s h) j (suc m)
        (omega arith) le

  unwrap_rounds-wrap_rounds :
      (j m : ℕ)
      → m ≤ n
      → (s : Registers) → IsRegisters n s
      → unwrap_rounds c.decrypt kek n j m (wrap_rounds c.encrypt kek n j m s) ≡ s
  unfolding wrap_rounds unwrap_rounds
  unwrap_rounds-wrap_rounds j zero le s h = refl
  unwrap_rounds-wrap_rounds j (suc m) le s h =
      let below : m ≤ n = omega arith in
      ap (unwrap_rounds c.decrypt kek n j m) (
        unwrap_step-wrap_step c kek n _ (wrap_rounds-IsRegisters j m below s h) j (suc m)
          (omega arith) le)
      ∙ unwrap_rounds-wrap_rounds j m below s h

  wrap_passes-IsRegisters :
      (j : ℕ) (s : Registers) → IsRegisters n s → IsRegisters n (wrap_passes c.encrypt kek n j s)
  unfolding wrap_passes
  wrap_passes-IsRegisters zero s h = h
  wrap_passes-IsRegisters (suc j) s h =
      wrap_rounds-IsRegisters j n (omega arith) _ (wrap_passes-IsRegisters j s h)

  unwrap_passes-wrap_passes :
      (j : ℕ) (s : Registers)
      → IsRegisters n s
      → unwrap_passes c.decrypt kek n j (wrap_passes c.encrypt kek n j s) ≡ s
  unfolding wrap_passes unwrap_passes
  unwrap_passes-wrap_passes zero s h = refl
  unwrap_passes-wrap_passes (suc j) s h =
      ap (unwrap_passes c.decrypt kek n j)
        (unwrap_rounds-wrap_rounds j n (omega arith) _ (wrap_passes-IsRegisters j s h))
      ∙ unwrap_passes-wrap_passes j s h

module _ (c : BlockCipher) (kek plaintext : Bytes) (n : ℕ) (eight : length plaintext ≡ n * 8)
    (bytes : AreBytes plaintext) where
  start_registers : Registers
  start_registers = record { a = default_iv; r = plaintext }

  start-IsRegisters : IsRegisters n start_registers
  unfolding start_registers
  start-IsRegisters = record {
    a_length = refl;
    a_bytes = (
      omega arith,
      (
        omega arith,
        (
          omega arith,
          (omega arith, (omega arith, (omega arith, (omega arith, (omega arith, tt))))),
        ),
      ),
    );
    r_length = eight;
    r_bytes = bytes;
  }

  done : Registers
  done = wrap_passes c.encrypt kek n 6 start_registers

  done-IsRegisters : IsRegisters n done
  unfolding done
  done-IsRegisters = wrap_passes-IsRegisters c kek n 6 start_registers start-IsRegisters

  unwrapped : unwrap_passes c.decrypt kek n 6 done ≡ start_registers
  unfolding done
  unwrapped = unwrap_passes-wrap_passes c kek n 6 start_registers start-IsRegisters

  module _ (long : 16 ≤ length plaintext) (key : is_key kek ≡ true) where
    blocks : n ≡ length plaintext / 8
    blocks = omega (arith, eight)

    wrap_ok : wrap c.encrypt kek plaintext ≡ ok (done.a ++ done.r)
    unfolding wrap done start_registers
    wrap_ok =
        let short : ltb (length plaintext) 16 ≡ false = ground arith in
        let whole : (length plaintext % 8 == 0) ≡ true = ground (arith, eight) in
        rw (short, whole, key, ← blocks) refl

    spliced : length (done.a ++ done.r) ≡ 8 + n * 8
    spliced =
        omega
          (arith, length-append done.a done.r, done-IsRegisters.a_length, done-IsRegisters.r_length)

    halves : registers (take 8 (done.a ++ done.r)) (drop 8 (done.a ++ done.r)) ≡ done
    halves =
        registers_path (take-append_at 8 done.a done.r done-IsRegisters.a_length)
          (drop-append_at 8 done.a done.r done-IsRegisters.a_length)

    finished :
        unwrap_passes c.decrypt kek
          (length (done.a ++ done.r) / 8 - 1)
          6
          (registers (take 8 (done.a ++ done.r)) (drop 8 (done.a ++ done.r)))
        ≡ start_registers
    finished =
        let count : length (done.a ++ done.r) / 8 - 1 ≡ n = omega (arith, spliced) in
        rw (count, halves) unwrapped

    unwrap_ok : unwrap c.decrypt kek (done.a ++ done.r) ≡ ok plaintext
    unfolding unwrap start_registers
    unwrap_ok =
        let short : ltb (length (done.a ++ done.r)) 24 ≡ false = ground (arith, spliced) in
        let whole : (length (done.a ++ done.r) % 8 == 0) ≡ true = ground (arith, spliced) in
        rw (short, whole, key, finished, bytes_eq_refl default_iv) refl

-- Whatever block cipher stands for AES, unwrapping with the same key-encryption key what Wrap returned
-- gives the plaintext back, for every plaintext of at least two eight-byte blocks and every key of 16, 24
-- or 32 bytes; in particular neither call fails.
pub unwrap-wrap :
    (c : BlockCipher) (kek plaintext : Bytes)
    → AreBytes plaintext
    → 16 ≤ length plaintext
    → length plaintext % 8 ≡ 0
    → is_key kek ≡ true
    → (wrap c.encrypt kek plaintext >>= λ wrapped. unwrap c.decrypt kek wrapped) ≡ ok plaintext
unwrap-wrap c kek plaintext bytes long whole key =
    let eight : length plaintext ≡ length plaintext / 8 * 8 = omega (arith, whole) in
    ap (λ r. r >>= λ wrapped. unwrap c.decrypt kek wrapped)
      (wrap_ok c kek plaintext (length plaintext / 8) eight bytes long key)
    ∙ unwrap_ok c kek plaintext (length plaintext / 8) eight bytes long key
