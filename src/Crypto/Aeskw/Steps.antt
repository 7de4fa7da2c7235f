-- ===== src/Crypto/Aeskw/Steps.antt =====
-- One step of wrapping, and the step that undoes it.
use Prim.Native.Nat.{bit_xor}
use dpwire.Prelude.{
  ℕ, ◌-◌, ◌*◌, ◌^◌, ◌≤◌, ◌<◌, ◌≡◌, ap, ◌∙◌, ◌++◌, Bytes, length, take, drop, arith, length-append,
  length-take, length-drop, take-append-drop, take-append_at, drop-append_at,
}
use mathlib.Core.Path.{ap₂}
use dpwire.Crypto.Bits.{bit_xor-bit_xor_self, bit_xor-lt}
use dpwire.Crypto.Words.{
  AreBytes, AreBytes-append, uint64, put_uint64, put_uint64-AreBytes, length-put_uint64,
  uint64-put_uint64, put_uint64-uint64, uint64-lt,
}
use dpwire.Crypto.Aeskw.Blocks.{
  IsBlock, BlockCipher, AreBytes-take, AreBytes-drop, Cut, cut_at, cut_block, block_at-set_block,
  set_block-set_block, length-set_block, set_block-AreBytes,
}
use dpwire.Crypto.Aeskw.{Registers, block_at, set_block, counter, wrap_step, unwrap_step}

-- The registers between two rounds: an eight-byte value and `n` blocks.
pub record IsRegisters (n : ℕ) (s : Registers) : Type 0 where
  pub a_length : length s.a ≡ 8
  pub a_bytes : AreBytes s.a
  pub r_length : length s.r ≡ n * 8
  pub r_bytes : AreBytes s.r

abbrev pub registers : Bytes → Bytes → Registers
registers a r = record { a = a; r = r }

pub registers_path : {a b r q : Bytes} → a ≡ b → r ≡ q → registers a r ≡ registers b q
registers_path e f = ap₂ registers e f

module _ (c : BlockCipher) (kek : Bytes) (n : ℕ) (s : Registers) (h : IsRegisters n s) (j i : ℕ)
    (pos : 0 < i) (le : i ≤ n) where
  cut : Cut s.r i
  cut = cut_at s.r i pos (omega (arith, h.r_length))

  input_IsBlock : IsBlock (s.a ++ block_at s.r i)
  unfolding block_at
  input_IsBlock = (
    omega (
      arith,
      length-append s.a (take 8 (drop ((i - 1) * 8) s.r)),
      h.a_length,
      ap length (cut_block s.r i cut),
      cut.full,
    ),
    AreBytes-append s.a _ h.a_bytes (AreBytes-take 8 _ (AreBytes-drop _ s.r h.r_bytes)),
  )

  block_bytes : Bytes
  block_bytes = c.encrypt kek (s.a ++ block_at s.r i)

  output_IsBlock : IsBlock block_bytes
  unfolding block_bytes
  output_IsBlock = c.encrypt-IsBlock kek _ input_IsBlock

  step_word : ℕ
  step_word = bit_xor (uint64 (take 8 block_bytes)) (counter n j i)

  head_length : length (take 8 block_bytes) ≡ 8
  head_length = omega (arith, length-take 8 block_bytes, output_IsBlock.0)

  tail_length : length (drop 8 block_bytes) ≡ 8
  tail_length = omega (arith, length-drop 8 block_bytes, output_IsBlock.0)

  head_bytes : AreBytes (take 8 block_bytes)
  head_bytes = AreBytes-take 8 block_bytes output_IsBlock.1

  counter_lt : counter n j i < 2 ^ 64
  counter_lt = omega arith

  word_back :
      put_uint64 (bit_xor (uint64 (put_uint64 step_word)) (counter n j i)) ≡ take 8 block_bytes
  unfolding step_word
  word_back =
      let small : step_word < 2 ^ 64 =
        bit_xor-lt 64 (uint64 (take 8 block_bytes)) (counter n j i)
          (uint64-lt (take 8 block_bytes) head_length head_bytes) counter_lt in
      ap (λ w. put_uint64 (bit_xor w (counter n j i))) (uint64-put_uint64 step_word small)
      ∙ ap put_uint64 (bit_xor-bit_xor_self (uint64 (take 8 block_bytes)) (counter n j i))
      ∙ put_uint64-uint64 (take 8 block_bytes) head_length head_bytes

  pub wrap_step-IsRegisters : IsRegisters n (wrap_step c.encrypt kek n j i s)
  unfolding wrap_step block_bytes
  wrap_step-IsRegisters = record {
    a_length = length-put_uint64 _;
    a_bytes = put_uint64-AreBytes _;
    r_length = length-set_block s.r i pos cut (drop 8 block_bytes) tail_length ∙ h.r_length;
    r_bytes = set_block-AreBytes s.r i _ h.r_bytes (AreBytes-drop 8 _ output_IsBlock.1);
  }

  step_input :
      put_uint64 (bit_xor (uint64 (put_uint64 step_word)) (counter n j i))
        ++ block_at (set_block s.r i (drop 8 block_bytes)) i
      ≡ block_bytes
  step_input =
      ap₂ (λ x y. x ++ y) word_back
        (block_at-set_block s.r i pos cut (drop 8 block_bytes) tail_length)
      ∙ take-append-drop 8 block_bytes

  step_output :
      c.decrypt kek (
        put_uint64 (bit_xor (uint64 (put_uint64 step_word)) (counter n j i))
        ++ block_at (set_block s.r i (drop 8 block_bytes)) i)
      ≡ s.a ++ block_at s.r i
  unfolding block_bytes
  step_output = ap (c.decrypt kek) step_input ∙ c.decrypt-encrypt kek _ input_IsBlock

  pub unwrap_step-wrap_step : unwrap_step c.decrypt kek n j i (wrap_step c.encrypt kek n j i s) ≡ s
  unfolding wrap_step unwrap_step step_word block_bytes
  unwrap_step-wrap_step =
      registers_path (ap (take 8) step_output ∙ take-append_at 8 s.a _ h.a_length) (
        ap (set_block (set_block s.r i (drop 8 block_bytes)) i)
          (ap (drop 8) step_output ∙ drop-append_at 8 s.a _ h.a_length)
        ∙ set_block-set_block s.r i pos cut (drop 8 block_bytes) tail_length)
