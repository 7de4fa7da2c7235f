-- ===== src/Crypto/Aeskw.antt =====
-- internal/crypto/aeskw/aeskw.go: AES Key Wrap (RFC 3394). AES is a parameter: encryption and
-- decryption of one block by a key. A register is the pair `a`, `r` of the Go code; `r` is one slice,
-- read and written eight bytes at a time.
pub mod Blocks
pub mod Steps
pub mod RoundTrip
use Prim.Native.Nat.{bit_xor}
use dpwire.Prelude.{
  ℕ, zero, suc, ◌+◌, ◌-◌, ◌*◌, ◌/◌, ◌%◌, ◌^◌, Bool, true, false, not, ◌&&◌, ◌||◌, List, [], ◌∷◌,
  ◌++◌, Bytes, length, take, drop, replicate, ltb, ◌==◌, bytes_eq, if◌then◌else◌, Result, ok, err,
}
use dpwire.Crypto.Words.{uint64, put_uint64}

pub data KeyWrapError : Type 0 where
  invalid_length integrity : KeyWrapError

abbrev pub default_iv : Bytes
default_iv = replicate 8 0xa6

pub record Registers : Type 0 where
  pub a : Bytes
  pub r : Bytes

-- `r[(i-1)*8 : i*8]`, and `copy(r[(i-1)*8:i*8], v)` for eight bytes `v`.
unfoldable pub block_at : Bytes → ℕ → Bytes
block_at r i = take 8 (drop ((i - 1) * 8) r)

unfoldable pub set_block : Bytes → ℕ → Bytes → Bytes
set_block r i v = take ((i - 1) * 8) r ++ (v ++ drop (i * 8) r)

-- `uint64(n*j + i)`
abbrev pub counter : ℕ → ℕ → ℕ → ℕ
counter n j i = (n * j + i) % 2 ^ 64

-- `aes.NewCipher` refuses any other key.
abbrev pub is_key : Bytes → Bool
is_key kek = length kek == 16 || (length kek == 24 || length kek == 32)

module _ (encrypt : Bytes → Bytes → Bytes) (kek : Bytes) (n : ℕ) where
  unfoldable pub wrap_step : ℕ → ℕ → Registers → Registers
  wrap_step j i s =
      let b = encrypt kek (s.a ++ block_at s.r i) in
      record {
        a = put_uint64 (bit_xor (uint64 (take 8 b)) (counter n j i));
        r = set_block s.r i (drop 8 b);
      }

  -- `for i := 1; i <= m; i++`
  unfoldable pub wrap_rounds : ℕ → ℕ → Registers → Registers
  wrap_rounds j zero s = s
  wrap_rounds j (suc m) s = wrap_step j (suc m) (wrap_rounds j m s)

  -- `for j := 0; j < m; j++`
  unfoldable pub wrap_passes : ℕ → Registers → Registers
  wrap_passes zero s = s
  wrap_passes (suc j) s = wrap_rounds j n (wrap_passes j s)

module _ (decrypt : Bytes → Bytes → Bytes) (kek : Bytes) (n : ℕ) where
  unfoldable pub unwrap_step : ℕ → ℕ → Registers → Registers
  unwrap_step j i s =
      let b = decrypt kek (put_uint64 (bit_xor (uint64 s.a) (counter n j i)) ++ block_at s.r i) in
      record { a = take 8 b; r = set_block s.r i (drop 8 b) }

  -- `for i := m; i >= 1; i--`
  unfoldable pub unwrap_rounds : ℕ → ℕ → Registers → Registers
  unwrap_rounds j zero s = s
  unwrap_rounds j (suc m) s = unwrap_rounds j m (unwrap_step j (suc m) s)

  -- `for j := m - 1; j >= 0; j--`
  unfoldable pub unwrap_passes : ℕ → Registers → Registers
  unwrap_passes zero s = s
  unwrap_passes (suc j) s = unwrap_passes j (unwrap_rounds j n s)

unfoldable pub wrap : (Bytes → Bytes → Bytes) → Bytes → Bytes → Result KeyWrapError Bytes
wrap encrypt kek plaintext =
    let done =
      wrap_passes encrypt kek (length plaintext / 8) 6 (record { a = default_iv; r = plaintext }) in
    if ltb (length plaintext) 16 || not (length plaintext % 8 == 0)
    then err invalid_length
    else if not (is_key kek)
    then err invalid_length
    else ok (done.a ++ done.r)

unfoldable pub unwrap : (Bytes → Bytes → Bytes) → Bytes → Bytes → Result KeyWrapError Bytes
unwrap decrypt kek ciphertext =
    let done =
      unwrap_passes decrypt kek (length ciphertext / 8 - 1) 6
        (record { a = take 8 ciphertext; r = drop 8 ciphertext }) in
    if ltb (length ciphertext) 24 || not (length ciphertext % 8 == 0)
    then err invalid_length
    else if not (is_key kek)
    then err invalid_length
    else if not (bytes_eq done.a default_iv)
    then err integrity
    else ok done.r
