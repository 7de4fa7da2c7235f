-- ===== src/Registration/Exchange.antt =====
-- internal/wire/registration/crypto.go: the Diffie-Hellman exchange. The group's prime is an argument, so
-- that small groups can be run: the code has one, `group14_prime`. A reader of randomness is the bytes that it has left.
pub mod Agreement
pub mod Group14
use dpwire.Prelude.{
  ℕ, zero, suc, ◌+◌, ◌-◌, ◌/◌, Bool, true, false, not, ◌&&◌, ◌||◌, List, [], ◌∷◌, Bytes, length,
  take, drop, ltb, leb, ◌==◌, if◌then◌else◌, Option, none, some, Result, ok, err, ◌≡◌, bytes_eq,
}
use dpwire.Crypto.Words.{set_bytes, fill_bytes}
use dpwire.Crypto.Powers.{exp_mod}

pub data ExchangeError : Type 0 where
  no_random zero_key bad_length bad_public outside_subgroup : ExchangeError

-- The 2048-bit prime of group 14.
abbrev pub group14_prime : ℕ
group14_prime =
    0xFFFFFFFFFFFFFFFFC90FDAA22168C234C4C6628B80DC1CD129024E088A67CC74020BBEA63B139B22514A08798E3404DDEF9519B3CD3A431B302B0A6DF25F14374FE1356D6D51C245E485B576625E7EC6F44C42E9A637ED6B0BFF5CB6F406B7EDEE386BFB5A899FA5AE9F24117C4B1FE649286651ECE45B3DC2007CB8A163BF0598DA48361C55D39A69163FA8FD24CF5F83655D23DCA3AD961C62F356208552BB9ED529077096966D670C354E4ABC9804F1746C08CA18217C32905E462E36CE3BE39E772C180E86039B2783A2EC07A28FB5C55DF06F4C52C9DE2BCBF6955817183995497CEA956AE515D2261898FA051015728E5A8AACAA68FFFFFFFFFFFFFFFF

-- `io.ReadFull(random, value)` for `n` bytes: the value and the reader after it.
unfoldable pub read_full : ℕ → Bytes → Option (Bytes × Bytes)
read_full n random = if ltb (length random) n then none else some (take n random, drop n random)

-- The loop of newDH, with the attempts that are left.
unfoldable pub attempt_private : ℕ → Bytes → Result ExchangeError (ℕ × Bytes)
attempt_private zero random = err zero_key
attempt_private (suc attempts) random = elim (read_full 32 random) [
  | none ↦ err no_random
  | some (value, rest) ↦
      if set_bytes value == 0 then attempt_private attempts rest else ok (set_bytes value, rest)
]

unfoldable pub new_dh : Bytes → Result ExchangeError (ℕ × Bytes)
unfolding attempt_private
new_dh random = attempt_private 8 random

-- The first byte, where the caller has tested the length.
unfoldable pub starts_with_zero : Bytes → Bool
starts_with_zero [] = false
starts_with_zero (c ∷ cs) = c == 0

module _ (prime : ℕ) where
  -- The power is below 2^2048, so FillBytes has room.
  unfoldable pub public_bytes : ℕ → Bytes
  public_bytes private_key = 0 ∷ fill_bytes 256 (exp_mod 2 private_key prime)

  unfoldable pub shared_bytes : ℕ → Bytes → Result ExchangeError Bytes
  unfolding starts_with_zero
  shared_bytes private_key other_raw =
      let other = set_bytes other_raw in
      if not (length other_raw == 256)
        && not (length other_raw == 257 && starts_with_zero other_raw)
      then err bad_length
      else if ltb other 2 || ltb (prime - 2) other
      then err bad_public
      else if not (exp_mod other ((prime - 1) / 2) prime == 1)
      then err outside_subgroup
      else ok (fill_bytes 256 (exp_mod other private_key prime))
