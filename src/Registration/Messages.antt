-- ===== src/Registration/Messages.antt =====
-- internal/wire/registration/registration.go: the messages, their fields and the parts of the client's
-- checks that need no state. What the standard library does is the record `Primitives`: HMAC-SHA-256, CBC with
-- AES, base64, PEM, X.509 and RSA keys; `none` of a decoder is its error.
pub mod Uuid
use dpwire.Prelude.{
  ℕ, zero, suc, ◌+◌, ◌%◌, ◌/◌, Bool, true, false, not, ◌||◌, [], ◌∷◌, ◌++◌, Bytes, codes, bytes_eq,
  length, take, drop, ltb, if◌then◌else◌, Option, none, some, Result, ok, err, contains_any,
}
use dpwire.Device.State.{PublicKey}
use dpwire.Registration.Exchange.{ExchangeError, read_full}
use dpwire.Registration.Wrapping.{WrapError}

pub record WireMessage : Type 0 where
  pub a : Bytes
  pub b : Bytes
  pub c : Bytes
  pub d : Bytes
  pub e : Bytes

-- `1 << 20`
abbrev pub max_response_size : ℕ
max_response_size = 1048576

abbrev pub empty_message : WireMessage
empty_message = record { a = []; b = []; c = []; d = []; e = [] }

pub record PemBlock : Type 0 where
  pub block_type : Bytes
  pub contents : Bytes

-- An RSA key of 2048 bits, both halves in PEM.
pub record GeneratedKey : Type 0 where
  pub private_pem : Bytes
  pub public_pem : Bytes

pub record Primitives : Type 0 where
  pub prime : ℕ
  pub hmac : Bytes → Bytes → Bytes
  pub cbc_encrypt : Bytes → Bytes → Bytes → Bytes
  pub cbc_decrypt : Bytes → Bytes → Bytes → Bytes
  pub encode : Bytes → Bytes
  pub decode : Bytes → Option Bytes
  -- `pem.Decode`: the first block and what follows it
  pub pem_decode : Bytes → Option (PemBlock × Bytes)
  -- `strings.TrimSpace(s) == ""`
  pub is_blank : Bytes → Bool
  pub parse_certificate : Bytes → Bool
  pub parse_public_key : Bytes → Option PublicKey
  -- `N.BitLen()`
  pub bit_length : ℕ → ℕ
  -- `rsa.GenerateKey` and its encoding, with the reader after it
  pub generate_key : Bytes → Option (GeneratedKey × Bytes)

pub data RegisterError : Type 0 where
  nil_provider invalid_field nonce_mismatch not_authenticated invalid_pin
        invalid_wrapped_certificate :
      RegisterError
  pin_rejected invalid_certificate no_certificate key_failed random_failed : RegisterError
  oversized : RegisterError
  network bad_response provider_failed : Bytes → RegisterError
  http_error : ℕ → Bytes → Bytes → RegisterError
  initial_cleanup : RegisterError → RegisterError
  exchange_failed : ExchangeError → RegisterError
  wrap_failed : WrapError → RegisterError

-- An error of another kind, handed on.
abbrev pub wrapping_error {ℓ} : {E F : Type 0} {A : Type ℓ} → (E → F) → Result E A → Result F A
wrapping_error f (ok a) = ok a
wrapping_error f (err e) = err (f e)

abbrev pub or_error {ℓ} : {F : Type 0} {A : Type ℓ} → F → Option A → Result F A
or_error f (some a) = ok a
or_error f none = err f

unfoldable pub decode_field_range : Primitives → Bytes → ℕ → ℕ → Result RegisterError Bytes
decode_field_range p value minimum maximum = elim (p.decode value) [
  | none ↦ err invalid_field
  | some decoded ↦
      if ltb (length decoded) minimum || ltb maximum (length decoded)
      then err invalid_field
      else ok decoded
]

unfoldable pub decode_field : Primitives → Bytes → ℕ → Result RegisterError Bytes
decode_field p value size = decode_field_range p value size size

-- The loop of validateCertificatePEM. `pem.Decode` takes at least one byte, so the length is enough fuel.
unfoldable pub certificates : Primitives → ℕ → Bool → Bytes → Result RegisterError (Unit {0})
certificates p zero found rest = err invalid_certificate
certificates p (suc fuel) found rest =
    if p.is_blank rest
    then (if found then ok tt else err no_certificate)
    else elim (p.pem_decode rest) [
      | none ↦ err invalid_certificate
      | some (block, trailing) ↦
          if not (bytes_eq block.block_type (codes "CERTIFICATE"))
          then err invalid_certificate
          else if not (p.parse_certificate block.contents)
          then err invalid_certificate
          else certificates p fuel true trailing
    ]

unfoldable pub validate_certificate_pem : Primitives → Bytes → Result RegisterError (Unit {0})
unfolding certificates
validate_certificate_pem p value = certificates p (length value + 1) false value

unfoldable pub hex_digit : ℕ → ℕ
hex_digit n = if ltb n 10 then 48 + n else 87 + n

-- `hex.EncodeToString`
unfoldable pub hex_encode : Bytes → Bytes
unfolding hex_digit
hex_encode [] = []
hex_encode (c ∷ cs) = hex_digit (c / 16) ∷ (hex_digit (c % 16) ∷ hex_encode cs)

-- A byte changed in place.
unfoldable pub change_at : ℕ → (ℕ → ℕ) → Bytes → Bytes
change_at i f [] = []
change_at zero f (c ∷ cs) = f c ∷ cs
change_at (suc i) f (c ∷ cs) = c ∷ change_at i f cs

-- `value[6]&0x0f | 0x40` and `value[8]&0x3f | 0x80`
unfoldable pub stamped : Bytes → Bytes
unfolding change_at
stamped value = change_at 8 (λ c. c % 64 + 128) (change_at 6 (λ c. c % 16 + 64) value)

unfoldable pub dashed : Bytes → Bytes
dashed h =
    take 8 h
    ++ (45
        ∷ (take 4 (drop 8 h)
            ++ (45 ∷ (take 4 (drop 12 h) ++ (45 ∷ (take 4 (drop 16 h) ++ (45 ∷ drop 20 h)))))))

unfoldable pub random_uuid : Bytes → Result RegisterError (Bytes × Bytes)
unfolding stamped dashed hex_encode
random_uuid random = elim (read_full 16 random) [
  | none ↦ err random_failed
  | some (value, rest) ↦ ok (dashed (hex_encode (stamped value)), rest)
]

-- `pin == "" || len(pin) > 64 || strings.ContainsAny(pin, "\r\n\x00")`
unfoldable pub is_bad_pin : Bytes → Bool
is_bad_pin pin = bytes_eq pin [] || (ltb 64 (length pin) || contains_any pin (13 ∷ (10 ∷ (0 ∷ []))))
