-- ===== src/Registration/Laws.antt =====
-- What the exchange relies on of the standard library, and what it gives for the fields of a message and for
-- wrapped values.
use dpwire.Prelude.{
  ℕ, ◌+◌, ◌-◌, ◌%◌, ◌≤◌, ◌≡◌, refl, true, false, Bytes, length, ltb, some, ok, arith,
}
use dpwire.Crypto.Words.{AreBytes}
use dpwire.Crypto.Aeskw.{is_key}
use dpwire.Registration.Exchange.{read_full}
use dpwire.Registration.Exchange.Agreement.{IsGroup}
use dpwire.Registration.Wrapping.{CbcCipher, Mac, unwrap, wrap_opens}
use dpwire.Registration.Messages.{Primitives, decode_field, decode_field_range}
use dpwire.Registration.Session.{wrap_reading}

-- Base64 decodes what it encodes, a MAC has 32 bytes, CBC decrypts what it encrypts, and the prime is a group's.
pub record Laws (p : Primitives) : Type 0 where
  pub decode-encode : (b : Bytes) → AreBytes b → p.decode (p.encode b) ≡ some b
  pub length-hmac : (k m : Bytes) → length (p.hmac k m) ≡ 32
  pub hmac-AreBytes : (k m : Bytes) → AreBytes (p.hmac k m)
  pub length-encrypt :
      (k iv b : Bytes) → length b % 16 ≡ 0 → length (p.cbc_encrypt k iv b) ≡ length b
  pub encrypt-AreBytes :
      (k iv b : Bytes) → AreBytes iv → AreBytes b → AreBytes (p.cbc_encrypt k iv b)
  pub decrypt-encrypt :
      (k iv b : Bytes)
      → length iv ≡ 16
      → length b % 16 ≡ 0
      → AreBytes b
      → p.cbc_decrypt k iv (p.cbc_encrypt k iv b) ≡ b
  pub group : IsGroup p.prime

-- A value read from a reader of bytes.
pub record IsRead (n : ℕ) (random value rest : Bytes) : Type 0 where
  pub read : read_full n random ≡ some (value, rest)
  pub bytes : AreBytes value
  pub size : length value ≡ n

-- A value that is wrapped with an IV of the reader, and what the other side makes of it.
pub record IsSealed (p : Primitives) (payload auth_key wrap_key random rest wrapped : Bytes)
    : Type 0 where
  pub sealed : wrap_reading p payload auth_key wrap_key random ≡ ok (wrapped, rest)
  pub opened : unwrap p.hmac p.cbc_decrypt wrapped auth_key wrap_key ≡ ok payload
  pub bytes : AreBytes wrapped
  pub size : length wrapped ≡ length payload + 8 + (16 - (length payload + 8) % 16) + 16

module _ (p : Primitives) (laws : Laws p) where
  pub decode_field_range-encode :
      (b : Bytes) (minimum maximum : ℕ)
      → AreBytes b
      → minimum ≤ length b
      → length b ≤ maximum
      → decode_field_range p (p.encode b) minimum maximum ≡ ok b
  unfolding decode_field_range
  decode_field_range-encode b minimum maximum bytes low high =
      let not_short : ltb (length b) minimum ≡ false = ground (arith, low) in
      let not_long : ltb maximum (length b) ≡ false = ground (arith, high) in
      rw (decode_field_range, laws.decode-encode b bytes, not_short, not_long) refl

  pub decode_field-encode :
      (b : Bytes) (n : ℕ) → AreBytes b → length b ≡ n → decode_field p (p.encode b) n ≡ ok b
  unfolding decode_field
  decode_field-encode b n bytes size =
      decode_field_range-encode b n n bytes (omega (arith, size)) (omega (arith, size))

  abbrev mac : Mac
  mac = record {
    hmac = p.hmac;
    hmac-long = λ k m. omega (arith, laws.length-hmac k m);
    hmac-AreBytes = laws.hmac-AreBytes;
  }

  abbrev cipher : CbcCipher
  cipher = record {
    encrypt = p.cbc_encrypt;
    decrypt = p.cbc_decrypt;
    length-encrypt = laws.length-encrypt;
    decrypt-encrypt = laws.decrypt-encrypt;
  }

  -- Wrapping a value of bytes under a key of 16 bytes.
  pub wrap_reading-IsSealed :
      (payload auth_key wrap_key random iv rest : Bytes)
      → AreBytes payload
      → is_key wrap_key ≡ true
      → IsRead 16 random iv rest
      → (wrapped : Bytes) × IsSealed p payload auth_key wrap_key random rest wrapped
  unfolding wrap_reading
  wrap_reading-IsSealed payload auth_key wrap_key random iv rest bytes key r =
      let (wrapped, (wraps, (opens, (are_bytes, size)))) =
        wrap_opens mac cipher payload auth_key wrap_key iv r.size bytes key
          (λ k b h. laws.encrypt-AreBytes k iv b r.bytes h) r.bytes in
      (
        wrapped,
        record {
          sealed = rw (wrap_reading, r.read, wraps) refl;
          opened = opens;
          bytes = are_bytes;
          size = size;
        },
      )
