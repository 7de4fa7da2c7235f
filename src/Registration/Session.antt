-- ===== src/Registration/Session.antt =====
-- internal/wire/registration/registration.go: the client's side of the exchange M1 to M6, message by message.
-- A reader of randomness is the bytes that it has left.
pub mod Accepted
pub mod Trust
use dpwire.Prelude.{
  ℕ, ◌+◌, ◌/◌, Bool, true, false, not, ◌&&◌, ◌||◌, List, [], ◌∷◌, ◌++◌, Bytes, codes, bytes_eq,
  length, take, drop, ltb, leb, ◌==◌, if◌then◌else◌, Option, none, some, Result, ok, err, ◌>>=◌,
  ◌>>◌,
}
use dpwire.Registration.Exchange.{read_full, new_dh, public_bytes, shared_bytes}
use dpwire.Registration.Keys.{derive_keys}
use dpwire.Registration.Wrapping.{WrapError, wrap, unwrap, hash_mac}
use dpwire.Registration.Messages.{
  WireMessage, Primitives, GeneratedKey, RegisterError, nonce_mismatch, not_authenticated,
  invalid_wrapped_certificate, pin_rejected, key_failed, random_failed, exchange_failed,
  wrap_failed, wrapping_error, or_error, decode_field, decode_field_range, validate_certificate_pem,
  random_uuid, max_response_size,
}

-- What the client knows when it has sent M2.
pub record Session : Type 0 where
  pub nonce1 : Bytes
  pub mac : Bytes
  pub other_raw : Bytes
  pub public_key : Bytes
  pub nonce2 : Bytes
  pub auth_key : Bytes
  pub wrap_key : Bytes

-- The authenticated part of M3.
pub record Challenge : Type 0 where
  pub e_hash : Bytes
  pub m3hmac : Bytes

-- The client's proof of the PIN, sent in M4.
pub record PinProof : Type 0 where
  pub psk : Bytes
  pub r_hash : Bytes
  pub wrapped_rs : Bytes
  pub m4hmac : Bytes

-- The authenticated part of M5.
pub record Certified : Type 0 where
  pub certificate : Bytes
  pub wrapped_certificate : Bytes
  pub m5hmac : Bytes

-- registration.Result
pub record Identity : Type 0 where
  pub client_id : Bytes
  pub private_key_pem : Bytes
  pub device_ca_pem : Bytes

-- `wrap` with the reader that it takes its IV from.
unfoldable pub wrap_reading :
    Primitives → Bytes → Bytes → Bytes → Bytes → Result WrapError (Bytes × Bytes)
wrap_reading p payload auth_key wrap_key random = elim (read_full 16 random) [
  | none ↦ wrap p.hmac p.cbc_encrypt payload auth_key wrap_key none >>= λ wrapped. ok (wrapped, [])
  | some (iv, rest) ↦ wrap p.hmac p.cbc_encrypt payload auth_key wrap_key (some iv) >>= λ wrapped.
      ok (wrapped, rest)
]

-- `subtle.ConstantTimeCompare(a, b) != 1`, as an error.
unfoldable pub same_bytes : {E : Type 0} → E → Bytes → Bytes → Result E (Unit {0})
same_bytes e a b = if bytes_eq a b then ok tt else err e

module _ (p : Primitives) where
  unfoldable pub start_session : WireMessage → Bytes → Result RegisterError (Session × Bytes)
  start_session m1 random = decode_field p m1.a 16 >>= λ nonce1. decode_field p m1.b 6 >>= λ mac.
      decode_field_range p m1.c 256 257 >>= λ other_raw.
      wrapping_error exchange_failed (new_dh random) >>= λ drawn.
      wrapping_error exchange_failed (shared_bytes p.prime drawn.0 other_raw) >>= λ shared.
      or_error random_failed (read_full 16 drawn.1) >>= λ read.
      let keys = derive_keys p.hmac shared (nonce1 ++ (mac ++ read.0)) in
      ok (
        record {
          nonce1 = nonce1;
          mac = mac;
          other_raw = other_raw;
          public_key = public_bytes p.prime drawn.0;
          nonce2 = read.0;
          auth_key = keys.0;
          wrap_key = keys.1;
        },
        read.1,
      )

  unfoldable pub m2hmac : Session → Bytes
  m2hmac s =
      hash_mac p.hmac s.auth_key (
        s.nonce1
        ∷ (s.mac ∷ (s.other_raw ∷ (s.nonce1 ∷ (s.nonce2 ∷ (s.mac ∷ (s.public_key ∷ [])))))))

  unfoldable pub make_m2 : Session → WireMessage
  make_m2 s = record {
    a = p.encode s.nonce1;
    b = p.encode s.nonce2;
    c = p.encode s.mac;
    d = p.encode s.public_key;
    e = p.encode (m2hmac s);
  }

  -- `err != nil || subtle.ConstantTimeCompare(returnedNonce2, nonce2) != 1`
  unfoldable pub check_nonce : Session → Bytes → Result RegisterError (Unit {0})
  check_nonce s value = elim (decode_field p value 16) [
    | err e ↦ err nonce_mismatch
    | ok returned ↦ same_bytes nonce_mismatch returned s.nonce2
  ]

  unfoldable pub want_m3 : Session → Bytes → Bytes
  want_m3 s e_hash =
      hash_mac p.hmac s.auth_key
        (s.nonce1 ∷ (s.nonce2 ∷ (s.mac ∷ (s.public_key ∷ (m2hmac s ∷ (s.nonce2 ∷ (e_hash ∷ [])))))))

  unfoldable pub check_m3 : Session → WireMessage → Result RegisterError Challenge
  check_m3 s m3 =
      check_nonce s m3.a
      >> (decode_field p m3.b 32 >>= λ e_hash. decode_field p m3.e 32 >>= λ m3hmac.
          same_bytes not_authenticated m3hmac (want_m3 s e_hash)
          >> ok (record { e_hash = e_hash; m3hmac = m3hmac }))

  -- `hashMAC(authKey, secret, psk, otherRaw, publicKey)`: rHash of `rs`, eHash of `es`.
  unfoldable pub pin_hash : Session → Bytes → Bytes → Bytes
  pin_hash s secret psk =
      hash_mac p.hmac s.auth_key (secret ∷ (psk ∷ (s.other_raw ∷ (s.public_key ∷ []))))

  unfoldable pub m4hmac_of : Session → Challenge → Bytes → Bytes → Bytes
  m4hmac_of s c r_hash wrapped_rs =
      hash_mac p.hmac s.auth_key
        (s.nonce2 ∷ (c.e_hash ∷ (c.m3hmac ∷ (s.nonce1 ∷ (r_hash ∷ (wrapped_rs ∷ []))))))

  unfoldable pub prove_pin :
      Session → Challenge → Bytes → Bytes → Result RegisterError (PinProof × Bytes)
  prove_pin s c pin random =
      let psk = hash_mac p.hmac s.auth_key (pin ∷ []) in
      or_error random_failed (read_full 16 random) >>= λ read.
      let r_hash = pin_hash s read.0 psk in
      wrapping_error wrap_failed (wrap_reading p read.0 s.auth_key s.wrap_key read.1) >>= λ sealed.
      ok (
        record {
          psk = psk;
          r_hash = r_hash;
          wrapped_rs = sealed.0;
          m4hmac = m4hmac_of s c r_hash sealed.0;
        },
        sealed.1,
      )

  unfoldable pub make_m4 : Session → PinProof → WireMessage
  make_m4 s proof = record {
    a = p.encode s.nonce1;
    b = p.encode proof.r_hash;
    c = [];
    d = p.encode proof.wrapped_rs;
    e = p.encode proof.m4hmac;
  }

  unfoldable pub want_m5 : Session → PinProof → Bytes → Bytes
  want_m5 s proof wrapped_certificate = hash_mac p.hmac s.auth_key (
      s.nonce1
      ∷ (proof.r_hash
          ∷ (proof.wrapped_rs ∷ (proof.m4hmac ∷ (s.nonce2 ∷ (wrapped_certificate ∷ []))))))

  -- `err != nil || len(esCertificate) <= 16`
  unfoldable pub open_certificate : Session → Bytes → Result RegisterError (Bytes × Bytes)
  open_certificate s wrapped_certificate =
      elim (unwrap p.hmac p.cbc_decrypt wrapped_certificate s.auth_key s.wrap_key) [
        | err e ↦ err invalid_wrapped_certificate
        | ok both ↦
            if leb (length both) 16
            then err invalid_wrapped_certificate
            else ok (take 16 both, drop 16 both)
      ]

  unfoldable pub check_m5 :
      Session → Challenge → PinProof → WireMessage → Result RegisterError Certified
  check_m5 s c proof m5 =
      check_nonce s m5.a
      >> (decode_field_range p m5.d 32 (max_response_size / 2) >>= λ wrapped_certificate.
          decode_field p m5.e 32 >>= λ m5hmac.
          same_bytes not_authenticated m5hmac (want_m5 s proof wrapped_certificate)
          >> (open_certificate s wrapped_certificate >>= λ opened.
              same_bytes pin_rejected c.e_hash (pin_hash s opened.0 proof.psk)
              >> (validate_certificate_pem p opened.1
                  >> ok (record {
                    certificate = opened.1;
                    wrapped_certificate = wrapped_certificate;
                    m5hmac = m5hmac;
                  }))))

  unfoldable pub m6hmac_of : Session → Certified → Bytes → Bytes
  m6hmac_of s c wrapped_identity =
      hash_mac p.hmac s.auth_key
        (s.nonce2 ∷ (c.wrapped_certificate ∷ (c.m5hmac ∷ (s.nonce1 ∷ (wrapped_identity ∷ [])))))

  unfoldable pub make_m6 : Session → Certified → Bytes → WireMessage
  make_m6 s c wrapped_identity = record {
    a = p.encode s.nonce1;
    b = [];
    c = [];
    d = p.encode wrapped_identity;
    e = p.encode (m6hmac_of s c wrapped_identity);
  }

  -- M6 and what Register returns when the device accepts it.
  unfoldable pub finish_session :
      Session → Certified → Bytes → Result RegisterError (WireMessage × Identity)
  finish_session s c random = or_error key_failed (p.generate_key random) >>= λ generated.
      random_uuid generated.1 >>= λ named.
      wrapping_error wrap_failed
        (wrap_reading p (named.0 ++ generated.0.public_pem) s.auth_key s.wrap_key named.1)
      >>= λ sealed. ok (
        make_m6 s c sealed.0,
        record {
          client_id = named.0;
          private_key_pem = generated.0.private_pem;
          device_ca_pem = c.certificate;
        },
      )
