-- ===== src/Registration/Session/Accepted.antt =====
-- Each message that the client reads, when every check of it passes.
use dpwire.Prelude.{
  ℕ, ◌/◌, ◌≡◌, refl, ◌<◌, false, [], ◌∷◌, ◌++◌, Bytes, length, leb, some, ok, arith, bytes_eq_refl,
  take-append_at, drop-append_at, length-append,
}
use dpwire.Registration.Exchange.{read_full, new_dh, public_bytes, shared_bytes}
use dpwire.Registration.Keys.{derive_keys}
use dpwire.Registration.Wrapping.{unwrap, hash_mac}
use dpwire.Registration.Messages.{
  WireMessage, Primitives, RegisterError, not_authenticated, pin_rejected, GeneratedKey,
  decode_field, decode_field_range, validate_certificate_pem, random_uuid, max_response_size,
}
use dpwire.Registration.Session.{
  Session, Challenge, PinProof, Certified, wrap_reading, same_bytes, start_session, check_nonce,
  want_m3, check_m3, pin_hash, m4hmac_of, prove_pin, want_m5, open_certificate, check_m5, make_m6,
  finish_session,
}

pub same_bytes_refl : {E : Type 0} (e : E) (a : Bytes) → same_bytes e a a ≡ ok tt
unfolding same_bytes
same_bytes_refl e a = rw (bytes_eq_refl a) refl

module _ (p : Primitives) where
  pub start_session_lem :
      (m1 : WireMessage) (random nonce1 mac other_raw shared : Bytes) (drawn : ℕ × Bytes)
      (read : Bytes × Bytes)
      → decode_field p m1.a 16 ≡ ok nonce1
      → decode_field p m1.b 6 ≡ ok mac
      → decode_field_range p m1.c 256 257 ≡ ok other_raw
      → new_dh random ≡ ok drawn
      → shared_bytes p.prime drawn.0 other_raw ≡ ok shared
      → read_full 16 drawn.1 ≡ some read
      → start_session p m1 random
        ≡ ok (
          record {
            nonce1 = nonce1;
            mac = mac;
            other_raw = other_raw;
            public_key = public_bytes p.prime drawn.0;
            nonce2 = read.0;
            auth_key = (derive_keys p.hmac shared (nonce1 ++ (mac ++ read.0))).0;
            wrap_key = (derive_keys p.hmac shared (nonce1 ++ (mac ++ read.0))).1;
          },
          read.1,
        )
  unfolding start_session
  start_session_lem m1 random nonce1 mac other_raw shared drawn read h1 h2 h3 h4 h5 h6 =
      rw (start_session, h1, h2, h3, h4, h5, h6) refl

  check_nonce_lem :
      (s : Session) (value : Bytes)
      → decode_field p value 16 ≡ ok s.nonce2
      → check_nonce p s value ≡ ok tt
  unfolding check_nonce
  check_nonce_lem s value h = rw (check_nonce, h) (same_bytes_refl _ s.nonce2)

  pub check_m3_lem :
      (s : Session) (m3 : WireMessage) (e_hash : Bytes)
      → decode_field p m3.a 16 ≡ ok s.nonce2
      → decode_field p m3.b 32 ≡ ok e_hash
      → decode_field p m3.e 32 ≡ ok (want_m3 p s e_hash)
      → check_m3 p s m3 ≡ ok (record { e_hash = e_hash; m3hmac = want_m3 p s e_hash })
  unfolding check_m3
  check_m3_lem s m3 e_hash h1 h2 h3 =
      rw
        (
          check_m3,
          check_nonce_lem s m3.a h1,
          h2,
          h3,
          same_bytes_refl {E = RegisterError} not_authenticated (want_m3 p s e_hash),
        )
        refl

  pub prove_pin_lem :
      (s : Session) (c : Challenge) (pin random : Bytes) (read sealed : Bytes × Bytes)
      → read_full 16 random ≡ some read
      → wrap_reading p read.0 s.auth_key s.wrap_key read.1 ≡ ok sealed
      → prove_pin p s c pin random
        ≡ ok (
          record {
            psk = hash_mac p.hmac s.auth_key (pin ∷ []);
            r_hash = pin_hash p s read.0 (hash_mac p.hmac s.auth_key (pin ∷ []));
            wrapped_rs = sealed.0;
            m4hmac =
                m4hmac_of p s c
                  (pin_hash p s read.0 (hash_mac p.hmac s.auth_key (pin ∷ [])))
                  sealed.0;
          },
          sealed.1,
        )
  unfolding prove_pin
  prove_pin_lem s c pin random read sealed h1 h2 = rw (prove_pin, h1, h2) refl

  open_certificate_lem :
      (s : Session) (wrapped es certificate : Bytes)
      → length es ≡ 16
      → 0 < length certificate
      → unwrap p.hmac p.cbc_decrypt wrapped s.auth_key s.wrap_key ≡ ok (es ++ certificate)
      → open_certificate p s wrapped ≡ ok (es, certificate)
  unfolding open_certificate
  open_certificate_lem s wrapped es certificate size some_bytes h =
      let long : leb (length (es ++ certificate)) 16 ≡ false =
        ground (arith, length-append es certificate, size, some_bytes) in
      rw
        (
          open_certificate,
          h,
          long,
          take-append_at 16 es certificate size,
          drop-append_at 16 es certificate size,
        )
        refl

  pub check_m5_lem :
      (s : Session) (c : Challenge) (proof : PinProof) (m5 : WireMessage)
      (wrapped es certificate : Bytes)
      → decode_field p m5.a 16 ≡ ok s.nonce2
      → decode_field_range p m5.d 32 (max_response_size / 2) ≡ ok wrapped
      → decode_field p m5.e 32 ≡ ok (want_m5 p s proof wrapped)
      → length es ≡ 16
      → 0 < length certificate
      → unwrap p.hmac p.cbc_decrypt wrapped s.auth_key s.wrap_key ≡ ok (es ++ certificate)
      → c.e_hash ≡ pin_hash p s es proof.psk
      → validate_certificate_pem p certificate ≡ ok tt
      → check_m5 p s c proof m5
        ≡ ok (record {
          certificate = certificate;
          wrapped_certificate = wrapped;
          m5hmac = want_m5 p s proof wrapped;
        })
  unfolding check_m5
  check_m5_lem s c proof m5 wrapped es certificate h1 h2 h3 size some_bytes h4 h5 h6 =
      rw
        (
          check_m5,
          check_nonce_lem s m5.a h1,
          h2,
          h3,
          same_bytes_refl {E = RegisterError} not_authenticated (want_m5 p s proof wrapped),
          open_certificate_lem s wrapped es certificate size some_bytes h4,
          h5,
          same_bytes_refl {E = RegisterError} pin_rejected (pin_hash p s es proof.psk),
          h6,
        )
        refl

  pub finish_session_lem :
      (s : Session) (c : Certified) (random : Bytes) (generated : GeneratedKey × Bytes)
      (named sealed : Bytes × Bytes)
      → p.generate_key random ≡ some generated
      → random_uuid generated.1 ≡ ok named
      → wrap_reading p (named.0 ++ generated.0.public_pem) s.auth_key s.wrap_key named.1 ≡ ok sealed
      → finish_session p s c random
        ≡ ok (
          make_m6 p s c sealed.0,
          record {
            client_id = named.0;
            private_key_pem = generated.0.private_pem;
            device_ca_pem = c.certificate;
          },
        )
  unfolding finish_session
  finish_session_lem s c random generated named sealed h1 h2 h3 =
      rw (finish_session, h1, h2, h3) refl
