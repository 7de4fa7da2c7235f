-- ===== src/Registration/Emulator.antt =====
-- internal/wire/registration/emulator.go: the device's side of the exchange. The Go code holds the lock for a
-- whole request, so each request is one step on the state. A request's body is the message that JSON decodes,
-- or nothing where it fails; `registered` is the log of the calls of onRegistration.
pub mod Accepted
pub mod Checks
pub mod Phases
pub use dpwire.Registration.Transcript.{
  Transcript, no_transcript, Emulator, Reply, message, no_content, failed, Refusal, expired,
  rejected, invalid_message, invalid_json, no_randomness, or_reply, settle, left_by_exchange,
  left_by_wrap,
}
unfoldable pub use dpwire.Registration.Transcript.{
  require, is_bad_emulator_pin, new_emulator, set_pin, out_of_random,
}
use dpwire.Prelude.{
  ℕ, ◌+◌, ◌/◌, Bool, true, false, not, ◌&&◌, ◌||◌, List, [], ◌∷◌, ◌++◌, Bytes, codes, bytes_eq,
  length, take, drop, ltb, leb, ◌==◌, if◌then◌else◌, Option, none, some, Result, ok, err, ◌>>=◌,
  ◌>>◌, contains_any,
}
use dpwire.Device.State.{PublicKey}
use dpwire.Registration.Exchange.{
  ExchangeError, zero_key, read_full, new_dh, public_bytes, shared_bytes,
}
use dpwire.Registration.Keys.{derive_keys}
use dpwire.Registration.Wrapping.{WrapError, random_failed, unwrap, hash_mac}
use dpwire.Registration.Messages.{
  WireMessage, empty_message, Primitives, or_error, decode_field, decode_field_range,
  validate_certificate_pem, max_response_size,
}
use dpwire.Registration.Session.{wrap_reading, same_bytes}

module _ (p : Primitives) where
  unfoldable pub begin_transcript : Bytes → Bytes → Bytes → Bytes → Emulator → Reply × Emulator
  begin_transcript nonce1 mac es random e = elim (new_dh random) [
    | err x ↦ out_of_random (left_by_exchange x random) e
    | ok (private_key, rest) ↦ (
      message (record empty_message {
        a = p.encode nonce1;
        b = p.encode mac;
        c = p.encode (public_bytes p.prime private_key);
      }),
      record e {
        random = rest;
        transcript = record no_transcript {
          dh = some private_key;
          nonce1 = nonce1;
          mac = mac;
          other_raw = public_bytes p.prime private_key;
          es = es;
        };
      },
    )
  ]

  unfoldable pub serve_pin : Emulator → Reply × Emulator
  serve_pin e = elim (read_full 16 e.random) [
    | none ↦ out_of_random [] e
    | some (nonce1, r1) ↦ elim (read_full 6 r1) [
      | none ↦ out_of_random [] e
      | some (mac, r2) ↦ elim (read_full 16 r2) [
        | none ↦ out_of_random [] e
        | some (es, r3) ↦ begin_transcript nonce1 mac es r3 e
      ]
    ]
  ]

  -- M3, for a message M2 that has been accepted.
  unfoldable pub accept_hash : Bytes → Bytes → Bytes → Bytes × Bytes → Emulator → Reply × Emulator
  accept_hash nonce2 client_public m2hmac keys e =
      let t = e.transcript in
      let psk = hash_mac p.hmac keys.0 (e.pin ∷ []) in
      let e_hash = hash_mac p.hmac keys.0 (t.es ∷ (psk ∷ (t.other_raw ∷ (client_public ∷ [])))) in
      let m3hmac =
        hash_mac p.hmac keys.0
          (t.nonce1 ∷ (nonce2 ∷ (t.mac ∷ (client_public ∷ (m2hmac ∷ (nonce2 ∷ (e_hash ∷ []))))))) in
      (
        message (record empty_message {
          a = p.encode nonce2;
          b = p.encode e_hash;
          e = p.encode m3hmac;
        }),
        record e {
          transcript = record t {
            nonce2 = nonce2;
            client_public = client_public;
            auth_key = keys.0;
            wrap_key = keys.1;
            m2hmac = m2hmac;
            e_hash = e_hash;
            m3hmac = m3hmac;
          };
        },
      )

  unfoldable pub check_hash : Option WireMessage → Emulator → Result Refusal (Reply × Emulator)
  check_hash body e =
      let t = e.transcript in
      or_error expired t.dh >>= λ private_key.
      require (not (length t.nonce1 == 0)) expired
      >> (or_error invalid_json body >>= λ m2.
          or_reply invalid_message (decode_field p m2.a 16) >>= λ nonce1.
          or_reply invalid_message (decode_field p m2.b 16) >>= λ nonce2.
          or_reply invalid_message (decode_field p m2.c 6) >>= λ mac.
          or_reply invalid_message (decode_field p m2.d 257) >>= λ client_public.
          or_reply invalid_message (decode_field p m2.e 32) >>= λ m2hmac.
          same_bytes invalid_message nonce1 t.nonce1
          >> (same_bytes invalid_message mac t.mac
              >> (or_reply rejected (shared_bytes p.prime private_key client_public) >>= λ shared.
                  let keys = derive_keys p.hmac shared (nonce1 ++ (mac ++ nonce2)) in
                  same_bytes rejected m2hmac (
                    hash_mac p.hmac keys.0 (
                      nonce1
                      ∷ (mac ∷ (t.other_raw ∷ (nonce1 ∷ (nonce2 ∷ (mac ∷ (client_public ∷ []))))))))
                  >> ok (accept_hash nonce2 client_public m2hmac keys e))))

  unfoldable pub serve_hash : Option WireMessage → Emulator → Reply × Emulator
  serve_hash body e = settle e (check_hash body e)

  -- M5, for a message M4 that proves the PIN.
  unfoldable pub accept_proof : Bytes → Bytes → Bytes → Emulator → Reply × Emulator
  accept_proof r_hash wrapped_rs m4hmac e =
      let t = e.transcript in
      elim (wrap_reading p (t.es ++ e.certificate) t.auth_key t.wrap_key e.random) [
        | err x ↦ out_of_random (left_by_wrap x e.random) e
        | ok (wrapped_certificate, rest) ↦
            let m5hmac = hash_mac p.hmac t.auth_key (
              t.nonce1
              ∷ (r_hash ∷ (wrapped_rs ∷ (m4hmac ∷ (t.nonce2 ∷ (wrapped_certificate ∷ [])))))) in
            (
              message (record empty_message {
                a = p.encode t.nonce2;
                d = p.encode wrapped_certificate;
                e = p.encode m5hmac;
              }),
              record e {
                random = rest;
                transcript = record t {
                  wrapped_certificate = wrapped_certificate;
                  m5hmac = m5hmac;
                };
              },
            )
      ]

  unfoldable pub check_proof : Option WireMessage → Emulator → Result Refusal (Reply × Emulator)
  check_proof body e =
      let t = e.transcript in
      require (not (length t.auth_key == 0)) expired
      >> (or_error invalid_json body >>= λ m4.
          or_reply invalid_message (decode_field p m4.a 16) >>= λ nonce1.
          or_reply invalid_message (decode_field p m4.b 32) >>= λ r_hash.
          or_reply invalid_message (decode_field_range p m4.d 32 128) >>= λ wrapped_rs.
          or_reply invalid_message (decode_field p m4.e 32) >>= λ m4hmac.
          same_bytes invalid_message nonce1 t.nonce1
          >> (or_reply rejected (unwrap p.hmac p.cbc_decrypt wrapped_rs t.auth_key t.wrap_key)
              >>= λ rs.
                  same_bytes rejected m4hmac (
                    hash_mac p.hmac t.auth_key (
                      t.nonce2
                      ∷ (t.e_hash ∷ (t.m3hmac ∷ (t.nonce1 ∷ (r_hash ∷ (wrapped_rs ∷ [])))))))
                  >> (same_bytes rejected r_hash (
                        hash_mac p.hmac t.auth_key (
                          rs
                          ∷ (hash_mac p.hmac t.auth_key (e.pin ∷ [])
                              ∷ (t.other_raw ∷ (t.client_public ∷ [])))))
                      >> ok (accept_proof r_hash wrapped_rs m4hmac e))))

  unfoldable pub serve_ca : Option WireMessage → Emulator → Reply × Emulator
  serve_ca body e = settle e (check_proof body e)

  -- The public key behind the client's identifier: one PEM block, an RSA key of 2048 bits with exponent 65537.
  unfoldable pub read_public_key : Bytes → Result Refusal PublicKey
  read_public_key text = or_error rejected (p.pem_decode text) >>= λ block.
      same_bytes rejected block.0.block_type (codes "PUBLIC KEY")
      >> (require (p.is_blank block.1) rejected
          >> (or_error rejected (p.parse_public_key block.0.contents) >>= λ key.
              require (p.bit_length key.modulus == 2048 && key.exponent == 65537) rejected
              >> ok key))

  unfoldable pub check_registration :
      Option WireMessage → Emulator → Result Refusal (Reply × Emulator)
  check_registration body e =
      let t = e.transcript in
      require (not (length t.wrapped_certificate == 0)) expired
      >> (or_error invalid_json body >>= λ m6.
          or_reply rejected (decode_field p m6.a 16) >>= λ nonce1.
          or_reply rejected (decode_field_range p m6.d 64 (max_response_size / 2))
          >>= λ wrapped_identity. or_reply rejected (decode_field p m6.e 32) >>= λ m6hmac.
              same_bytes rejected nonce1 t.nonce1
              >> (same_bytes rejected m6hmac (
                    hash_mac p.hmac t.auth_key (
                      t.nonce2
                      ∷ (t.wrapped_certificate
                          ∷ (t.m5hmac ∷ (t.nonce1 ∷ (wrapped_identity ∷ []))))))
                  >> (or_reply rejected
                        (unwrap p.hmac p.cbc_decrypt wrapped_identity t.auth_key t.wrap_key)
                      >>= λ identity.
                          require (ltb 36 (length identity)) rejected
                          >> (read_public_key (drop 36 identity) >>= λ key. ok (
                            no_content,
                            record e {
                              transcript = record t { dh = none };
                              registered = (take 36 identity, key) ∷ e.registered;
                            },
                          )))))

  unfoldable pub serve_registration : Option WireMessage → Emulator → Reply × Emulator
  serve_registration body e = settle e (check_registration body e)

  -- ServeHTTP, from the method and the path.
  unfoldable pub serve : Bytes → Option WireMessage → Emulator → Reply × Emulator
  serve endpoint body e =
      if bytes_eq endpoint (codes "PUT /register/cleanup")
      then (no_content, record e { transcript = no_transcript })
      else if bytes_eq endpoint (codes "POST /register/pin")
      then serve_pin e
      else if bytes_eq endpoint (codes "POST /register/hash")
      then serve_hash body e
      else if bytes_eq endpoint (codes "POST /register/ca")
      then serve_ca body e
      else if bytes_eq endpoint (codes "POST /register")
      then serve_registration body e
      else (failed 404 (codes "40401"), e)
