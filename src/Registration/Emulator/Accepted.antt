-- ===== src/Registration/Emulator/Accepted.antt =====
-- Each request that the device answers, when every check of it passes.
use dpwire.Prelude.{
  ℕ, ◌/◌, ◌≡◌, refl, ◌<◌, Bool, true, false, not, [], ◌∷◌, ◌++◌, Bytes, codes, length, ltb, ◌==◌,
  none, some, ok, arith, take-append_at, drop-append_at, length-append, ==_iff,
}
use dpwire.Device.State.{PublicKey}
use dpwire.Registration.Exchange.{read_full, new_dh, public_bytes, shared_bytes}
use dpwire.Registration.Keys.{derive_keys}
use dpwire.Registration.Wrapping.{unwrap, hash_mac}
use dpwire.Registration.Messages.{
  WireMessage, empty_message, Primitives, PemBlock, decode_field, decode_field_range,
  max_response_size,
}
use dpwire.Registration.Session.{wrap_reading}
use dpwire.Registration.Session.Accepted.{same_bytes_refl}
use dpwire.Registration.Emulator.{
  Emulator, Refusal, expired, message, no_content, no_transcript, require, rejected,
  invalid_message, begin_transcript, serve_pin, accept_hash, check_hash, serve_hash, accept_proof,
  check_proof, serve_ca, read_public_key, check_registration, serve_registration,
}

require_lem : (b : Bool) (r : Refusal) → b ≡ true → require b r ≡ ok tt
unfolding require
require_lem b r h = rw (require, h) refl

module _ (p : Primitives) (e : Emulator) where
  abbrev pub greeting : Bytes → Bytes → ℕ → WireMessage
  greeting nonce1 mac private_key = record empty_message {
    a = p.encode nonce1;
    b = p.encode mac;
    c = p.encode (public_bytes p.prime private_key);
  }

  abbrev pub greeted : Bytes → Bytes → Bytes → ℕ → Bytes → Emulator
  greeted nonce1 mac es private_key rest = record e {
    random = rest;
    transcript = record no_transcript {
      dh = some private_key;
      nonce1 = nonce1;
      mac = mac;
      other_raw = public_bytes p.prime private_key;
      es = es;
    };
  }

  pub serve_pin_lem :
      (r1 r2 r3 : Bytes × Bytes) (drawn : ℕ × Bytes)
      → read_full 16 e.random ≡ some r1
      → read_full 6 r1.1 ≡ some r2
      → read_full 16 r2.1 ≡ some r3
      → new_dh r3.1 ≡ ok drawn
      → serve_pin p e
        ≡ (message (greeting r1.0 r2.0 drawn.0), greeted r1.0 r2.0 r3.0 drawn.0 drawn.1)
  unfolding serve_pin begin_transcript
  serve_pin_lem r1 r2 r3 drawn h1 h2 h3 h4 = rw (serve_pin, h1, h2, h3, begin_transcript, h4) refl

  pub serve_hash_lem :
      (private_key : ℕ) (m2 : WireMessage) (nonce2 client_public shared : Bytes)
      → e.transcript.dh ≡ some private_key
      → length e.transcript.nonce1 ≡ 16
      → decode_field p m2.a 16 ≡ ok e.transcript.nonce1
      → decode_field p m2.b 16 ≡ ok nonce2
      → decode_field p m2.c 6 ≡ ok e.transcript.mac
      → decode_field p m2.d 257 ≡ ok client_public
      → shared_bytes p.prime private_key client_public ≡ ok shared
      → (keys : Bytes × Bytes)
      → keys ≡ derive_keys p.hmac shared (e.transcript.nonce1 ++ (e.transcript.mac ++ nonce2))
      → (m2hmac : Bytes) → decode_field p m2.e 32 ≡ ok m2hmac
      → m2hmac
        ≡ hash_mac p.hmac keys.0 (
            e.transcript.nonce1
            ∷ (e.transcript.mac
                ∷ (e.transcript.other_raw
                    ∷ (e.transcript.nonce1
                        ∷ (nonce2 ∷ (e.transcript.mac ∷ (client_public ∷ [])))))))
      → serve_hash p (some m2) e ≡ accept_hash p nonce2 client_public m2hmac keys e
  unfolding serve_hash check_hash require
  serve_hash_lem private_key m2 nonce2 client_public shared h0 size h1 h2 h3 h4 h5 keys k m2hmac h6
        h7 =
      let started : (length e.transcript.nonce1 == 0) ≡ false = ground (arith, size) in
      rw
        (
          serve_hash,
          check_hash,
          h0,
          started,
          h1,
          h2,
          h3,
          h4,
          h6,
          same_bytes_refl {E = Refusal} invalid_message e.transcript.nonce1,
          same_bytes_refl {E = Refusal} invalid_message e.transcript.mac,
          h5,
          ← k,
          ← h7,
          same_bytes_refl {E = Refusal} rejected m2hmac,
        )
        refl

  pub serve_ca_lem :
      (m4 : WireMessage) (r_hash wrapped_rs rs : Bytes)
      → length e.transcript.auth_key ≡ 32
      → decode_field p m4.a 16 ≡ ok e.transcript.nonce1
      → decode_field p m4.b 32 ≡ ok r_hash
      → decode_field_range p m4.d 32 128 ≡ ok wrapped_rs
      → unwrap p.hmac p.cbc_decrypt wrapped_rs e.transcript.auth_key e.transcript.wrap_key ≡ ok rs
      → (m4hmac : Bytes) → decode_field p m4.e 32 ≡ ok m4hmac
      → m4hmac
        ≡ hash_mac p.hmac e.transcript.auth_key (
            e.transcript.nonce2
            ∷ (e.transcript.e_hash
                ∷ (e.transcript.m3hmac ∷ (e.transcript.nonce1 ∷ (r_hash ∷ (wrapped_rs ∷ []))))))
      → r_hash
        ≡ hash_mac p.hmac e.transcript.auth_key (
            rs
            ∷ (hash_mac p.hmac e.transcript.auth_key (e.pin ∷ [])
                ∷ (e.transcript.other_raw ∷ (e.transcript.client_public ∷ []))))
      → serve_ca p (some m4) e ≡ accept_proof p r_hash wrapped_rs m4hmac e
  unfolding serve_ca check_proof require
  serve_ca_lem m4 r_hash wrapped_rs rs size h1 h2 h3 h4 m4hmac h5 h6 h7 =
      let keyed : (length e.transcript.auth_key == 0) ≡ false = ground (arith, size) in
      rw
        (
          serve_ca,
          check_proof,
          keyed,
          h1,
          h2,
          h3,
          h5,
          same_bytes_refl {E = Refusal} invalid_message e.transcript.nonce1,
          h4,
          ← h6,
          same_bytes_refl {E = Refusal} rejected m4hmac,
          ← h7,
          same_bytes_refl {E = Refusal} rejected r_hash,
        )
        refl

  pub accept_proof_lem :
      (r_hash wrapped_rs m4hmac wrapped_certificate rest : Bytes)
      → wrap_reading p
          (e.transcript.es ++ e.certificate)
          e.transcript.auth_key
          e.transcript.wrap_key
          e.random
        ≡ ok (wrapped_certificate, rest)
      → (let m5hmac = hash_mac p.hmac e.transcript.auth_key (
            e.transcript.nonce1
            ∷ (r_hash
                ∷ (wrapped_rs ∷ (m4hmac ∷ (e.transcript.nonce2 ∷ (wrapped_certificate ∷ [])))))) in
          accept_proof p r_hash wrapped_rs m4hmac e ≡ (
            message (record empty_message {
              a = p.encode e.transcript.nonce2;
              d = p.encode wrapped_certificate;
              e = p.encode m5hmac;
            }),
            record e {
              random = rest;
              transcript = record e.transcript {
                wrapped_certificate = wrapped_certificate;
                m5hmac = m5hmac;
              };
            },
          ))
  unfolding accept_proof
  accept_proof_lem r_hash wrapped_rs m4hmac wrapped_certificate rest h = rw (accept_proof, h) refl

  pub read_public_key_lem :
      (text : Bytes) (block : PemBlock × Bytes) (key : PublicKey)
      → p.pem_decode text ≡ some block
      → block.0.block_type ≡ codes "PUBLIC KEY"
      → p.is_blank block.1 ≡ true
      → p.parse_public_key block.0.contents ≡ some key
      → p.bit_length key.modulus ≡ 2048
      → key.exponent ≡ 65537
      → read_public_key p text ≡ ok key
  unfolding read_public_key
  read_public_key_lem text block key h1 h2 h3 h4 h5 h6 =
      let right_size : (p.bit_length key.modulus == 2048) ≡ true = (==_iff _ 2048).1 h5 in
      let right_exponent : (key.exponent == 65537) ≡ true = (==_iff _ 65537).1 h6 in
      rw
        (
          read_public_key,
          h1,
          h2,
          same_bytes_refl {E = Refusal} rejected (codes "PUBLIC KEY"),
          require_lem _ rejected h3,
          h4,
          right_size,
          right_exponent,
          require_lem true rejected refl,
        )
        refl

  pub serve_registration_lem :
      (m6 : WireMessage) (wrapped_identity client_id text : Bytes) (key : PublicKey)
      → 16 < length e.transcript.wrapped_certificate
      → decode_field p m6.a 16 ≡ ok e.transcript.nonce1
      → decode_field_range p m6.d 64 (max_response_size / 2) ≡ ok wrapped_identity
      → decode_field p m6.e 32
        ≡ ok (
            hash_mac p.hmac e.transcript.auth_key (
              e.transcript.nonce2
              ∷ (e.transcript.wrapped_certificate
                  ∷ (e.transcript.m5hmac ∷ (e.transcript.nonce1 ∷ (wrapped_identity ∷ []))))))
      → unwrap p.hmac p.cbc_decrypt wrapped_identity e.transcript.auth_key e.transcript.wrap_key
        ≡ ok (client_id ++ text)
      → length client_id ≡ 36
      → 0 < length text
      → read_public_key p text ≡ ok key
      → serve_registration p (some m6) e ≡ (
        no_content,
        record e {
          transcript = record e.transcript { dh = none };
          registered = (client_id, key) ∷ e.registered;
        },
      )
  unfolding serve_registration check_registration
  serve_registration_lem m6 wrapped_identity client_id text key size h1 h2 h3 h4 id_size some_text
        h5 =
      let certified : not (length e.transcript.wrapped_certificate == 0) ≡ true =
        ground (arith, size) in
      let long : ltb 36 (length (client_id ++ text)) ≡ true =
        ground (arith, length-append client_id text, id_size, some_text) in
      rw
        (
          serve_registration,
          check_registration,
          require_lem _ expired certified,
          h1,
          h2,
          h3,
          same_bytes_refl {E = Refusal} rejected e.transcript.nonce1,
          same_bytes_refl {E = Refusal} rejected _,
          h4,
          require_lem _ rejected long,
          drop-append_at 36 client_id text id_size,
          h5,
          take-append_at 36 client_id text id_size,
        )
        refl
