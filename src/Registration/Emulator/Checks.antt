-- ===== src/Registration/Emulator/Checks.antt =====
-- What a request has passed that the device accepts.
use dpwire.Prelude.{
  ℕ, ◌≡◌, ◌/◌, ◌&&◌, refl, sym, ap, ◌∙◌, Bool, true, false, not, [], ◌∷◌, ◌++◌, Bytes, codes,
  &&-true, ==_iff, take, drop, ltb, length, ◌==◌, Option, none, some, Result, ok, err, bind_ok,
  ok-injective, arith,
}
use dpwire.Device.State.{PublicKey}
use dpwire.Registration.Exchange.{shared_bytes}
use dpwire.Registration.Keys.{derive_keys}
use dpwire.Registration.Wrapping.{unwrap, hash_mac}
use dpwire.Registration.Messages.{
  WireMessage, Primitives, or_error, decode_field, decode_field_range, max_response_size,
}
use dpwire.Registration.Session.{same_bytes}
use dpwire.Registration.Session.Trust.{same_bytes_equal}
use dpwire.Registration.Emulator.{
  Emulator, Reply, Refusal, invalid_json, no_content, require, rejected, invalid_message, expired,
  or_reply, accept_hash, check_hash, accept_proof, check_proof, check_registration, read_public_key,
}

or_error-some : {A : Type 0} (r : Refusal) (o : Option A) (a : A) → or_error r o ≡ ok a → o ≡ some a
or_error-some {A = A} r none a h = ground arith
or_error-some r (some b) a h = ap some (ok-injective h)

or_reply_ok : {E A : Type 0} (r : Refusal) (m : Result E A) (a : A) → or_reply r m ≡ ok a → m ≡ ok a
or_reply_ok r (ok b) a h = ap ok (ok-injective h)
or_reply_ok {A = A} r (err x) a h = ground arith

require-true : (b : Bool) (r : Refusal) → require b r ≡ ok tt → b ≡ true
unfolding require
require-true true r h = refl
require-true false r h = ground arith

module _ (p : Primitives) where
  read_public_key_checks :
      (text : Bytes) (key : PublicKey)
      → read_public_key p text ≡ ok key
      → (p.bit_length key.modulus ≡ 2048) × (key.exponent ≡ 65537)
  unfolding read_public_key
  read_public_key_checks text key h =
      let (block, (h0, r0)) = bind_ok (or_error rejected (p.pem_decode text)) _ key h in
      let (u1, (h1, r1)) =
        bind_ok (same_bytes rejected block.0.block_type (codes "PUBLIC KEY")) _ key r0 in
      let (u2, (h2, r2)) = bind_ok (require (p.is_blank block.1) rejected) _ key r1 in
      let (found, (h3, r3)) =
        bind_ok (or_error rejected (p.parse_public_key block.0.contents)) _ key r2 in
      let (u4, (h4, r4)) =
        bind_ok (require (p.bit_length found.modulus == 2048 && found.exponent == 65537) rejected) _
          key r3 in
      let same : found ≡ key = ok-injective r4 in
      let both =
        &&-true (p.bit_length found.modulus == 2048) (found.exponent == 65537)
          (require-true _ rejected h4) in
      (
        ap (λ k. p.bit_length k.modulus) (sym same)
            ∙ (==_iff (p.bit_length found.modulus) 2048).0 both.0,
        ap (λ k. k.exponent) (sym same) ∙ (==_iff found.exponent 65537).0 both.1,
      )

module _ (p : Primitives) (e : Emulator) where
  -- An accepted M2 finds a private key and sets the derived keys.
  pub accepted_hash :
      (body : Option WireMessage) (done : Reply × Emulator)
      → check_hash p body e ≡ ok done
      → (private_key : ℕ) × ((e.transcript.dh ≡ some private_key)
          × ((shared : Bytes) × ((salt : Bytes) × ((nonce2 : Bytes) × ((client_public : Bytes)
                    × ((m2hmac : Bytes) × (accept_hash p nonce2 client_public m2hmac
                            (derive_keys p.hmac shared salt)
                            e
                          ≡ done)))))))
  unfolding check_hash
  accepted_hash body done h =
      let (private_key, (h0, r0)) = bind_ok (or_error expired e.transcript.dh) _ done h in
      let (u1, (h1, r1)) =
        bind_ok (require (not (length e.transcript.nonce1 == 0)) expired) _ done r0 in
      let (m2, (h2, r2)) = bind_ok (or_error invalid_json body) _ done r1 in
      let (nonce1, (h3, r3)) =
        bind_ok (or_reply invalid_message (decode_field p m2.a 16)) _ done r2 in
      let (nonce2, (h4, r4)) =
        bind_ok (or_reply invalid_message (decode_field p m2.b 16)) _ done r3 in
      let (mac, (h5, r5)) = bind_ok (or_reply invalid_message (decode_field p m2.c 6)) _ done r4 in
      let (client_public, (h6, r6)) =
        bind_ok (or_reply invalid_message (decode_field p m2.d 257)) _ done r5 in
      let (m2hmac, (h7, r7)) =
        bind_ok (or_reply invalid_message (decode_field p m2.e 32)) _ done r6 in
      let (u8, (h8, r8)) =
        bind_ok (same_bytes invalid_message nonce1 e.transcript.nonce1) _ done r7 in
      let (u9, (h9, r9)) = bind_ok (same_bytes invalid_message mac e.transcript.mac) _ done r8 in
      let (shared, (h10, r10)) =
        bind_ok (or_reply rejected (shared_bytes p.prime private_key client_public)) _ done r9 in
      let (u11, (h11, r11)) = bind_ok (same_bytes rejected m2hmac _) _ done r10 in
      (
        private_key,
        (
          or_error-some expired e.transcript.dh private_key h0,
          (
            shared,
            (nonce1 ++ (mac ++ nonce2), (nonce2, (client_public, (m2hmac, ok-injective r11)))),
          ),
        ),
      )

  -- An accepted M4 carries the hash of a secret and of the device's PIN, under the derived key.
  pub accepted_proof :
      (body : Option WireMessage) (done : Reply × Emulator)
      → check_proof p body e ≡ ok done
      → (m4 : WireMessage) × ((rs : Bytes) × ((r_hash : Bytes) × ((wrapped_rs : Bytes)
              × ((m4hmac : Bytes) × ((body ≡ some m4)
                    × ((not (length e.transcript.auth_key == 0) ≡ true)
                        × ((decode_field p m4.b 32 ≡ ok r_hash)
                            × ((r_hash
                                  ≡ hash_mac p.hmac e.transcript.auth_key (
                                      rs
                                      ∷ (hash_mac p.hmac e.transcript.auth_key (e.pin ∷ [])
                                          ∷ (e.transcript.other_raw
                                              ∷ (e.transcript.client_public ∷ [])))))
                                × (accept_proof p r_hash wrapped_rs m4hmac e ≡ done)))))))))
  unfolding check_proof
  accepted_proof body done h =
      let (u0, (h0, r0)) =
        bind_ok (require (not (length e.transcript.auth_key == 0)) expired) _ done h in
      let (m4, (h1, r1)) = bind_ok (or_error invalid_json body) _ done r0 in
      let (nonce1, (h2, r2)) =
        bind_ok (or_reply invalid_message (decode_field p m4.a 16)) _ done r1 in
      let (r_hash, (h3, r3)) =
        bind_ok (or_reply invalid_message (decode_field p m4.b 32)) _ done r2 in
      let (wrapped_rs, (h4, r4)) =
        bind_ok (or_reply invalid_message (decode_field_range p m4.d 32 128)) _ done r3 in
      let (m4hmac, (h5, r5)) =
        bind_ok (or_reply invalid_message (decode_field p m4.e 32)) _ done r4 in
      let (u6, (h6, r6)) =
        bind_ok (same_bytes invalid_message nonce1 e.transcript.nonce1) _ done r5 in
      let (rs, (h7, r7)) =
        bind_ok
          (or_reply rejected
            (unwrap p.hmac p.cbc_decrypt wrapped_rs e.transcript.auth_key e.transcript.wrap_key))
          _ done r6 in
      let (u8, (h8, r8)) = bind_ok (same_bytes rejected m4hmac _) _ done r7 in
      let (u9, (h9, r9)) = bind_ok (same_bytes rejected r_hash _) _ done r8 in
      (
        m4,
        (
          rs,
          (
            r_hash,
            (
              wrapped_rs,
              (
                m4hmac,
                (
                  or_error-some invalid_json body m4 h1,
                  (
                    require-true _ expired h0,
                    (
                      or_reply_ok invalid_message (decode_field p m4.b 32) r_hash h3,
                      (same_bytes_equal rejected r_hash _ h9, ok-injective r9),
                    ),
                  ),
                ),
              ),
            ),
          ),
        ),
      )

  -- An accepted M6 finds a wrapped certificate, adds one registration and ends the exchange of keys.
  pub accepted_registration :
      (body : Option WireMessage) (done : Reply × Emulator)
      → check_registration p body e ≡ ok done
      → (not (length e.transcript.wrapped_certificate == 0) ≡ true)
        × ((client_id : Bytes) × ((key : PublicKey) × ((p.bit_length key.modulus ≡ 2048)
                × ((key.exponent ≡ 65537)
                    × ((
                      no_content,
                      record e {
                        transcript = record e.transcript { dh = none };
                        registered = (client_id, key) ∷ e.registered;
                      },
                    )
                        ≡ done)))))
  unfolding check_registration read_public_key
  accepted_registration body done h =
      let (u0, (h0, r0)) =
        bind_ok (require (not (length e.transcript.wrapped_certificate == 0)) expired) _ done h in
      let (m6, (h1, r1)) = bind_ok (or_error invalid_json body) _ done r0 in
      let (nonce1, (h2, r2)) = bind_ok (or_reply rejected (decode_field p m6.a 16)) _ done r1 in
      let (wrapped, (h3, r3)) =
        bind_ok (or_reply rejected (decode_field_range p m6.d 64 (max_response_size / 2))) _ done
          r2 in
      let (m6hmac, (h4, r4)) = bind_ok (or_reply rejected (decode_field p m6.e 32)) _ done r3 in
      let (u5, (h5, r5)) = bind_ok (same_bytes rejected nonce1 e.transcript.nonce1) _ done r4 in
      let (u6, (h6, r6)) = bind_ok (same_bytes rejected m6hmac _) _ done r5 in
      let (found, (h7, r7)) =
        bind_ok
          (or_reply rejected
            (unwrap p.hmac p.cbc_decrypt wrapped e.transcript.auth_key e.transcript.wrap_key))
          _ done r6 in
      let (u8, (h8, r8)) = bind_ok (require (ltb 36 (length found)) rejected) _ done r7 in
      let (key, (h9, r9)) = bind_ok (read_public_key p (drop 36 found)) _ done r8 in
      let sizes = read_public_key_checks p (drop 36 found) key h9 in
      (require-true _ expired h0, (take 36 found, (key, (sizes.0, (sizes.1, ok-injective r9)))))
