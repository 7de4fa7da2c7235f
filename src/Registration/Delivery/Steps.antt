-- ===== src/Registration/Delivery/Steps.antt =====
-- Each step of one registration: what it returns and the device's state behind it.
use dpwire.Prelude.{
  ℕ, ◌/◌, ◌≡◌, refl, ◌∙◌, ◌++◌, Bytes, codes, length, List, none, some, ok, arith, length-append,
}
use dpwire.Crypto.Words.{AreBytes, fill_bytes-AreBytes}
use dpwire.Crypto.Powers.{exp_mod}
use dpwire.Registration.Exchange.{public_bytes, shared_bytes}
use dpwire.Registration.Exchange.Agreement.{length-public_bytes}
use dpwire.Registration.Keys.{length-derive_keys}
use dpwire.Registration.Wrapping.{hash_mac}
use dpwire.Registration.Messages.{decode_field, random_uuid, max_response_size}
use dpwire.Registration.Laws.{
  Laws, IsRead, IsSealed, decode_field-encode, decode_field_range-encode,
}
use dpwire.Registration.Session.{
  make_m2, m2hmac, want_m3, pin_hash, m4hmac_of, make_m4, want_m5, make_m6, m6hmac_of,
  start_session, check_m3, prove_pin, check_m5, finish_session,
}
use dpwire.Registration.Session.Accepted.{
  start_session_lem, check_m3_lem, prove_pin_lem, check_m5_lem, finish_session_lem,
}
use dpwire.Registration.Emulator.{no_transcript, accept_hash}
use dpwire.Registration.Emulator.Accepted.{
  serve_pin_lem, serve_hash_lem, serve_ca_lem, read_public_key_lem, accept_proof_lem,
  serve_registration_lem,
}
use dpwire.Registration.Delivery.{deliver, deliver_only}
use dpwire.Registration.Delivery.Reads.{IsCertificate, IsPublicPem}
use dpwire.Registration.Delivery.Run.{
  Run, keys, session, psk, e_hash, challenge, m1, m3, e1, e2, proof, m5, e3, certified, identity,
  e4,
}
use dpwire.Registration.Delivery.Requests.{
  delivered_pin, delivered_hash, delivered_ca, delivered_registration,
}

module _ (r : Run) (laws : Laws r.p) where
  mac_size : (k' : Bytes) (vs : List Bytes) → length (hash_mac r.p.hmac k' vs) ≡ 32
  unfolding hash_mac
  mac_size k' vs = laws.length-hmac k' _

  mac_bytes : (k' : Bytes) (vs : List Bytes) → AreBytes (hash_mac r.p.hmac k' vs)
  unfolding hash_mac
  mac_bytes k' vs = laws.hmac-AreBytes k' _

  mac_field :
      (k' : Bytes) (vs : List Bytes)
      → decode_field r.p (r.p.encode (hash_mac r.p.hmac k' vs)) 32 ≡ ok (hash_mac r.p.hmac k' vs)
  mac_field k' vs =
      decode_field-encode r.p laws (hash_mac r.p.hmac k' vs) 32 (mac_bytes k' vs) (mac_size k' vs)

  public_field : (k : ℕ) → AreBytes (public_bytes r.p.prime k)
  unfolding public_bytes
  public_field k = (omega arith, fill_bytes-AreBytes 256 (exp_mod 2 k r.p.prime))

  read_field :
      {n : ℕ} {from value rest : Bytes}
      → IsRead n from value rest
      → decode_field r.p (r.p.encode value) n ≡ ok value
  read_field {n = n} {value = value} h = decode_field-encode r.p laws value n h.bytes h.size

  pub keys_size : (length (keys r).0 ≡ 32) × (length (keys r).1 ≡ 16)
  keys_size =
      length-derive_keys r.p.hmac (λ k m. omega (arith, laws.length-hmac k m)) r.secret
        (r.d.nonce1 ++ (r.d.mac ++ r.c.nonce2))

  pub step1 :
      deliver r.p (codes "POST /register/pin") none (record (r.e) { transcript = no_transcript })
      ≡ (ok (m1 r), (e1 r))
  step1 =
      delivered_pin r.p (record (r.e) { transcript = no_transcript }) (m1 r) (e1 r)
        (serve_pin_lem r.p (record (r.e) { transcript = no_transcript }) (r.d.nonce1, r.d.d1)
          (r.d.mac, r.d.d2) (r.d.es, r.d.d3) (r.d.private_key, r.d.d4) r.d.nonce1_read.read
          r.d.mac_read.read r.d.es_read.read r.d.key_drawn)

  pub step2 :
      shared_bytes r.p.prime r.c.private_key (public_bytes r.p.prime r.d.private_key) ≡ ok r.secret
      → start_session r.p (m1 r) r.random ≡ ok ((session r), r.c.c2)
  step2 agreed =
      start_session_lem r.p (m1 r) r.random r.d.nonce1 r.d.mac
        (public_bytes r.p.prime r.d.private_key) r.secret (r.c.private_key, r.c.c1)
        (r.c.nonce2, r.c.c2) (read_field r.d.nonce1_read) (read_field r.d.mac_read)
        (decode_field_range-encode r.p laws (public_bytes r.p.prime r.d.private_key) 256 257
          (public_field r.d.private_key)
          (omega (arith, length-public_bytes r.p.prime laws.group r.d.private_key))
          (omega (arith, length-public_bytes r.p.prime laws.group r.d.private_key)))
        r.c.key_drawn agreed r.c.nonce2_read.read

  pub step3 :
      shared_bytes r.p.prime r.d.private_key (public_bytes r.p.prime r.c.private_key) ≡ ok r.secret
      → deliver r.p (codes "POST /register/hash") (some (make_m2 r.p (session r))) (e1 r)
        ≡ (ok (m3 r), (e2 r))
  unfolding make_m2 m2hmac accept_hash pin_hash want_m3
  step3 agreed = delivered_hash r.p (e1 r) (m3 r) (e2 r) (make_m2 r.p (session r)) (
      serve_hash_lem r.p (e1 r) r.d.private_key (make_m2 r.p (session r)) r.c.nonce2
        (public_bytes r.p.prime r.c.private_key) r.secret refl r.d.nonce1_read.size
        (read_field r.d.nonce1_read) (read_field r.c.nonce2_read) (read_field r.d.mac_read)
        (decode_field-encode r.p laws (public_bytes r.p.prime r.c.private_key) 257
          (public_field r.c.private_key) (length-public_bytes r.p.prime laws.group r.c.private_key))
        agreed (keys r) refl (m2hmac r.p (session r)) (mac_field _ _) refl)

  pub step4 : check_m3 r.p (session r) (m3 r) ≡ ok (challenge r)
  unfolding pin_hash want_m3
  step4 =
      check_m3_lem r.p (session r) (m3 r) (e_hash r) (read_field r.c.nonce2_read) (mac_field _ _)
        (mac_field _ _)

  module _ (rs_sealed : IsSealed r.p r.c.rs (keys r).0 (keys r).1 r.c.c3 r.c.c4 r.wrapped_rs) where
    pub step5 : prove_pin r.p (session r) (challenge r) r.e.pin r.c.c2 ≡ ok ((proof r), r.c.c4)
    step5 =
        prove_pin_lem r.p (session r) (challenge r) r.e.pin r.c.c2 (r.c.rs, r.c.c3)
          (r.wrapped_rs, r.c.c4) r.c.rs_read.read rs_sealed.sealed

    pub step6 :
        IsSealed r.p
          (r.d.es ++ r.e.certificate)
          (keys r).0
          (keys r).1
          r.d.d4
          r.d.d5
          r.wrapped_certificate
        → deliver r.p (codes "POST /register/ca") (some (make_m4 r.p (session r) (proof r))) (e2 r)
          ≡ (ok (m5 r), (e3 r))
    unfolding make_m4 pin_hash m4hmac_of want_m5
    step6 certificate_sealed =
        delivered_ca r.p (e2 r) (m5 r) (e3 r) (make_m4 r.p (session r) (proof r)) (
          serve_ca_lem r.p (e2 r) (make_m4 r.p (session r) (proof r))
            (pin_hash r.p (session r) r.c.rs (psk r)) r.wrapped_rs r.c.rs keys_size.0
            (read_field r.d.nonce1_read) (mac_field _ _)
            (decode_field_range-encode r.p laws r.wrapped_rs 32 128 rs_sealed.bytes
              (omega (arith, rs_sealed.size, r.c.rs_read.size))
              (omega (arith, rs_sealed.size, r.c.rs_read.size)))
            rs_sealed.opened
            (m4hmac_of r.p (session r) (challenge r) (pin_hash r.p (session r) r.c.rs (psk r))
              r.wrapped_rs)
            (mac_field _ _) refl refl
          ∙ accept_proof_lem r.p (e2 r) (pin_hash r.p (session r) r.c.rs (psk r)) r.wrapped_rs
              (m4hmac_of r.p (session r) (challenge r) (pin_hash r.p (session r) r.c.rs (psk r))
                r.wrapped_rs)
              r.wrapped_certificate r.d.d5 certificate_sealed.sealed)

  pub step7 :
      IsSealed r.p
        (r.d.es ++ r.e.certificate)
        (keys r).0
        (keys r).1
        r.d.d4
        r.d.d5
        r.wrapped_certificate
      → IsCertificate r.p r.e.certificate
      → check_m5 r.p (session r) (challenge r) (proof r) (m5 r) ≡ ok (certified r)
  unfolding pin_hash want_m5
  step7 certificate_sealed cert =
      let size = certificate_sealed.size in
      let both = length-append r.d.es r.e.certificate in
      check_m5_lem r.p (session r) (challenge r) (proof r) (m5 r) r.wrapped_certificate r.d.es
        r.e.certificate (read_field r.c.nonce2_read)
        (decode_field_range-encode r.p laws r.wrapped_certificate 32 (max_response_size / 2)
          certificate_sealed.bytes (omega (arith, size))
          (omega (arith, size, both, cert.fits, r.d.es_read.size)))
        (mac_field _ _) r.d.es_read.size cert.some_bytes certificate_sealed.opened refl
        cert.accepted

  module _ (id_size : length r.client_id ≡ 36)
      (named : random_uuid r.c.c5 ≡ ok (r.client_id, r.c.c6))
      (sealed : IsSealed r.p
        (r.client_id ++ r.c.generated.public_pem)
        (keys r).0
        (keys r).1
        r.c.c6
        r.c.c7
        r.wrapped_identity) where
    pub step8 :
        finish_session r.p (session r) (certified r) r.c.c4
        ≡ ok (make_m6 r.p (session r) (certified r) r.wrapped_identity, (identity r))
    step8 =
        finish_session_lem r.p (session r) (certified r) r.c.c4 (r.c.generated, r.c.c5)
          (r.client_id, r.c.c6) (r.wrapped_identity, r.c.c7) r.c.key_generated named sealed.sealed

    module _ (pem : IsPublicPem r.p r.c.generated.public_pem r.key) where
      pub step9 :
          IsSealed r.p
            (r.d.es ++ r.e.certificate)
            (keys r).0
            (keys r).1
            r.d.d4
            r.d.d5
            r.wrapped_certificate
          → deliver_only r.p
              (codes "POST /register")
              (some (make_m6 r.p (session r) (certified r) r.wrapped_identity))
              (e3 r)
            ≡ (ok tt, (e4 r))
      unfolding make_m6 m6hmac_of
      step9 certificate_sealed =
          let size = sealed.size in
          let both = length-append r.client_id r.c.generated.public_pem in
          delivered_registration r.p (e3 r) (e4 r)
            (make_m6 r.p (session r) (certified r) r.wrapped_identity)
            (serve_registration_lem r.p (e3 r)
              (make_m6 r.p (session r) (certified r) r.wrapped_identity) r.wrapped_identity
              r.client_id r.c.generated.public_pem r.key (omega (arith, certificate_sealed.size))
              (read_field r.d.nonce1_read)
              (decode_field_range-encode r.p laws r.wrapped_identity 64 (max_response_size / 2)
                sealed.bytes (omega (arith, size, both, id_size, pem.some_bytes))
                (omega (arith, size, both, id_size, pem.fits)))
              (mac_field _ _) sealed.opened id_size pem.some_bytes
              (read_public_key_lem r.p (e3 r) r.c.generated.public_pem pem.block r.key pem.decoded
                pem.typed pem.nothing_else pem.parsed pem.size pem.exponent))
