-- ===== src/Registration/Delivery/Complete.antt =====
-- A registration with the right PIN succeeds, from the first request to the last.
use dpwire.Prelude.{◌≡◌, refl, true, false, ◌∷◌, ◌++◌, Bytes, length, some, ok, arith}
use dpwire.Device.State.{PublicKey}
use dpwire.Crypto.Words.{AreBytes-append}
use dpwire.Crypto.Aeskw.{is_key}
use dpwire.Registration.Exchange.{public_bytes, shared_bytes}
use dpwire.Registration.Exchange.Agreement.{shared_bytes_agree}
use dpwire.Registration.Keys.{derive_keys, length-derive_keys}
use dpwire.Registration.Messages.{Primitives, is_bad_pin, random_uuid}
use dpwire.Registration.Laws.{Laws, IsSealed, wrap_reading-IsSealed}
use dpwire.Registration.Client.{cleanup, register}
use dpwire.Registration.Client.Accepted.{exchange_lem, register_lem}
use dpwire.Registration.Emulator.{Emulator, no_transcript}
use dpwire.Registration.Delivery.{deliver, deliver_only}
use dpwire.Registration.Delivery.Reads.{
  DeviceReads, ClientReads, IsCertificate, IsPublicPem, random_uuid-IsRead,
}
use dpwire.Registration.Delivery.Run.{
  Run, m6, keys, session, challenge, m1, m3, e1, e2, proof, m5, e3, certified, identity, e4,
}
use dpwire.Registration.Delivery.Requests.{delivered_cleanup}
use dpwire.Registration.Delivery.Steps.{
  step1, step2, step3, step4, step5, step6, step7, step8, step9,
}

-- What the two sides compute in a run.
pub record IsRun (r : Run) : Type 0 where
  pub ours :
      shared_bytes r.p.prime r.c.private_key (public_bytes r.p.prime r.d.private_key) ≡ ok r.secret
  pub theirs :
      shared_bytes r.p.prime r.d.private_key (public_bytes r.p.prime r.c.private_key) ≡ ok r.secret
  pub named : random_uuid r.c.c5 ≡ ok (r.client_id, r.c.c6)
  pub id_size : length r.client_id ≡ 36
  pub rs_sealed : IsSealed r.p r.c.rs (keys r).0 (keys r).1 r.c.c3 r.c.c4 r.wrapped_rs
  pub certificate_sealed :
      IsSealed r.p
        (r.d.es ++ r.e.certificate)
        (keys r).0
        (keys r).1
        r.d.d4
        r.d.d5
        r.wrapped_certificate
  pub identity_sealed :
      IsSealed r.p
        (r.client_id ++ r.c.generated.public_pem)
        (keys r).0
        (keys r).1
        r.c.c6
        r.c.c7
        r.wrapped_identity

-- The reads determine a run.
pub made-IsRun :
    (p : Primitives) (e : Emulator) (random : Bytes) (key : PublicKey)
    → Laws p
    → (d : DeviceReads p e.random) (c : ClientReads p random) → IsCertificate p e.certificate
    → IsPublicPem p c.generated.public_pem key
    → (secret wrapped_rs wrapped_certificate wrapped_identity client_id : Bytes) × IsRun (record {
      p = p;
      e = e;
      random = random;
      d = d;
      c = c;
      secret = secret;
      wrapped_rs = wrapped_rs;
      wrapped_certificate = wrapped_certificate;
      wrapped_identity = wrapped_identity;
      client_id = client_id;
      key = key;
    })
made-IsRun p e random key laws d c cert pem =
    let (secret, (secret_size, (theirs, ours))) =
      shared_bytes_agree p.prime d.private_key c.private_key laws.group d.key_IsPrivate
        c.key_IsPrivate in
    let (client_id, (named, (id_size, id_bytes))) =
      random_uuid-IsRead c.c5 c.uuid c.c6 c.uuid_read in
    let derived = derive_keys p.hmac secret (d.nonce1 ++ (d.mac ++ c.nonce2)) in
    let sizes =
      length-derive_keys p.hmac (λ k m. omega (arith, laws.length-hmac k m)) secret
        (d.nonce1 ++ (d.mac ++ c.nonce2)) in
    let is_wrap_key : is_key derived.1 ≡ true = ground (arith, sizes.1) in
    let (wrapped_rs, rs_sealed) =
      wrap_reading-IsSealed p laws c.rs derived.0 derived.1 c.c3 c.iv c.c4 c.rs_read.bytes
        is_wrap_key c.iv_read in
    let (wrapped_certificate, certificate_sealed) =
      wrap_reading-IsSealed p laws (d.es ++ e.certificate) derived.0 derived.1 d.d4 d.iv d.d5
        (AreBytes-append d.es e.certificate d.es_read.bytes cert.bytes) is_wrap_key d.iv_read in
    let (wrapped_identity, identity_sealed) =
      wrap_reading-IsSealed p laws (client_id ++ c.generated.public_pem) derived.0 derived.1 c.c6
        c.last_iv c.c7 (AreBytes-append client_id c.generated.public_pem id_bytes pem.bytes)
        is_wrap_key c.last_iv_read in
    (
      secret,
      wrapped_rs,
      wrapped_certificate,
      wrapped_identity,
      client_id,
      record {
        ours = ours;
        theirs = theirs;
        named = named;
        id_size = id_size;
        rs_sealed = rs_sealed;
        certificate_sealed = certificate_sealed;
        identity_sealed = identity_sealed;
      },
    )

module _ (r : Run) (laws : Laws r.p) (is_run : IsRun r) (cert : IsCertificate r.p r.e.certificate)
    (pem : IsPublicPem r.p r.c.generated.public_pem r.key)
    (good_pin : is_bad_pin r.e.pin ≡ false) where
  run_completes :
      register r.p (deliver r.p) (deliver_only r.p) (some (λ w. (ok r.e.pin, w))) r.random r.e
      ≡ (ok (identity r), record (e4 r) { transcript = no_transcript })
  unfolding cleanup
  run_completes =
      let i = is_run in
      register_lem r.p (deliver r.p) (deliver_only r.p) (λ w. (ok r.e.pin, w)) r.random r.e
        (record (r.e) { transcript = no_transcript }) (e4 r)
        (record (e4 r) { transcript = no_transcript }) (identity r) (ok tt)
        (delivered_cleanup r.p r.e)
        (exchange_lem r.p (deliver r.p) (deliver_only r.p) (λ w. (ok r.e.pin, w)) r.random r.e.pin
          (record (r.e) { transcript = no_transcript }) (e1 r) (e2 r) (e2 r) (e3 r) (e4 r) (m1 r)
          (m3 r) (m5 r) (m6 r) (session r, r.c.c2) (challenge r) (proof r, r.c.c4) (certified r)
          (identity r) (step1 r laws) (step2 r laws i.ours) (step3 r laws i.theirs) (step4 r laws)
          refl good_pin (step5 r laws i.rs_sealed) (step6 r laws i.rs_sealed i.certificate_sealed)
          (step7 r laws i.certificate_sealed cert)
          (step8 r laws i.id_size i.named i.identity_sealed)
          (step9 r laws i.id_size i.named i.identity_sealed pem i.certificate_sealed))
        (delivered_cleanup r.p (e4 r))

-- Whatever cryptography satisfies the laws: the client's Register against the device's handlers, with the
-- device's PIN, returns without an error. It returns the identifier that it drew, its new private key and the
-- device's certificate; the device has registered exactly that identifier with the client's public key, and
-- has no sequence open. The two readers give what the run reads, the two Diffie-Hellman keys have public
-- values other than 1, the certificate and the client's PEM text are well formed and of at most
-- 500000 bytes, and the PIN is one that the client takes.
pub register_completes :
    (p : Primitives) (e : Emulator) (random : Bytes) (key : PublicKey)
    → Laws p
    → (d : DeviceReads p e.random) (c : ClientReads p random) → IsCertificate p e.certificate
    → IsPublicPem p c.generated.public_pem key
    → is_bad_pin e.pin ≡ false
    → (client_id : Bytes) × ((last : Emulator) × ((length client_id ≡ 36)
          × ((register p (deliver p) (deliver_only p) (some (λ w. (ok e.pin, w))) random e ≡ (
            ok (record {
              client_id = client_id;
              private_key_pem = c.generated.private_pem;
              device_ca_pem = e.certificate;
            }),
            last,
          ))
              × ((last.registered ≡ (client_id, key) ∷ e.registered)
                  × (last.transcript ≡ no_transcript)))))
register_completes p e random key laws d c cert pem good_pin =
    let (secret, wrapped_rs, wrapped_certificate, wrapped_identity, client_id, is_run) =
      made-IsRun p e random key laws d c cert pem in
    let r : Run = record {
      p = p;
      e = e;
      random = random;
      d = d;
      c = c;
      secret = secret;
      wrapped_rs = wrapped_rs;
      wrapped_certificate = wrapped_certificate;
      wrapped_identity = wrapped_identity;
      client_id = client_id;
      key = key;
    } in
    (
      client_id,
      (
        record (e4 r) { transcript = no_transcript },
        (is_run.id_size, (run_completes r laws is_run cert pem good_pin, (refl, refl))),
      ),
    )
