-- ===== src/Registration/Session/Trust.antt =====
-- What a device has shown when the client goes on.
use dpwire.Prelude.{
  ◌/◌, ◌≡◌, ◌≤◌, sym, ap, ◌∙◌, [], ◌∷◌, ◌++◌, Bytes, length, take, drop, leb, length-take,
  take-append-drop, Result-cases, bytes_eq, bytes_eq_iff, Result, ok, err, bind_ok, ok-injective,
  Bool-cases, inl, inr, arith,
}
use dpwire.Registration.Messages.{
  WireMessage, Primitives, not_authenticated, pin_rejected, decode_field, decode_field_range,
  validate_certificate_pem, max_response_size, RegisterError, invalid_wrapped_certificate,
  random_failed, wrap_failed, or_error, wrapping_error,
}
use dpwire.Registration.Exchange.{read_full}
use dpwire.Registration.Wrapping.{hash_mac, unwrap}
use dpwire.Registration.Session.{
  prove_pin, wrap_reading, check_m3, want_m3, Session, Challenge, PinProof, Certified, same_bytes,
  check_nonce, want_m5, open_certificate, pin_hash, check_m5,
}

pub same_bytes_equal : {E : Type 0} (r : E) (a b : Bytes) → same_bytes r a b ≡ ok tt → a ≡ b
unfolding same_bytes
same_bytes_equal r a b h = elim (Bool-cases (bytes_eq a b)) [
  | inl same ↦ (bytes_eq_iff a b).0 same
  | inr other ↦
      let bad : ◌≡◌ {A = Result _ (Unit {0})} (err r) (ok tt) = rw (same_bytes, other) at h in
      ground arith
]

-- What is taken from M5 is two parts of one unwrapped text, the first of them sixteen bytes.
open_certificate_ok :
    (p : Primitives) (s : Session) (wrapped es certificate : Bytes)
    → open_certificate p s wrapped ≡ ok (es, certificate)
    → (unwrap p.hmac p.cbc_decrypt wrapped s.auth_key s.wrap_key ≡ ok (es ++ certificate))
      × (length es ≡ 16)
unfolding open_certificate
open_certificate_ok p s wrapped es certificate h =
    elim (Result-cases (unwrap p.hmac p.cbc_decrypt wrapped s.auth_key s.wrap_key)) [
      | inr (x, e) ↦
          let bad : ◌≡◌ {A = Result RegisterError (Bytes × Bytes)} (err invalid_wrapped_certificate)
              (ok (es, certificate)) =
            rw (open_certificate, e) at h in
          ground arith
      | inl (both, e) ↦ elim (Bool-cases (leb (length both) 16)) [
        | inl short ↦
            let bad : ◌≡◌ {A = Result RegisterError (Bytes × Bytes)}
                (err invalid_wrapped_certificate) (ok (es, certificate)) =
              rw (open_certificate, e, short) at h in
            ground arith
        | inr long ↦
            let same : ◌≡◌ {A = Bytes × Bytes} (take 16 both, drop 16 both) (es, certificate) =
              ok-injective (rw (open_certificate, e, long) at h) in
            let size : 16 ≤ length both = ground (arith, long) in
            (
              e ∙ ap ok (sym (take-append-drop 16 both) ∙ ap (λ x. x.0 ++ x.1) same),
              ap (λ x. length x.0) (sym same) ∙ omega (arith, length-take 16 both, size),
            )
      ]
    ]

-- The PIN's hash that a proof carries.
prove_pin-psk :
    (p : Primitives) (s : Session) (c : Challenge) (pin random rest : Bytes) (proof : PinProof)
    → prove_pin p s c pin random ≡ ok (proof, rest)
    → proof.psk ≡ hash_mac p.hmac s.auth_key (pin ∷ [])
unfolding prove_pin
prove_pin-psk p s c pin random rest proof h =
    let (read, (e1, h1)) =
      bind_ok (or_error random_failed (read_full 16 random)) _ (proof, rest) h in
    let (sealed, (e2, h2)) =
      bind_ok (wrapping_error wrap_failed (wrap_reading p read.0 s.auth_key s.wrap_key read.1)) _
        (proof, rest) h1 in
    sym (ap (λ r. r.0.psk) (ok-injective h2))

-- The commitment that the client has taken from M3.
check_m3-committed :
    (p : Primitives) (s : Session) (m3 : WireMessage) (c : Challenge)
    → check_m3 p s m3 ≡ ok c
    → decode_field p m3.b 32 ≡ ok c.e_hash
unfolding check_m3
check_m3-committed p s m3 c h =
    let (u0, (h0, r0)) = bind_ok (check_nonce p s m3.a) _ c h in
    let (e_hash, (h1, r1)) = bind_ok (decode_field p m3.b 32) _ c r0 in
    let (m3hmac, (h2, r2)) = bind_ok (decode_field p m3.e 32) _ c r1 in
    let (u3, (h3, r3)) =
      bind_ok (same_bytes not_authenticated m3hmac (want_m3 p s e_hash)) _ c r2 in
    h1 ∙ ap (λ x. ok x.e_hash) (ok-injective r3)

-- Where the client has taken M3, proved the PIN that it was given and then takes M5, the certificate that it
-- keeps is a PEM chain of certificates. The field d of M5 is a wrapped certificate, and its field e the MAC over
-- the proof that was sent and that wrapped certificate; what was wrapped is a secret of sixteen bytes and then
-- the certificate. The device had committed itself in M3 to that secret and the PIN: the field b of M3 is the
-- MAC of the secret, the hash of the PIN and the two public values.
pub check_m5-IsBound :
    (p : Primitives) (s : Session) (m3 m5 : WireMessage) (c : Challenge) (pin random rest : Bytes)
    (proof : PinProof) (done : Certified)
    → check_m3 p s m3 ≡ ok c
    → prove_pin p s c pin random ≡ ok (proof, rest)
    → check_m5 p s c proof m5 ≡ ok done
    → (validate_certificate_pem p done.certificate ≡ ok tt)
      × ((decode_field_range p m5.d 32 (max_response_size / 2) ≡ ok done.wrapped_certificate)
          × ((decode_field p m5.e 32
                ≡ ok (
                    hash_mac p.hmac s.auth_key (
                      s.nonce1
                      ∷ (proof.r_hash
                          ∷ (proof.wrapped_rs
                              ∷ (proof.m4hmac ∷ (s.nonce2 ∷ (done.wrapped_certificate ∷ []))))))))
              × ((es : Bytes) × ((length es ≡ 16)
                    × ((unwrap p.hmac p.cbc_decrypt done.wrapped_certificate s.auth_key s.wrap_key
                          ≡ ok (es ++ done.certificate))
                        × (decode_field p m3.b 32
                            ≡ ok (
                                hash_mac p.hmac s.auth_key (
                                  es
                                  ∷ (hash_mac p.hmac s.auth_key (pin ∷ [])
                                      ∷ (s.other_raw ∷ (s.public_key ∷ [])))))))))))
unfolding check_m5 pin_hash want_m5
check_m5-IsBound p s m3 m5 c pin random rest proof done committed proved h =
    let (u0, (h0, r0)) = bind_ok (check_nonce p s m5.a) _ done h in
    let (wrapped, (h1, r1)) =
      bind_ok (decode_field_range p m5.d 32 (max_response_size / 2)) _ done r0 in
    let (m5hmac, (h2, r2)) = bind_ok (decode_field p m5.e 32) _ done r1 in
    let (u3, (h3, r3)) =
      bind_ok (same_bytes not_authenticated m5hmac (want_m5 p s proof wrapped)) _ done r2 in
    let (opened, (h4, r4)) = bind_ok (open_certificate p s wrapped) _ done r3 in
    let (u5, (h5, r5)) =
      bind_ok (same_bytes pin_rejected c.e_hash (pin_hash p s opened.0 proof.psk)) _ done r4 in
    let (u6, (h6, r6)) = bind_ok (validate_certificate_pem p opened.1) _ done r5 in
    let is_done = ok-injective r6 in
    let certificate = ap (λ d. d.certificate) is_done in
    let wrapped_is = ap (λ d. d.wrapped_certificate) is_done in
    let (unwrapped, size) = open_certificate_ok p s wrapped opened.0 opened.1 h4 in
    (
      ap (validate_certificate_pem p) (sym certificate) ∙ h6,
      (
        h1 ∙ ap ok wrapped_is,
        (
          h2
              ∙ ap ok (same_bytes_equal not_authenticated m5hmac _ h3)
              ∙ ap (λ w. ok (want_m5 p s proof w)) wrapped_is,
          (
            opened.0,
            (
              size,
              (
                ap (λ w. unwrap p.hmac p.cbc_decrypt w s.auth_key s.wrap_key) (sym wrapped_is)
                    ∙ unwrapped
                    ∙ ap (λ x. ok (opened.0 ++ x)) certificate,
                check_m3-committed p s m3 c committed
                    ∙ ap ok (same_bytes_equal pin_rejected c.e_hash _ h5)
                    ∙ ap (λ k. ok (pin_hash p s opened.0 k))
                        (prove_pin-psk p s c pin random rest proof proved),
              ),
            ),
          ),
        ),
      ),
    )
