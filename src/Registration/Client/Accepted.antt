-- ===== src/Registration/Client/Accepted.antt =====
-- Register, from what each of its steps returns.
use dpwire.Prelude.{◌≡◌, refl, ap, false, Bytes, codes, Option, none, some, Result, ok, Effect}
use dpwire.Registration.Messages.{WireMessage, Primitives, RegisterError, is_bad_pin}
use dpwire.Registration.Session.{
  Session, Challenge, PinProof, Certified, Identity, start_session, make_m2, check_m3, prove_pin,
  make_m4, check_m5, finish_session,
}
use dpwire.Registration.Client.{Peer, cleanup, ask_pin, exchange, cleaning_up, register}

module _ {W : Type 0} (p : Primitives) (ask : Peer W)
    (tell : Bytes → Option WireMessage → Effect RegisterError W (Unit {0})) where
  ask_pin_lem :
      (provide_pin : Effect RegisterError W Bytes) (pin : Bytes) (w later : W)
      → provide_pin w ≡ (ok pin, later)
      → is_bad_pin pin ≡ false
      → ask_pin p ask tell provide_pin w ≡ (ok pin, later)
  unfolding ask_pin
  ask_pin_lem provide_pin pin w later h good = rw (ask_pin, h, good) refl

  pub exchange_lem :
      (provide_pin : Effect RegisterError W Bytes) (random pin : Bytes) (w0 w1 w2 w3 w4 w5 : W)
      (m1 m3 m5 m6 : WireMessage) (started : Session × Bytes) (challenge : Challenge)
      (proof : PinProof × Bytes) (certified : Certified) (identity : Identity)
      → ask (codes "POST /register/pin") none w0 ≡ (ok m1, w1)
      → start_session p m1 random ≡ ok started
      → ask (codes "POST /register/hash") (some (make_m2 p started.0)) w1 ≡ (ok m3, w2)
      → check_m3 p started.0 m3 ≡ ok challenge
      → provide_pin w2 ≡ (ok pin, w3)
      → is_bad_pin pin ≡ false
      → prove_pin p started.0 challenge pin started.1 ≡ ok proof
      → ask (codes "POST /register/ca") (some (make_m4 p started.0 proof.0)) w3 ≡ (ok m5, w4)
      → check_m5 p started.0 challenge proof.0 m5 ≡ ok certified
      → finish_session p started.0 certified proof.1 ≡ ok (m6, identity)
      → tell (codes "POST /register") (some m6) w4 ≡ (ok tt, w5)
      → exchange p ask tell provide_pin random w0 ≡ (ok identity, w5)
  unfolding exchange
  exchange_lem provide_pin random pin w0 w1 w2 w3 w4 w5 m1 m3 m5 m6 started challenge proof
        certified identity h1 h2 h3 h4 h5 good h6 h7 h8 h9 h10 =
      rw (exchange, h1, h2, h3, h4, ask_pin_lem provide_pin pin w2 w3 h5 good, h6, h7, h8, h9, h10)
        refl

  pub register_lem :
      (provide_pin : Effect RegisterError W Bytes) (random : Bytes) (w w0 w5 w6 : W)
      (identity : Identity) (answer : Result RegisterError (Unit {0}))
      → cleanup p ask tell w ≡ (ok tt, w0)
      → exchange p ask tell provide_pin random w0 ≡ (ok identity, w5)
      → cleanup p ask tell w5 ≡ (answer, w6)
      → register p ask tell (some provide_pin) random w ≡ (ok identity, w6)
  unfolding register cleaning_up
  register_lem provide_pin random w w0 w5 w6 identity answer h1 h2 h3 =
      let accepted : (cleanup p ask tell w).0 ≡ ok tt = ap (λ r. r.0) h1 in
      let begun : (cleanup p ask tell w).1 ≡ w0 = ap (λ r. r.1) h1 in
      let end : (exchange p ask tell provide_pin random w0).1 ≡ w5 = ap (λ r. r.1) h2 in
      let answered : (exchange p ask tell provide_pin random w0).0 ≡ ok identity =
        ap (λ r. r.0) h2 in
      let last : (cleanup p ask tell w5).1 ≡ w6 = ap (λ r. r.1) h3 in
      rw (register, accepted, begun, cleaning_up, answered, end, last) refl
