-- ===== src/Registration/Emulator/Phases/Refinement.antt =====
-- The device's handlers refine the machine of four phases.
use dpwire.Prelude.{
  Option-cases, ℕ, ◌≡◌, refl, ◌<◌, true, false, not, [], ◌++◌, Bytes, codes, bytes_eq, length, ◌==◌,
  Option, none, some, Result-cases, Bool-cases, ◌⊎◌, inl, inr, arith,
}
use dpwire.Registration.Exchange.{read_full, new_dh}
use dpwire.Registration.Keys.{derive_keys, length-derive_keys}
use dpwire.Registration.Messages.{WireMessage, Primitives}
use dpwire.Registration.Session.{wrap_reading}
use dpwire.Registration.Emulator.{
  Transcript, Emulator, Reply, message, no_content, failed, no_transcript, out_of_random,
  begin_transcript, serve_pin, accept_hash, check_hash, serve_hash, accept_proof, check_proof,
  serve_ca, check_registration, serve_registration, serve,
}
use dpwire.Registration.Emulator.Checks.{accepted_hash, accepted_proof, accepted_registration}
use dpwire.Registration.Emulator.Phases.{
  greeted, keyed, proved, phase_of, Event, cleaned, sent_greeting, agreed_keys, proved_pin,
  registered, event_at, event_of, Step, clean, greet, agree, agree_again, agree_late, prove,
  prove_again, register, refuse,
}
use dpwire.Registration.Emulator.Phases.Lengths.{length-wrap_reading}

at_proved : (t : Transcript) → not (length t.wrapped_certificate == 0) ≡ true → phase_of t ≡ proved
unfolding phase_of
at_proved t h = rw (phase_of, h) refl

at_keyed :
    (t : Transcript)
    → not (length t.wrapped_certificate == 0) ≡ false
    → not (length t.auth_key == 0) ≡ true
    → phase_of t ≡ keyed
unfolding phase_of
at_keyed t h1 h2 = rw (phase_of, h1, h2) refl

at_greeted :
    (t : Transcript) (private_key : ℕ)
    → not (length t.wrapped_certificate == 0) ≡ false
    → not (length t.auth_key == 0) ≡ false
    → t.dh ≡ some private_key
    → phase_of t ≡ greeted
unfolding phase_of
at_greeted t private_key h1 h2 h3 = rw (phase_of, h1, h2, h3) refl

-- What a handler did: nothing but reading randomness, or a message.
Refines : Emulator → Event → Reply × Emulator → Type 0
Refines e event r =
    ((status : ℕ) × ((code : Bytes) × ((r.0 ≡ failed status code)
          × (r.1.transcript ≡ e.transcript))))
    ⊎ (((r.0 ≡ no_content) ⊎ ((m : WireMessage) × (r.0 ≡ message m)))
        × Step (phase_of e.transcript) event (phase_of r.1.transcript))

module _ (p : Primitives) (macs : (k m : Bytes) → 0 < length (p.hmac k m)) (e : Emulator) where
  random-Refines : (event : Event) (rest : Bytes) → Refines e event (out_of_random rest e)
  unfolding Refines out_of_random
  random-Refines event rest = inl (500, (codes "RANDOM_FAILED", (refl, refl)))

  begin-Refines :
      (nonce1 mac es random : Bytes)
      → Refines e sent_greeting (begin_transcript p nonce1 mac es random e)
  unfolding Refines begin_transcript phase_of
  begin-Refines nonce1 mac es random = elim (Result-cases (new_dh random)) [
    | inl (drawn, h) ↦ rw (begin_transcript, h) (inr (inr (_, refl), greet))
    | inr (x, h) ↦ rw (begin_transcript, h) (random-Refines sent_greeting _)
  ]

  pin-Refines : Refines e sent_greeting (serve_pin p e)
  unfolding serve_pin
  pin-Refines = elim (Option-cases (read_full 16 e.random)) [
    | inl h ↦ rw (serve_pin, h) (random-Refines sent_greeting [])
    | inr (r1, h1) ↦ elim (Option-cases (read_full 6 r1.1)) [
      | inl h ↦ rw (serve_pin, h1, h) (random-Refines sent_greeting [])
      | inr (r2, h2) ↦ elim (Option-cases (read_full 16 r2.1)) [
        | inl h ↦ rw (serve_pin, h1, h2, h) (random-Refines sent_greeting [])
        | inr (r3, h3) ↦ rw (serve_pin, h1, h2, h3) (begin-Refines r1.0 r2.0 r3.0 r3.1)
      ]
    ]
  ]

  long_keys : (shared salt : Bytes) → not (length (derive_keys p.hmac shared salt).0 == 0) ≡ true
  long_keys shared salt = ground (arith, (length-derive_keys p.hmac macs shared salt).0)

  -- Accepting M2 sets the keys: the device is in the third phase, or it stays in the last.
  agree-Refines :
      (private_key : ℕ)
      → e.transcript.dh ≡ some private_key
      → (nonce2 client_public m2hmac : Bytes) (keys : Bytes × Bytes)
      → not (length keys.0 == 0) ≡ true
      → Refines e agreed_keys (accept_hash p nonce2 client_public m2hmac keys e)
  unfolding Refines accept_hash
  agree-Refines private_key h nonce2 client_public m2hmac keys long =
      let t = e.transcript in
      let later = (accept_hash p nonce2 client_public m2hmac keys e).1.transcript in
      elim (Bool-cases (not (length t.wrapped_certificate == 0))) [
        | inl done ↦ inr (inr (_, refl), rw (at_proved t done, at_proved later done) agree_late)
        | inr unproved ↦ elim (Bool-cases (not (length t.auth_key == 0))) [
          | inl had ↦ inr (
            inr (_, refl),
            rw (at_keyed t unproved had, at_keyed later unproved long) agree_again,
          )
          | inr fresh ↦ inr (
            inr (_, refl),
            rw (at_greeted t private_key unproved fresh h, at_keyed later unproved long) agree,
          )
        ]
      ]

  hash-Refines : (body : Option WireMessage) → Refines e agreed_keys (serve_hash p body e)
  unfolding serve_hash Refines
  hash-Refines body = elim (Result-cases (check_hash p body e)) [
    | inr (f, h) ↦ rw (serve_hash, h) (inl (f.0, (f.1, (refl, refl))))
    | inl (done, h) ↦
        let (private_key, (found, (shared, (salt, (nonce2, (client_public, (m2hmac, is_done))))))) =
          accepted_hash p e body done h in
        rw (serve_hash, h, ← is_done)
          (agree-Refines private_key found nonce2 client_public m2hmac
            (derive_keys p.hmac shared salt) (long_keys shared salt))
  ]

  prove-Refines :
      (r_hash wrapped_rs m4hmac : Bytes)
      → not (length e.transcript.auth_key == 0) ≡ true
      → Refines e proved_pin (accept_proof p r_hash wrapped_rs m4hmac e)
  unfolding Refines accept_proof
  prove-Refines r_hash wrapped_rs m4hmac keyed_now =
      let t = e.transcript in
      elim (Result-cases (wrap_reading p (t.es ++ e.certificate) t.auth_key t.wrap_key e.random)) [
        | inr (x, h) ↦ rw (accept_proof, h) (random-Refines proved_pin _)
        | inl (sealed, h) ↦
            let long =
              length-wrap_reading p (t.es ++ e.certificate) t.auth_key t.wrap_key e.random sealed
                h in
            elim (Bool-cases (not (length t.wrapped_certificate == 0))) [
              | inl done ↦
                  rw (accept_proof, h)
                    (inr (inr (_, refl), rw (at_proved t done, at_proved _ long) prove_again))
              | inr unproved ↦
                  rw (accept_proof, h)
                    (inr
                      (inr (_, refl), rw (at_keyed t unproved keyed_now, at_proved _ long) prove))
            ]
      ]

  ca-Refines : (body : Option WireMessage) → Refines e proved_pin (serve_ca p body e)
  unfolding serve_ca Refines
  ca-Refines body = elim (Result-cases (check_proof p body e)) [
    | inr (f, h) ↦ rw (serve_ca, h) (inl (f.0, (f.1, (refl, refl))))
    | inl (done, h) ↦
        let (
          m4,
          (rs, (r_hash, (wrapped_rs, (m4hmac, (body_is, (keyed_now, (field, (hash, is_done)))))))),
        ) =
          accepted_proof p e body done h in
        rw (serve_ca, h, ← is_done) (prove-Refines r_hash wrapped_rs m4hmac keyed_now)
  ]

  registration-Refines :
      (body : Option WireMessage) → Refines e registered (serve_registration p body e)
  unfolding serve_registration Refines
  registration-Refines body = elim (Result-cases (check_registration p body e)) [
    | inr (f, h) ↦ rw (serve_registration, h) (inl (f.0, (f.1, (refl, refl))))
    | inl (done, h) ↦
        let (certified, (client_id, (key, (size, (exponent, is_done))))) =
          accepted_registration p e body done h in
        rw (serve_registration, h, ← is_done)
          (inr (
            inl refl,
            rw
                (
                  at_proved e.transcript certified,
                  at_proved (record (e.transcript) { dh = none }) certified,
                )
                register,
          ))
  ]

-- From what a handler did to a step of the machine.
step_of :
    (e : Emulator) (endpoint : Bytes) (event : Event) (r : Reply × Emulator)
    → event_at endpoint ≡ event
    → Refines e event r
    → Step (phase_of e.transcript) (event_of endpoint r.0) (phase_of r.1.transcript)
unfolding Refines event_of
step_of e endpoint event r named (inl (status, (code, (reply, same)))) = rw (reply, same) refuse
step_of e endpoint event r named (inr (inl reply, step)) = rw (reply, named) step
step_of e endpoint event r named (inr (inr (m, reply), step)) = rw (reply, named) step

clean_step :
    (e : Emulator) (endpoint : Bytes)
    → bytes_eq endpoint (codes "PUT /register/cleanup") ≡ true
    → Step (phase_of e.transcript) (event_at endpoint) (phase_of no_transcript)
unfolding event_at phase_of
clean_step e endpoint h =
    let named : event_at endpoint ≡ cleaned = rw (event_at, h) refl in rw named clean

-- Every request, with any body, makes a step of the machine of four phases: the device's handlers refine it.
-- The MAC is any that is never empty.
pub serve-Step :
    (p : Primitives)
    → ((k m : Bytes) → 0 < length (p.hmac k m))
    → (endpoint : Bytes) (body : Option WireMessage) (e : Emulator)
    → Step
        (phase_of e.transcript)
        (event_of endpoint (serve p endpoint body e).0)
        (phase_of (serve p endpoint body e).1.transcript)
unfolding serve event_of
serve-Step p macs endpoint body e =
    elim (Bool-cases (bytes_eq endpoint (codes "PUT /register/cleanup"))) [
      | inl is_cleanup ↦ rw (serve, is_cleanup) (clean_step e endpoint is_cleanup)
      | inr n1 ↦ elim (Bool-cases (bytes_eq endpoint (codes "POST /register/pin"))) [
        | inl is_pin ↦
            rw (serve, n1, is_pin)
              (step_of e endpoint sent_greeting (serve_pin p e) (rw (event_at, n1, is_pin) refl)
                (pin-Refines p macs e))
        | inr n2 ↦ elim (Bool-cases (bytes_eq endpoint (codes "POST /register/hash"))) [
          | inl is_hash ↦
              rw (serve, n1, n2, is_hash)
                (step_of e endpoint agreed_keys (serve_hash p body e)
                  (rw (event_at, n1, n2, is_hash) refl) (hash-Refines p macs e body))
          | inr n3 ↦ elim (Bool-cases (bytes_eq endpoint (codes "POST /register/ca"))) [
            | inl is_ca ↦
                rw (serve, n1, n2, n3, is_ca)
                  (step_of e endpoint proved_pin (serve_ca p body e)
                    (rw (event_at, n1, n2, n3, is_ca) refl) (ca-Refines p macs e body))
            | inr n4 ↦ elim (Bool-cases (bytes_eq endpoint (codes "POST /register"))) [
              | inl is_registration ↦
                  rw (serve, n1, n2, n3, n4, is_registration)
                    (step_of e endpoint registered (serve_registration p body e)
                      (rw (event_at, n1, n2, n3, n4) refl) (registration-Refines p macs e body))
              | inr n5 ↦ rw (serve, n1, n2, n3, n4, n5) refuse
            ]
          ]
        ]
      ]
    ]
