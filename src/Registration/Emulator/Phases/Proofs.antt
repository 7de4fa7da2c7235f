-- ===== src/Registration/Emulator/Phases/Proofs.antt =====
-- No registration without a proof of the PIN, over every sequence of requests.
use dpwire.Prelude.{
  ◌≡◌, refl, sym, ap, ◌∙◌, ◌<◌, [], ◌∷◌, Bytes, codes, bytes_eq, bytes_eq_iff, length, List, Option,
  none, some, ok, Result-cases, Bool-cases, inl, inr, arith,
}
use dpwire.Registration.Messages.{WireMessage, Primitives, decode_field, validate_certificate_pem}
use dpwire.Registration.Wrapping.{hash_mac}
use dpwire.Registration.Emulator.{
  Transcript, Emulator, Reply, message, no_content, failed, no_transcript, is_bad_emulator_pin,
  new_emulator, set_pin, serve, serve_ca, check_proof,
}
use dpwire.Registration.Emulator.Checks.{accepted_proof}
use dpwire.Registration.Emulator.Phases.{
  Phase, idle, proved, phase_of, Event, cleaned, sent_greeting, agreed_keys, proved_pin, registered,
  refused, event_at, event_of, Step, clean, greet, agree, agree_again, agree_late, prove,
  prove_again, register, refuse,
}
use dpwire.Registration.Emulator.Phases.Refinement.{serve-Step}

-- A request that proves the PIN carries, in the field b of M4, the hash of a secret and of the device's own
-- PIN, both under the session's derived key.
pub serve_ca-knows_pin :
    (p : Primitives) (body : Option WireMessage) (e : Emulator) (answered : WireMessage)
    → (serve_ca p body e).0 ≡ message answered
    → (m4 : WireMessage) × ((rs : Bytes) × ((body ≡ some m4)
          × (decode_field p m4.b 32
              ≡ ok (
                  hash_mac p.hmac e.transcript.auth_key (
                    rs
                    ∷ (hash_mac p.hmac e.transcript.auth_key (e.pin ∷ [])
                        ∷ (e.transcript.other_raw ∷ (e.transcript.client_public ∷ []))))))))
unfolding serve_ca
serve_ca-knows_pin p body e answered h = elim (Result-cases (check_proof p body e)) [
  | inl (done, accepted) ↦
      let (
        m4,
        (rs, (r_hash, (wrapped_rs, (m4hmac, (body_is, (keyed_now, (field, (hash, is_done)))))))),
      ) =
        accepted_proof p e body done accepted in
      (m4, (rs, (body_is, field ∙ ap ok hash)))
  | inr (f, denied) ↦
      let bad : failed f.0 f.1 ≡ message answered = rw (serve_ca, denied) at h in ground arith
]

-- The body of a request to `e` shows the knowledge of the device's PIN: its field b is the hash of a secret and
-- of that PIN, both under the session's derived key.
abbrev pub KnowsPin : Primitives → Emulator → Option WireMessage → Type 0
KnowsPin p e body =
    (m4 : WireMessage) × ((rs : Bytes) × ((body ≡ some m4)
        × (decode_field p m4.b 32
            ≡ ok (
                hash_mac p.hmac e.transcript.auth_key (
                  rs
                  ∷ (hash_mac p.hmac e.transcript.auth_key (e.pin ∷ [])
                      ∷ (e.transcript.other_raw ∷ (e.transcript.client_public ∷ []))))))))

-- One thing that happened: what it was, the device just before, and the body of the request.
pub record Happened : Type 0 where
  pub event : Event
  pub before : Emulator
  pub body : Option WireMessage

-- What has happened to a device since it was made, the last first. SetPIN is a cleanup.
pub data Reached (p : Primitives) : Emulator → List Happened → Type 0 where
  built :
      {e : Emulator} (pin certificate random : Bytes)
      → new_emulator p pin certificate random ≡ some e
      → Reached p e []
  served :
      {e : Emulator} {history : List Happened} (endpoint : Bytes) (body : Option WireMessage)
      → Reached p e history
      → Reached p (serve p endpoint body e).1 (
          record { event = event_of endpoint (serve p endpoint body e).0; before = e; body = body }
          ∷ history)
  pin_changed :
      {e later : Emulator} {history : List Happened} (pin : Bytes)
      → Reached p e history
      → set_pin pin e ≡ some later
      → Reached p later (record { event = cleaned; before = e; body = none } ∷ history)

-- Whether the last proof of the PIN still counts after an event: a greeting and a cleanup void it, and a new
-- proof takes its place.
abbrev pub AfterEvent : Event → Type 0 → Type 0 → Type 0
AfterEvent cleaned knows earlier = ⊥
AfterEvent sent_greeting knows earlier = ⊥
AfterEvent proved_pin knows earlier = knows
AfterEvent agreed_keys knows earlier = earlier
AfterEvent registered knows earlier = earlier
AfterEvent refused knows earlier = earlier

-- Since the last greeting, cleanup or change of the PIN a request has shown the knowledge of the PIN that the
-- device had at that request.
abbrev pub PinWasProved : Primitives → List Happened → Type 0
PinWasProved p [] = ⊥
PinWasProved p (h ∷ history) =
    AfterEvent h.event (KnowsPin p h.before h.body) (PinWasProved p history)

-- The device answers M4 with a message or refuses it.
answered_proof :
    (p : Primitives) (body : Option WireMessage) (e : Emulator)
    → event_of (codes "POST /register/ca") (serve_ca p body e).0 ≡ proved_pin
    → KnowsPin p e body
unfolding serve_ca event_of
answered_proof p body e h = elim (Result-cases (check_proof p body e)) [
  | inl (done, accepted) ↦
      let (
        m4,
        (rs, (r_hash, (wrapped_rs, (m4hmac, (body_is, (keyed_now, (field, (hash, is_done)))))))),
      ) =
        accepted_proof p e body done accepted in
      (m4, (rs, (body_is, field ∙ ap ok hash)))
  | inr (f, denied) ↦ let bad : refused ≡ proved_pin = rw (serve_ca, denied) at h in ground arith
]

answered_at :
    (endpoint : Bytes) (r : Reply)
    → event_of endpoint r ≡ proved_pin
    → event_at endpoint ≡ proved_pin
unfolding event_of
answered_at endpoint (message m) h = h
answered_at endpoint no_content h = h
answered_at endpoint (failed status code) h = ground arith

proof_endpoint :
    (endpoint : Bytes) → event_at endpoint ≡ proved_pin → endpoint ≡ codes "POST /register/ca"
unfolding event_at
proof_endpoint endpoint h = ground (arith, bytes_eq_iff endpoint (codes "POST /register/ca"))

served_proof :
    (p : Primitives) (endpoint : Bytes) (body : Option WireMessage) (e : Emulator)
    → event_of endpoint (serve p endpoint body e).0 ≡ proved_pin
    → KnowsPin p e body
unfolding serve bytes_eq
served_proof p endpoint body e h =
    let same = proof_endpoint endpoint (answered_at endpoint (serve p endpoint body e).0 h) in
    let there : event_of (codes "POST /register/ca") (serve p (codes "POST /register/ca") body e).0
        ≡ proved_pin =
      rw same at h in
    answered_proof p body e there

step_keeps :
    (s s' : Phase) (event : Event) (knows earlier : Type 0)
    → Step s event s'
    → (event ≡ proved_pin → knows)
    → (s ≡ proved → earlier)
    → s' ≡ proved
    → AfterEvent event knows earlier
step_keeps s _ _ knows earlier clean shown before h = ground arith
step_keeps s _ _ knows earlier greet shown before h = ground arith
step_keeps _ _ _ knows earlier agree shown before h = ground arith
step_keeps _ _ _ knows earlier agree_again shown before h = ground arith
step_keeps _ _ _ knows earlier agree_late shown before h = before refl
step_keeps _ _ _ knows earlier prove shown before h = shown refl
step_keeps _ _ _ knows earlier prove_again shown before h = shown refl
step_keeps _ _ _ knows earlier register shown before h = before refl
step_keeps s _ _ knows earlier refuse shown before h = before h

made_transcript : Option Emulator → Transcript
made_transcript none = no_transcript
made_transcript (some e) = e.transcript

new_phase :
    (p : Primitives) (pin certificate random : Bytes) (e : Emulator)
    → new_emulator p pin certificate random ≡ some e
    → e.transcript ≡ no_transcript
unfolding new_emulator made_transcript
new_phase p pin certificate random e h =
    let fresh : made_transcript (new_emulator p pin certificate random) ≡ no_transcript =
      elim (Bool-cases (is_bad_emulator_pin pin)) [
        | inl bad ↦ rw (new_emulator, bad) refl
        | inr good ↦ elim (Result-cases (validate_certificate_pem p certificate)) [
          | inl (u, valid) ↦ rw (new_emulator, good, valid) refl
          | inr (x, invalid) ↦ rw (new_emulator, good, invalid) refl
        ]
      ] in
    sym (ap made_transcript h) ∙ fresh

pin_phase :
    (pin : Bytes) (e later : Emulator)
    → set_pin pin e ≡ some later
    → later.transcript ≡ no_transcript
unfolding set_pin made_transcript
pin_phase pin e later h =
    let fresh : made_transcript (set_pin pin e) ≡ no_transcript =
      elim (Bool-cases (is_bad_emulator_pin pin)) [
        | inl bad ↦ rw (set_pin, bad) refl
        | inr good ↦ rw (set_pin, good) refl
      ] in
    sym (ap made_transcript h) ∙ fresh

proved_before :
    (p : Primitives)
    → ((k m : Bytes) → 0 < length (p.hmac k m))
    → (e : Emulator) (history : List Happened) → Reached p e history
    → phase_of e.transcript ≡ proved
    → PinWasProved p history
unfolding phase_of
proved_before p macs e _ (built pin certificate random made) h =
    let fresh = new_phase p pin certificate random e made in
    let bad : idle ≡ proved = sym (ap phase_of fresh) ∙ h in ground arith
proved_before p macs _ _ (served {e = e} {history = history} endpoint body r) h =
    step_keeps (phase_of e.transcript) _ _ (KnowsPin p e body) (PinWasProved p history)
      (serve-Step p macs endpoint body e) (served_proof p endpoint body e)
      (proved_before p macs e history r) h
proved_before p macs later _ (pin_changed {e = e} pin r changed) h =
    let fresh = pin_phase pin e later changed in
    let bad : idle ≡ proved = sym (ap phase_of fresh) ∙ h in ground arith

registers_when_proved :
    (s s' : Phase) (event : Event) → Step s event s' → event ≡ registered → s ≡ proved
registers_when_proved s _ _ clean h = ground arith
registers_when_proved s _ _ greet h = ground arith
registers_when_proved _ _ _ agree h = ground arith
registers_when_proved _ _ _ agree_again h = ground arith
registers_when_proved _ _ _ agree_late h = ground arith
registers_when_proved _ _ _ prove h = ground arith
registers_when_proved _ _ _ prove_again h = ground arith
registers_when_proved _ _ _ register h = refl
registers_when_proved s _ _ refuse h = ground arith

-- Where HMACs are not empty: after any sequence of requests and changes of the PIN, a request that registers a
-- client comes after one whose field b is the hash of a secret and of the device's PIN, under the key of the
-- session that it belongs to, with no greeting, cleanup or change of the PIN between the two.
pub registration-PinWasProved :
    (p : Primitives)
    → ((k m : Bytes) → 0 < length (p.hmac k m))
    → (e : Emulator) (history : List Happened) → Reached p e history
    → (endpoint : Bytes) (body : Option WireMessage)
    → event_of endpoint (serve p endpoint body e).0 ≡ registered
    → PinWasProved p history
registration-PinWasProved p macs e history r endpoint body h =
    proved_before p macs e history r
      (registers_when_proved (phase_of e.transcript) _ _ (serve-Step p macs endpoint body e) h)
