-- ===== src/Tests/Registrations/Runs.antt =====
-- The run of the small client and the small device, request by request.
use dpwire.Prelude.{
  ℕ, ◌/◌, suc, ◌≡◌, ◌<◌, ◌≤◌, refl, true, List, [], ◌∷◌, ◌++◌, Bytes, codes, bytes_eq, length,
  Option, none, some, Result, ok, ap, ok-injective, arith,
}
use mathlib.Core.Path.{ap₂}
use mathlib.Core.Option
use dpwire.Registration.Messages.{
  WireMessage, empty_message, Primitives, validate_certificate_pem, certificates, decode_field,
  decode_field_range, max_response_size,
}
use dpwire.Registration.Client.{HttpReply, Json, do_json, read_reply}
use dpwire.Registration.Client.Limits.{Decodes, do_json_accepts}
use dpwire.Registration.Wrapping.{hash_mac, unwrap}
use dpwire.Registration.Session.Trust.{check_m5-IsBound}
use dpwire.Registration.Session.{make_m2, make_m4}
use dpwire.Registration.Emulator.{
  Emulator, Reply, message, no_content, failed, serve, new_emulator, is_bad_emulator_pin,
}
use dpwire.Registration.Emulator.Phases.{
  sent_greeting, agreed_keys, proved_pin, registered, Step, phase_of, event_at, event_of,
}
use dpwire.Registration.Emulator.Phases.Refinement.{serve-Step}
use dpwire.Registration.Emulator.Phases.Proofs.{
  Happened, Reached, built, served, PinWasProved, registration-PinWasProved, serve_ca-knows_pin,
}
use dpwire.Registration.Delivery.{answer, outcome, deliver, deliver_only}
use dpwire.Registration.Delivery.Run.{
  Run, e1, e2, e3, e4, m1, m3, m5, m6, session, proof, challenge, certified,
}
use dpwire.Registration.Delivery.Steps.{step1, step3, step4, step5, step6, step7, step9}
use dpwire.Registration.Delivery.Complete.{IsRun, made-IsRun}
use dpwire.Tests.Registrations.{
  toy_mac, toy_key, toy, toy-Laws, client_random, device_random, toy_device, toy_device-DeviceReads,
  toy_client-ClientReads, toy-IsCertificate, toy-IsPublicPem,
}

-- What `deliver` returns tells what the device answered.
answer_message : (r : Reply) (m : WireMessage) → answer r ≡ ok m → r ≡ message m
answer_message (message n) m h = ap message (ok-injective h)
answer_message no_content m h = ground arith
answer_message (failed status code) m h = ground arith

delivered_event :
    (p : Primitives) (endpoint : Bytes) (body : Option WireMessage) (e later : Emulator)
    (m : WireMessage)
    → deliver p endpoint body e ≡ (ok m, later)
    → serve p endpoint body e ≡ (message m, later)
unfolding deliver
delivered_event p endpoint body e later m h =
    let reply = answer_message (serve p endpoint body e).0 m (ap (λ r. r.0) h) in
    ap₂ (λ a b. (a, b)) reply (ap (λ r. r.1) h)

reached_by :
    (p : Primitives) (endpoint : Bytes) (body : Option WireMessage) (e later : Emulator)
    (m : WireMessage) (history : List Happened)
    → deliver p endpoint body e ≡ (ok m, later)
    → Reached p e history
    → Reached p later (record { event = event_at endpoint; before = e; body = body } ∷ history)
unfolding event_of
reached_by p endpoint body e later m history h r =
    let answered = delivered_event p endpoint body e later m h in
    rw answered at (served endpoint body r)

outcome_registered :
    (r : Reply) → outcome r ≡ ok tt → event_of (codes "POST /register") r ≡ registered
unfolding event_of event_at bytes_eq
outcome_registered (message n) h = refl
outcome_registered no_content h = refl
outcome_registered (failed status code) h = ground arith

only_registered :
    (p : Primitives) (body : Option WireMessage) (e later : Emulator)
    → deliver_only p (codes "POST /register") body e ≡ (ok tt, later)
    → event_of (codes "POST /register") (serve p (codes "POST /register") body e).0 ≡ registered
unfolding deliver_only event_of event_at bytes_eq
only_registered p body e later h =
    outcome_registered (serve p (codes "POST /register") body e).0 (ap (λ r. r.0) h)

toy-Reached : Reached toy toy_device []
unfolding new_emulator is_bad_emulator_pin validate_certificate_pem certificates bytes_eq
toy-Reached = built (codes "1234") (1 ∷ []) device_random refl

toy_macs : (k m : Bytes) → 0 < length (toy_mac k m)
toy_macs k m = omega arith

serve-Step_example :
    Step
      (phase_of toy_device.transcript)
      (event_of
        (codes "POST /register/pin")
        (serve toy (codes "POST /register/pin") none toy_device).0)
      (phase_of (serve toy (codes "POST /register/pin") none toy_device).1.transcript)
serve-Step_example = serve-Step toy toy_macs (codes "POST /register/pin") none toy_device

-- The run of the toy client and the toy device.
toy_made :
    (secret wrapped_rs wrapped_certificate wrapped_identity client_id : Bytes) × IsRun (record {
      p = toy;
      e = toy_device;
      random = client_random;
      d = toy_device-DeviceReads;
      c = toy_client-ClientReads;
      secret = secret;
      wrapped_rs = wrapped_rs;
      wrapped_certificate = wrapped_certificate;
      wrapped_identity = wrapped_identity;
      client_id = client_id;
      key = toy_key;
    })
unfolding toy_client-ClientReads
toy_made =
    made-IsRun toy toy_device client_random toy_key toy-Laws toy_device-DeviceReads
      toy_client-ClientReads toy-IsCertificate toy-IsPublicPem

abbrev toy_run : Run
toy_run = record {
  p = toy;
  e = toy_device;
  random = client_random;
  d = toy_device-DeviceReads;
  c = toy_client-ClientReads;
  secret = toy_made.0;
  wrapped_rs = toy_made.1;
  wrapped_certificate = toy_made.2;
  wrapped_identity = toy_made.3;
  client_id = toy_made.4;
  key = toy_key;
}

toy_run-IsRun : IsRun toy_run
toy_run-IsRun = toy_made.5

-- What has happened to the device of the run, just before the client is registered.
abbrev history_of : Run → List Happened
history_of r =
    record { event = proved_pin; before = e2 r; body = some (make_m4 r.p (session r) (proof r)) }
    ∷ (record { event = agreed_keys; before = e1 r; body = some (make_m2 r.p (session r)) }
        ∷ (record { event = sent_greeting; before = r.e; body = none } ∷ []))

registration-PinWasProved_example : PinWasProved toy (history_of toy_run)
unfolding event_at bytes_eq toy_client-ClientReads
registration-PinWasProved_example =
    let r = toy_run in
    let i = toy_run-IsRun in
    let after_m1 =
      reached_by toy (codes "POST /register/pin") none toy_device (e1 r) (m1 r) []
        (step1 r toy-Laws) toy-Reached in
    let after_m3 =
      reached_by toy (codes "POST /register/hash") (some (make_m2 toy (session r))) (e1 r) (e2 r)
        (m3 r) _ (step3 r toy-Laws i.theirs) after_m1 in
    let after_m5 =
      reached_by toy (codes "POST /register/ca") (some (make_m4 toy (session r) (proof r))) (e2 r)
        (e3 r) (m5 r) _ (step6 r toy-Laws i.rs_sealed i.certificate_sealed) after_m3 in
    registration-PinWasProved toy toy_macs (e3 r) (history_of r) after_m5 (codes "POST /register")
      (some (m6 r))
      (only_registered toy (some (m6 r)) (e3 r) (e4 r)
        (step9 r toy-Laws i.id_size i.named i.identity_sealed toy-IsPublicPem i.certificate_sealed))

serve_ca-knows_pin_example :
    (m4 : WireMessage) × ((rs : Bytes) × ((some (make_m4 toy (session toy_run) (proof toy_run))
          ≡ some m4)
        × (decode_field toy m4.b 32
            ≡ ok (
                hash_mac toy_mac (e2 toy_run).transcript.auth_key (
                  rs
                  ∷ (hash_mac toy_mac (e2 toy_run).transcript.auth_key (codes "1234" ∷ [])
                      ∷ ((e2 toy_run).transcript.other_raw
                          ∷ ((e2 toy_run).transcript.client_public ∷ []))))))))
unfolding serve bytes_eq
serve_ca-knows_pin_example =
    let i = toy_run-IsRun in
    serve_ca-knows_pin toy (some (make_m4 toy (session toy_run) (proof toy_run))) (e2 toy_run)
      (m5 toy_run)
      (ap (λ r. r.0)
        (delivered_event toy (codes "POST /register/ca") _ (e2 toy_run) (e3 toy_run) (m5 toy_run)
          (step6 toy_run toy-Laws i.rs_sealed i.certificate_sealed)))

check_m5-IsBound_example :
    (validate_certificate_pem toy (1 ∷ []) ≡ ok tt)
    × ((decode_field_range toy (m5 toy_run).d 32 (max_response_size / 2)
          ≡ ok (certified toy_run).wrapped_certificate)
        × ((decode_field toy (m5 toy_run).e 32
              ≡ ok (
                  hash_mac toy_mac (session toy_run).auth_key (
                    (session toy_run).nonce1
                    ∷ ((proof toy_run).r_hash
                        ∷ ((proof toy_run).wrapped_rs
                            ∷ ((proof toy_run).m4hmac
                                ∷ ((session toy_run).nonce2
                                    ∷ ((certified toy_run).wrapped_certificate ∷ []))))))))
            × ((es : Bytes) × ((length es ≡ 16)
                  × ((unwrap toy_mac toy.cbc_decrypt
                          (certified toy_run).wrapped_certificate
                          (session toy_run).auth_key
                          (session toy_run).wrap_key
                        ≡ ok (es ++ (1 ∷ [])))
                      × (decode_field toy (m3 toy_run).b 32
                          ≡ ok (
                              hash_mac toy_mac (session toy_run).auth_key (
                                es
                                ∷ (hash_mac toy_mac (session toy_run).auth_key (codes "1234" ∷ [])
                                    ∷ ((session toy_run).other_raw
                                        ∷ ((session toy_run).public_key ∷ [])))))))))))
unfolding toy_client-ClientReads
check_m5-IsBound_example =
    let r = toy_run in
    let i = toy_run-IsRun in
    check_m5-IsBound toy (session toy_run) (m3 toy_run) (m5 toy_run) (challenge toy_run)
      (codes "1234") r.c.c2 r.c.c4 (proof toy_run) (certified toy_run) (step4 r toy-Laws)
      (step5 r toy-Laws i.rs_sealed) (step7 toy_run toy-Laws i.certificate_sealed toy-IsCertificate)

-- A server of one byte, and JSON that reads it as an empty message.
abbrev toy_json : Json
toy_json = record {
  marshal = λ m. [];
  decode_message = λ raw. ok empty_message;
  decode_problem = λ raw. record { code = none; error_code = none; text = [] };
}

abbrev toy_http : Bytes → Option Bytes → ℕ → Result Bytes HttpReply × ℕ
toy_http endpoint body n = (ok (record { status = 200; body = 1 ∷ [] }), suc n)

do_json_accepts_example :
    (reply : HttpReply) × ((toy_http
          (codes "POST /register/pin")
          (Option.map toy_json.marshal none)
          4
        ≡ (ok reply, 5))
      × ((length reply.body ≤ max_response_size)
          × ((200 ≤ reply.status)
              × ((reply.status < 300)
                  × Decodes toy_json toy_http true reply.body (some empty_message)))))
unfolding do_json read_reply
do_json_accepts_example =
    do_json_accepts toy_json toy_http (codes "POST /register/pin") none true (some empty_message) 4
      5 refl
