-- ===== src/Registration/Transcript.antt =====
-- internal/wire/registration/emulator.go: the device's state, its answers and its configuration.
use dpwire.Prelude.{
  ℕ, Bool, ◌||◌, List, [], ◌∷◌, Bytes, codes, bytes_eq, drop, if◌then◌else◌, Option, none, some,
  Result, ok, err, contains_any,
}
use dpwire.Device.State.{PublicKey}
use dpwire.Registration.Exchange.{ExchangeError, zero_key}
use dpwire.Registration.Wrapping.{WrapError, random_failed}
use dpwire.Registration.Messages.{WireMessage, Primitives, validate_certificate_pem}

pub record Transcript : Type 0 where
  pub dh : Option ℕ
  pub nonce1 : Bytes
  pub mac : Bytes
  pub other_raw : Bytes
  pub nonce2 : Bytes
  pub client_public : Bytes
  pub auth_key : Bytes
  pub wrap_key : Bytes
  pub m2hmac : Bytes
  pub e_hash : Bytes
  pub m3hmac : Bytes
  pub es : Bytes
  pub wrapped_certificate : Bytes
  pub m5hmac : Bytes

abbrev pub no_transcript : Transcript
no_transcript = record {
  dh = none;
  nonce1 = [];
  mac = [];
  other_raw = [];
  nonce2 = [];
  client_public = [];
  auth_key = [];
  wrap_key = [];
  m2hmac = [];
  e_hash = [];
  m3hmac = [];
  es = [];
  wrapped_certificate = [];
  m5hmac = [];
}

pub record Emulator : Type 0 where
  pub pin : Bytes
  pub certificate : Bytes
  pub random : Bytes
  pub transcript : Transcript
  pub registered : List (Bytes × PublicKey)

-- A message with status 200, no content, or an error's status and code.
pub data Reply : Type 0 where
  message : WireMessage → Reply
  no_content : Reply
  failed : ℕ → Bytes → Reply

-- The status and the code of an early return.
abbrev pub Refusal : Type 0
Refusal = ℕ × Bytes

abbrev pub expired : Refusal
expired = (403, codes "40305")

abbrev pub rejected : Refusal
rejected = (403, codes "40301")

abbrev pub invalid_message : Refusal
invalid_message = (400, codes "40003")

abbrev pub invalid_json : Refusal
invalid_json = (400, codes "40000")

abbrev pub no_randomness : Reply
no_randomness = failed 500 (codes "RANDOM_FAILED")

-- `if !ok { writeEmulatorError(…); return }`
unfoldable pub require : Bool → Refusal → Result Refusal (Unit {0})
require b r = if b then ok tt else err r

-- `if err != nil { writeEmulatorError(…); return }`, for any error.
abbrev pub or_reply {ℓ} : {E : Type 0} {A : Type ℓ} → Refusal → Result E A → Result Refusal A
or_reply r (ok a) = ok a
or_reply r (err e) = err r

-- An early return leaves the state alone.
abbrev pub settle : Emulator → Result Refusal (Reply × Emulator) → Reply × Emulator
settle e (ok done) = done
settle e (err r) = (failed r.0 r.1, e)

-- `pin == "" || strings.ContainsAny(pin, "\r\n\x00")`
unfoldable pub is_bad_emulator_pin : Bytes → Bool
is_bad_emulator_pin pin = bytes_eq pin [] || contains_any pin (13 ∷ (10 ∷ (0 ∷ [])))

-- The code's errors are told apart by no caller. A reader is given.
unfoldable pub new_emulator : Primitives → Bytes → Bytes → Bytes → Option Emulator
new_emulator p pin certificate random =
    if is_bad_emulator_pin pin then none else elim (validate_certificate_pem p certificate) [
      | err e ↦ none
      | ok u ↦ some (record {
        pin = pin;
        certificate = certificate;
        random = random;
        transcript = no_transcript;
        registered = [];
      })
    ]

unfoldable pub set_pin : Bytes → Emulator → Option Emulator
set_pin pin e =
    if is_bad_emulator_pin pin
    then none
    else some (record e { pin = pin; transcript = no_transcript })

-- What a reader has left behind a failure.
abbrev pub left_by_exchange : ExchangeError → Bytes → Bytes
left_by_exchange zero_key random = drop 256 random
left_by_exchange e random = []

abbrev pub left_by_wrap : WrapError → Bytes → Bytes
left_by_wrap random_failed random = []
left_by_wrap e random = random

unfoldable pub out_of_random : Bytes → Emulator → Reply × Emulator
out_of_random rest e = (no_randomness, record e { random = rest })
