-- ===== src/Registration/Emulator/Phases.antt =====
-- internal/wire/registration/emulator.go as a machine of four phases: what a sequence of requests can do,
-- without its cryptography.
pub mod Lengths
pub mod Refinement
pub mod Proofs
use dpwire.Prelude.{
  ℕ, Bool, true, false, not, Bytes, codes, bytes_eq, length, ◌==◌, Option, none, some,
  if◌then◌else◌, List, [], ◌∷◌,
}
use dpwire.Registration.Emulator.{Transcript, Reply, message, no_content, failed}

-- No sequence, M1 sent, keys agreed, PIN proved.
pub data Phase : Type 0 where
  idle greeted keyed proved : Phase

unfoldable pub phase_of : Transcript → Phase
phase_of t =
    if not (length t.wrapped_certificate == 0)
    then proved
    else if not (length t.auth_key == 0)
    then keyed
    else elim t.dh [ none ↦ idle | some private_key ↦ greeted ]

-- What a request did.
pub data Event : Type 0 where
  cleaned sent_greeting agreed_keys proved_pin registered refused : Event

unfoldable pub event_at : Bytes → Event
event_at endpoint =
    if bytes_eq endpoint (codes "PUT /register/cleanup")
    then cleaned
    else if bytes_eq endpoint (codes "POST /register/pin")
    then sent_greeting
    else if bytes_eq endpoint (codes "POST /register/hash")
    then agreed_keys
    else if bytes_eq endpoint (codes "POST /register/ca")
    then proved_pin
    else registered

unfoldable pub event_of : Bytes → Reply → Event
unfolding event_at
event_of endpoint (failed status code) = refused
event_of endpoint (message m) = event_at endpoint
event_of endpoint no_content = event_at endpoint

-- The abstract machine.
pub data Step : Phase → Event → Phase → Type 0 where
  clean : {s : Phase} → Step s cleaned idle
  greet : {s : Phase} → Step s sent_greeting greeted
  agree : Step greeted agreed_keys keyed
  agree_again : Step keyed agreed_keys keyed
  agree_late : Step proved agreed_keys proved
  prove : Step keyed proved_pin proved
  prove_again : Step proved proved_pin proved
  register : Step proved registered proved
  refuse : {s : Phase} → Step s refused s
