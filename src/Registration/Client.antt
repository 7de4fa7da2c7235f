-- ===== src/Registration/Client.antt =====
-- internal/wire/registration/registration.go: Register and doJSON, over state passing. What package http does
-- with a request is the parameter `http`, and JSON is the record `Json`; contexts and time limits are left out.
pub mod Accepted
pub mod Limits
use dpwire.Prelude.{
  ℕ, ◌+◌, Bool, true, false, not, ◌&&◌, ◌||◌, List, [], ◌∷◌, ◌++◌, Bytes, codes, length, take, ltb,
  if◌then◌else◌, Option, none, some, Result, ok, err, Effect, ◌>>>=◌,
}
use mathlib.Core.Option
use dpwire.Registration.Messages.{
  WireMessage, Primitives, RegisterError, nil_provider, invalid_pin, initial_cleanup, network,
  oversized, http_error, bad_response, is_bad_pin, max_response_size,
}
use dpwire.Registration.Session.{
  Identity, start_session, make_m2, check_m3, prove_pin, make_m4, check_m5, finish_session,
}

-- An HTTP response: its status and its body.
pub record HttpReply : Type 0 where
  pub status : ℕ
  pub body : Bytes

-- The body of an error; a code may be any JSON value.
pub record Problem : Type 0 where
  pub code : Option Bytes
  pub error_code : Option Bytes
  pub text : Bytes

unfoldable pub problem_code : Problem → Bytes
problem_code problem = elim problem.error_code [
  | some code ↦ code
  | none ↦ elim problem.code [ some code ↦ code | none ↦ [] ]
]

pub record Json : Type 0 where
  pub marshal : WireMessage → Bytes
  -- the whole body as one message, with no unknown field and nothing behind it, or why it is not
  pub decode_message : Bytes → Result Bytes WireMessage
  -- what the fields of an error's body are, printed where they are present
  pub decode_problem : Bytes → Problem

-- What a request without a result answers, and one with a result.
abbrev pub Peer : Type 0 → Type 0
Peer W = Bytes → Option WireMessage → Effect RegisterError W WireMessage

abbrev pub lifted : {E W A : Type 0} → Result E A → Effect E W A
lifted r w = (r, w)

module _ {W : Type 0} (json : Json)
    (http : Bytes → Option Bytes → W → Result Bytes HttpReply × W) where
  -- What doJSON makes of the response; `raw` is what `io.ReadAll` reads of it. Without a result to decode,
  -- an accepted body is not looked at.
  unfoldable pub read_reply : Bool → ℕ → Bytes → Result RegisterError (Option WireMessage)
  read_reply wanted status raw =
      if ltb max_response_size (length raw)
      then err oversized
      else if ltb status 200 || not (ltb status 300)
      then err (
          http_error status (problem_code (json.decode_problem raw)) (json.decode_problem raw).text)
      else if not wanted
      then ok none
      else elim (json.decode_message raw) [
        | err e ↦ err (bad_response e)
        | ok message ↦ ok (some message)
      ]

  -- `method` and `endpoint` are one text, with a space between them.
  unfoldable pub do_json :
      Bytes → Option WireMessage → Bool → Effect RegisterError W (Option WireMessage)
  do_json endpoint input wanted w =
      let (answer, later) = http endpoint (Option.map json.marshal input) w in
      elim answer [
        | err e ↦ (err (network e), later)
        | ok reply ↦
            (read_reply wanted reply.status (take (max_response_size + 1) reply.body), later)
      ]

module _ {W : Type 0} (p : Primitives) (ask : Peer W)
    (tell : Bytes → Option WireMessage → Effect RegisterError W (Unit {0})) where
  -- `c.cleanup(ctx)`
  unfoldable pub cleanup : Effect RegisterError W (Unit {0})
  cleanup = tell (codes "PUT /register/cleanup") none

  -- The PIN that the caller gives, when it can be one.
  unfoldable pub ask_pin : Effect RegisterError W Bytes → Effect RegisterError W Bytes
  ask_pin provide_pin =
      provide_pin >>>= λ pin. if is_bad_pin pin then lifted (err invalid_pin) else lifted (ok pin)

  -- The part of Register between the two cleanups.
  unfoldable pub exchange : Effect RegisterError W Bytes → Bytes → Effect RegisterError W Identity
  exchange provide_pin random = ask (codes "POST /register/pin") none >>>= λ m1.
      lifted (start_session p m1 random) >>>= λ started.
      ask (codes "POST /register/hash") (some (make_m2 p started.0)) >>>= λ m3.
      lifted (check_m3 p started.0 m3) >>>= λ challenge. ask_pin provide_pin >>>= λ pin.
      lifted (prove_pin p started.0 challenge pin started.1) >>>= λ proof.
      ask (codes "POST /register/ca") (some (make_m4 p started.0 proof.0)) >>>= λ m5.
      lifted (check_m5 p started.0 challenge proof.0 m5) >>>= λ certified.
      lifted (finish_session p started.0 certified proof.1) >>>= λ finished.
      tell (codes "POST /register") (some finished.0) >>>= λ u. lifted (ok finished.1)

  -- `defer func() { _ = c.cleanup(…) }()`: its own error is dropped.
  unfoldable pub cleaning_up : {A : Type 0} → Effect RegisterError W A → Effect RegisterError W A
  cleaning_up body w =
      let (answer, later) = body w in let (ignored, last) = cleanup later in (answer, last)

  -- A nil provider is `none`.
  unfoldable pub register :
      Option (Effect RegisterError W Bytes) → Bytes → Effect RegisterError W Identity
  register none random w = (err nil_provider, w)
  register (some provide_pin) random w =
      let (first, cleaned) = cleanup w in
      elim first [
        | err e ↦ (err (initial_cleanup e), cleaned)
        | ok u ↦ cleaning_up (exchange provide_pin random) cleaned
      ]
