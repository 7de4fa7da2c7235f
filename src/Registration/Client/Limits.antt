-- ===== src/Registration/Client/Limits.antt =====
-- What doJSON accepts.
use dpwire.Prelude.{
  ℕ, ◌+◌, ◌≡◌, ◌≤◌, ◌<◌, ap, Bool, true, false, Bytes, length, take, Option, none, some, Result, ok,
  err, Result-cases, inl, inr, arith, length-take, take-all,
}
use mathlib.Core.Option
use mathlib.Core.Path.{ap₂, subst}
use dpwire.Registration.Messages.{WireMessage, RegisterError, network, max_response_size}
use dpwire.Registration.Client.{HttpReply, Json, read_reply, do_json}

pair_of :
    {W : Type 0} (answered : Result Bytes HttpReply × W) (reply : HttpReply) (later : W)
    → answered.0 ≡ ok reply
    → answered.1 ≡ later
    → answered ≡ (ok reply, later)
pair_of answered reply later h1 h2 = ap₂ (λ a b. (a, b)) h1 h2

module _ {W : Type 0} (json : Json)
    (http : Bytes → Option Bytes → W → Result Bytes HttpReply × W) where
  -- What is made of an accepted body: its decoding where the caller wants a message, else nothing.
  abbrev pub Decodes : Bool → Bytes → Option WireMessage → Type 0
  Decodes true raw output =
      (m : WireMessage) × ((json.decode_message raw ≡ ok m) × (output ≡ some m))
  Decodes false raw output = output ≡ none

  reply_limits :
      (wanted : Bool) (status : ℕ) (raw : Bytes) (output : Option WireMessage)
      → read_reply json http wanted status raw ≡ ok output
      → (length raw ≤ max_response_size)
        × ((200 ≤ status) × ((status < 300) × Decodes wanted raw output))
  unfolding read_reply
  reply_limits false status raw output h =
      (ground (arith, h), (ground (arith, h), (ground (arith, h), ground (arith, h))))
  reply_limits true status raw output h = elim (Result-cases (json.decode_message raw)) [
    | inl (m, decoded) ↦
        let kept = rw (read_reply, decoded) at h in
        (
          ground (arith, kept),
          (ground (arith, kept), (ground (arith, kept), (m, (decoded, ground (arith, kept))))),
        )
    | inr (x, broken) ↦ let kept = rw (read_reply, broken) at h in ground (arith, kept)
  ]

  -- doJSON returns no error only where the response has a status of 200 to 299 and a body within the limit,
  -- whether the caller wants a message or not. Where it does, the message is the decoding of the whole body.
  pub do_json_accepts :
      (endpoint : Bytes) (input : Option WireMessage) (wanted : Bool) (output : Option WireMessage)
      (w later : W)
      → do_json json http endpoint input wanted w ≡ (ok output, later)
      → (reply : HttpReply) × ((http endpoint (Option.map json.marshal input) w ≡ (ok reply, later))
          × ((length reply.body ≤ max_response_size)
              × ((200 ≤ reply.status) × ((reply.status < 300) × Decodes wanted reply.body output))))
  unfolding do_json
  do_json_accepts endpoint input wanted output w later h =
      let answered = http endpoint (Option.map json.marshal input) w in
      elim (Result-cases answered.0) [
        | inl (reply, arrived) ↦
            let kept = rw (do_json, arrived) at h in
            let read : read_reply json http wanted reply.status
                  (take (max_response_size + 1) reply.body)
                ≡ ok output =
              ap (λ r. r.0) kept in
            let (small, (low, (high, decodes))) = reply_limits wanted reply.status _ output read in
            let within : length reply.body ≤ max_response_size =
              omega (arith, small, length-take (max_response_size + 1) reply.body) in
            let whole : take (max_response_size + 1) reply.body ≡ reply.body =
              take-all (max_response_size + 1) reply.body (omega (arith, within)) in
            (
              reply,
              (
                pair_of answered reply later arrived (ap (λ r. r.1) kept),
                (within, (low, (high, subst (λ b. Decodes wanted b output) whole decodes))),
              ),
            )
        | inr (x, lost) ↦
            let kept = rw (do_json, lost) at h in
            let bad : ◌≡◌ {A = Result RegisterError (Option WireMessage)} (err (network x))
                (ok output) =
              ap (λ r. r.0) kept in
            ground arith
      ]
