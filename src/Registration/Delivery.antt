-- ===== src/Registration/Delivery.antt =====
-- The registration client and the simulator's device side together: each message that one sends is what the
-- other decodes. dptest/emulator.go joins the two over a local HTTP server in this way.
pub mod Reads
pub mod Run
pub mod Requests
pub mod Steps
pub mod Complete
use dpwire.Prelude.{[], Bytes, Option, Result, ok, err, Effect}
use dpwire.Registration.Messages.{WireMessage, Primitives, RegisterError, bad_response, http_error}
use dpwire.Registration.Client.{Peer}
use dpwire.Registration.Emulator.{Emulator, Reply, message, no_content, failed, serve}

-- What doJSON returns where it decodes a message, and where it decodes nothing.
abbrev pub answer : Reply → Result RegisterError WireMessage
answer (message m) = ok m
answer no_content = err (bad_response [])
answer (failed status code) = err (http_error status code [])

abbrev pub outcome : Reply → Result RegisterError (Unit {0})
outcome (message m) = ok tt
outcome no_content = ok tt
outcome (failed status code) = err (http_error status code [])

unfoldable pub deliver : Primitives → Peer Emulator
deliver p endpoint body e = let (reply, later) = serve p endpoint body e in (answer reply, later)

unfoldable pub deliver_only :
    Primitives → Bytes → Option WireMessage → Effect RegisterError Emulator (Unit {0})
deliver_only p endpoint body e =
    let (reply, later) = serve p endpoint body e in (outcome reply, later)
