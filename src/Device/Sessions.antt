-- ===== src/Device/Sessions.antt =====
-- dptest/state.go: paired clients, nonces, sessions and injected faults.
pub mod Nonces
use dpwire.Prelude.{
  Bool, true, false, not, ◌&&◌, Option, none, some, [], ◌∷◌, Bytes, bytes_eq, any, if◌then◌else◌,
  ◌==◌,
}
use dpwire.Prelude.Dict.{Dict, lookup, insert, erase}
use dpwire.Device.State.{State, Fault, PublicKey}

unfoldable pub require_authentication : Bool → State → State
require_authentication required s = record s { require_auth = required }

unfoldable pub reject_upload_file_hash : Bool → State → State
reject_upload_file_hash reject s = record s { reject_hash = reject }

-- RegisterClient; a nil key is `none`.
unfoldable pub register_client : Bytes → Option PublicKey → State → State
register_client client_id none s = s
register_client client_id (some key) s =
    if not (bytes_eq client_id []) then record s { clients = insert client_id key s.clients } else s

unfoldable pub client_key : Bytes → State → Option PublicKey
client_key client_id s = lookup client_id s.clients

unfoldable pub set_nonce : Bytes → Bytes → State → State
set_nonce client_id nonce s = record s { nonces = insert client_id nonce s.nonces }

unfoldable pub take_nonce : Bytes → State → Option Bytes × State
take_nonce client_id s = (lookup client_id s.nonces, record s { nonces = erase client_id s.nonces })

unfoldable pub add_session : Bytes → State → State
add_session token s = record s { sessions = insert token true s.sessions }

abbrev or_false : Option Bool → Bool
or_false none = false
or_false (some b) = b

unfoldable pub has_session : Bytes → State → Bool
has_session token s = or_false (lookup token s.sessions)

unfoldable pub inject_fault : Bytes → Fault → State → State
inject_fault key fault s = record s { faults = insert key fault s.faults }

-- The first fault whose key is a pattern that matches. `path_match pattern name` is the Boolean of
-- `path.Match`, and Go's order over the map is unspecified: here it is that of the list.
abbrev matching_fault : (Bytes → Bytes → Bool) → Bytes → Dict Fault → Option (Bytes × Fault)
matching_fault path_match key [] = none
matching_fault path_match key ((pattern', fault) ∷ m) =
    let rest = matching_fault path_match key m in
    if any (λ c. c == b'*') pattern' && path_match pattern' key
    then some (pattern', fault)
    else rest

abbrev exact_or_pattern :
    (Bytes → Bytes → Bool) → Bytes → Dict Fault → Option Fault → Option (Bytes × Fault)
exact_or_pattern path_match key faults (some fault) = some (key, fault)
exact_or_pattern path_match key faults none = matching_fault path_match key faults

-- A fault that fires once is removed.
unfoldable pub use_fault : Option (Bytes × Fault) → State → Option Fault × State
use_fault none s = (none, s)
use_fault (some (matched, fault)) s =
    (some fault, if fault.once then record s { faults = erase matched s.faults } else s)

unfoldable pub take_fault : (Bytes → Bytes → Bool) → Bytes → State → Option Fault × State
unfolding use_fault
take_fault path_match key s =
    use_fault (exact_or_pattern path_match key s.faults (lookup key s.faults)) s
