-- ===== src/Device/Sessions/Nonces.antt =====
-- A nonce serves one authentication attempt, and only that of the client that asked for it.
use dpwire.Prelude.{◌≡◌, ◌≢◌, none, some, Bytes, bytes_eq_iff, bytes_eq_refl, arith}
use dpwire.Prelude.Dict.{insert, lookup-insert, lookup-erase}
use dpwire.Device.State.{State}
use dpwire.Device.Sessions.{set_nonce, take_nonce}

-- The nonce set last for a client is taken once: the second attempt finds none, whatever was set
-- before, and the nonces of other clients stay as they were.
pub take_nonce_once :
    (client nonce : Bytes) (s : State)
    → let t = take_nonce client (set_nonce client nonce s) in
      (t.0 ≡ some nonce)
      × ((take_nonce client t.1).0 ≡ none)
      × ((other : Bytes) → other ≢ client → (take_nonce other t.1).0 ≡ (take_nonce other s).0)
unfolding take_nonce set_nonce
take_nonce_once client nonce s = (
  rw (lookup-insert, bytes_eq_refl),
  rw (lookup-erase, bytes_eq_refl),
  λ other ne. ground (
    arith,
    bytes_eq_iff client other,
    lookup-erase client other (insert client nonce s.nonces),
    lookup-insert client other nonce s.nonces,
  ),
)
