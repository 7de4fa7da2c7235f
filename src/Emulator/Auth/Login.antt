-- ===== src/Emulator/Auth/Login.antt =====
-- Logging in: what a session needs, and that a challenge admits one attempt.
use dpwire.Prelude.{
  ◌≡◌, refl, ap, ◌∙◌, Bool, true, inl, inr, Bytes, bytes_eq_refl, Option, none, some, Option-cases,
  Bool-cases, arith,
}
use dpwire.Prelude.Dict.{lookup, erase, lookup-erase}
use dpwire.Device.State.{State, PublicKey}
use dpwire.Device.Sessions.{client_key, take_nonce, add_session}
use dpwire.Emulator.Auth.{AuthRequest, auth_failed, finish_auth, serve_auth}

-- What a login in state `s` has tested: a registered key, a nonce set for the client, and a signature that is
-- decoded and verifies.
pub record IsLogin (decode_base64 : Bytes → Option Bytes) (sha256 : Bytes → Bytes)
    (verify : PublicKey → Bytes → Bytes → Bool) (request : AuthRequest) (s : State) : Type 0 where
  key : PublicKey
  challenge : Bytes
  signature : Bytes
  registered : client_key request.client_id s ≡ some key
  asked : lookup request.client_id s.nonces ≡ some challenge
  decoded : decode_base64 request.nonce_signed ≡ some signature
  signed : verify key (sha256 challenge) signature ≡ true

missing :
    (client other : Bytes) (s : State)
    → other ≡ client
    → lookup other (erase client s.nonces) ≡ none
missing client other s same =
    rw same (rw (lookup-erase client client s.nonces, bytes_eq_refl client) refl)

module _ (encode : Bytes → Bytes) (decode_base64 : Bytes → Option Bytes) (sha256 : Bytes → Bytes)
    (verify : PublicKey → Bytes → Bytes → Bool) where
  finish_auth-nonces :
      (key : Option PublicKey) (challenge signature random : Option Bytes) (s : State)
      → (finish_auth encode decode_base64 sha256 verify key challenge signature random s).1.nonces
        ≡ s.nonces
  unfolding finish_auth add_session
  finish_auth-nonces none challenge signature random s = refl
  finish_auth-nonces (some key) none signature random s = refl
  finish_auth-nonces (some key) (some challenge) none random s = refl
  finish_auth-nonces (some key) (some challenge) (some signature) none s = ground arith
  finish_auth-nonces (some key) (some challenge) (some signature) (some token) s = ground arith

  finish_auth-without :
      (key : Option PublicKey) (signature random : Option Bytes) (s : State)
      → finish_auth encode decode_base64 sha256 verify key none signature random s
        ≡ (auth_failed, s)
  unfolding finish_auth
  finish_auth-without none signature random s = refl
  finish_auth-without (some key) signature random s = refl

  -- No attempt finds the challenge of an earlier one: after a request for a client, whatever came of it, a
  -- second request for the same client is refused and opens no session, until a new nonce is asked for.
  pub serve_auth_twice :
      (first second : AuthRequest) (random again : Option Bytes) (s : State)
      → second.client_id ≡ first.client_id
      → let s1 = (serve_auth encode decode_base64 sha256 verify (some first) random s).1 in
        let r = serve_auth encode decode_base64 sha256 verify (some second) again s1 in
        (r.0 ≡ auth_failed) × (r.1.sessions ≡ s1.sessions)
  unfolding serve_auth take_nonce
  serve_auth_twice first second random again s same =
      let s1 = (serve_auth encode decode_base64 sha256 verify (some first) random s).1 in
      let gone : lookup second.client_id s1.nonces ≡ none =
        ap (λ ns. lookup second.client_id ns)
          (finish_auth-nonces (client_key first.client_id s) (lookup first.client_id s.nonces)
            (decode_base64 first.nonce_signed) random
            (record s { nonces = erase first.client_id s.nonces }))
        ∙ missing first.client_id second.client_id s same in
      let refused =
        finish_auth-without (client_key second.client_id s1) (decode_base64 second.nonce_signed)
          again (record s1 { nonces = erase second.client_id s1.nonces }) in
      rw (gone, refused) (refl, refl)

  finish_auth-Signed :
      (request : AuthRequest) (random : Option Bytes) (s t : State)
      → (finish_auth encode decode_base64 sha256 verify
          (client_key request.client_id s)
          (lookup request.client_id s.nonces)
          (decode_base64 request.nonce_signed)
          random
          t).0.status
        ≡ 204
      → IsLogin decode_base64 sha256 verify request s
  unfolding finish_auth
  finish_auth-Signed request random s t h = elim (Option-cases (client_key request.client_id s)) [
    | inl e ↦ absurd (omega (arith, rw (e, finish_auth) at h))
    | inr (key, registered) ↦ elim (Option-cases (lookup request.client_id s.nonces)) [
      | inl e ↦ absurd (omega (arith, rw (registered, e, finish_auth) at h))
      | inr (challenge, asked) ↦ elim (Option-cases (decode_base64 request.nonce_signed)) [
        | inl e ↦ absurd (omega (arith, rw (registered, asked, e, finish_auth) at h))
        | inr (signature, decoded) ↦ elim (Bool-cases (verify key (sha256 challenge) signature)) [
          | inl signed ↦ record {
            key = key;
            challenge = challenge;
            signature = signature;
            registered = registered;
            asked = asked;
            decoded = decoded;
            signed = signed;
          }
          | inr bad ↦ absurd (omega (arith, rw (registered, asked, decoded, finish_auth, bad) at h))
        ]
      ]
    ]
  ]

  -- A login that is answered with 204 comes from a registered client whose key verifies the signature that
  -- the request carries over the digest of the nonce that was set for this client.
  pub serve_auth-IsLogin :
      (request : AuthRequest) (random : Option Bytes) (s : State)
      → (serve_auth encode decode_base64 sha256 verify (some request) random s).0.status ≡ 204
      → IsLogin decode_base64 sha256 verify request s
  unfolding serve_auth take_nonce
  serve_auth-IsLogin request random s h = finish_auth-Signed request random s _ h
