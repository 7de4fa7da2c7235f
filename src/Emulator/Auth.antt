-- ===== src/Emulator/Auth.antt =====
-- dptest/emulator.go: serveNonce, serveAuth, authenticated and writeStateError. JSON, base64, SHA-256, RSA
-- and the random source are parameters; `none` of a decoder is its error.
pub mod Login
use dpwire.Prelude.{
  ◌==◌, ℕ, Bool, true, false, not, ◌&&◌, ◌||◌, List, [], ◌∷◌, ◌++◌, Bytes, codes, bytes_eq, any,
  if◌then◌else◌, Option, none, some,
}
use dpwire.Device.State.{
  State, PublicKey, StateError, duplicate, parent_not_found, conflict, not_empty, not_found,
}
use dpwire.Device.Sessions.{client_key, set_nonce, take_nonce, add_session, has_session}

-- A JSON object of strings with its status, and the cookie that is set.
pub record Response : Type 0 where
  pub status : ℕ
  pub fields : List (Bytes × Bytes)
  pub cookie : Option Bytes

abbrev pub reply : ℕ → List (Bytes × Bytes) → Response
reply status fields = record { status = status; fields = fields; cookie = none }

abbrev pub failure : ℕ → Bytes → Bytes → Response
failure status code message =
    reply status ((codes "error_code", code) ∷ ((codes "message", message) ∷ []))

unfoldable pub write_state_error : StateError → Response
write_state_error duplicate = failure 400 (codes "40007") (codes "duplicate name")
write_state_error parent_not_found = failure 400 (codes "40012") (codes "parent folder not found")
write_state_error conflict = failure 400 (codes "40017") (codes "revision conflict")
write_state_error not_empty = failure 400 (codes "40018") (codes "folder is not empty")
write_state_error not_found = failure 404 (codes "40401") (codes "entry not found")

-- `random` is what `io.ReadFull` reads, or nothing where it fails.
unfoldable pub serve_nonce : (Bytes → Bytes) → Option Bytes → Bytes → State → Response × State
serve_nonce encode random client_id s = elim (client_key client_id s) [
  | none ↦ (failure 401 (codes "AUTH_UNKNOWN_CLIENT") (codes "unknown client"), s)
  | some key ↦ elim random [
    | none ↦ (reply 500 ((codes "error_code", codes "RANDOM_FAILED") ∷ []), s)
    | some value ↦
        (reply 200 ((codes "nonce", encode value) ∷ []), set_nonce client_id (encode value) s)
  ]
]

pub record AuthRequest : Type 0 where
  pub client_id : Bytes
  pub nonce_signed : Bytes

abbrev pub auth_failed : Response
auth_failed = reply 401 ((codes "error_code", codes "AUTH_FAILED") ∷ [])

module _ (encode : Bytes → Bytes) (decode_base64 : Bytes → Option Bytes) (sha256 : Bytes → Bytes)
    (verify : PublicKey → Bytes → Bytes → Bool) where
  -- From the three calls that the first test of serveAuth reads.
  unfoldable pub finish_auth :
      Option PublicKey → Option Bytes → Option Bytes → Option Bytes → State → Response × State
  finish_auth none challenge signature random s = (auth_failed, s)
  finish_auth (some key) none signature random s = (auth_failed, s)
  finish_auth (some key) (some challenge) none random s = (auth_failed, s)
  finish_auth (some key) (some challenge) (some signature) random s =
      if not (verify key (sha256 challenge) signature) then (auth_failed, s) else elim random [
        | none ↦ (reply 500 ((codes "error_code", codes "RANDOM_FAILED") ∷ []), s)
        | some token ↦ (
          record {
            status = 204;
            fields = [];
            cookie = some (codes "Credentials=" ++ encode token ++ codes "; Secure; Path=/");
          },
          add_session (encode token) s,
        )
      ]

  unfoldable pub serve_auth : Option AuthRequest → Option Bytes → State → Response × State
  serve_auth none random s = (reply 400 ((codes "error_code", codes "AUTH_BAD_REQUEST") ∷ []), s)
  serve_auth (some request) random s =
      let (challenge, taken) = take_nonce request.client_id s in
      finish_auth (client_key request.client_id s) challenge (decode_base64 request.nonce_signed)
        random taken

add_first : ℕ → List Bytes → List Bytes
add_first c [] = (c ∷ []) ∷ []
add_first c (s ∷ ss) = (c ∷ s) ∷ ss

-- `strings.Split(header, ";")`
unfoldable pub cookie_items : Bytes → List Bytes
unfolding add_first
cookie_items [] = [] ∷ []
cookie_items (c ∷ cs) =
    let rest = cookie_items cs in if c == 59 then [] ∷ rest else add_first c rest

prefixed : ℕ → Option (Bytes × Bytes) → Option (Bytes × Bytes)
prefixed c none = none
prefixed c (some (name, value)) = some (c ∷ name, value)

-- `strings.Cut(item, "=")`, where `none` is false.
unfoldable pub cut_equals : Bytes → Option (Bytes × Bytes)
unfolding prefixed
cut_equals [] = none
cut_equals (c ∷ cs) = let rest = cut_equals cs in if c == 61 then some ([], cs) else prefixed c rest

-- `ok && name == "Credentials" && s.State.hasSession(value)`
unfoldable pub is_session_item : Option (Bytes × Bytes) → State → Bool
is_session_item none s = false
is_session_item (some (name, value)) s = bytes_eq name (codes "Credentials") && has_session value s

-- The two loops over the values of the Cookie headers; `trim_space` is `strings.TrimSpace`.
unfoldable pub authenticated : (Bytes → Bytes) → List Bytes → State → Bool
authenticated trim_space headers s =
    any
      (λ header.
        any (λ item. is_session_item (cut_equals (trim_space item)) s) (cookie_items header))
      headers
