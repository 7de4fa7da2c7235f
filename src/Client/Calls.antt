-- ===== src/Client/Calls.antt =====
-- Calls of the client, as state passing: `W` is everything outside the client, `Call W A` is a call that
-- returns an `A` or an error, and a `Wire W` is what transport.Client.DoJSON does for each type of result
-- that a call decodes.
pub use dpwire.Prelude.{◌>>>=◌}
use dpwire.Prelude.{
  ◌≡◌, ap, ok-injective, arith, Bool, List, [], Bytes, codes, bytes_eq, ◌++◌, if◌then◌else◌, Option,
  none, some, Result, ok, err, Effect,
}
use mathlib.Core.Path.{ap₂}
use dpwire.Entries.{WireEntry, Entry, EntryError, decode_entry, validate_id}
use dpwire.Client.Errors.{
  ApiError, WireError, ClientError, api_error, conflict, folder_not_empty, partial_failure,
  unverified, bad_entry, bad_argument, public_error, zero_path,
}
use dpwire.RemotePath.{RemotePath}

abbrev pub Call : Type 0 → Type 0 → Type 0
Call W A = Effect ClientError W A

module _ {W A : Type 0} where
  abbrev pub return : A → Call W A
  return a w = (ok a, w)

  abbrev pub fail : ClientError → Call W A
  fail e w = (err e, w)

pub data Method : Type 0 where
  http_get http_put http_post http_delete : Method

-- A JSON object of strings.
abbrev pub Payload : Type 0
Payload = List (Bytes × Bytes)

pub record Wire (W : Type 0) : Type 0 where
  pub get_entry : Bytes → W → Result WireError WireEntry × W
  pub post_for_id : Bytes → Payload → W → Result WireError Bytes × W
  pub send : Method → Bytes → Payload → W → Result WireError (Unit {0}) × W

-- What package url, golang.org/x/text and package time do.
pub record Platform : Type 0 where
  pub nfc : Bytes → Bytes
  pub path_escape : Bytes → Bytes
  pub is_rfc3339 : Bytes → Bool
  pub strict : Bool

answered : {W A : Type 0} → Result WireError A × W → Result ClientError A × W
answered (ok a, later) = (ok a, later)
answered (err e, later) = (err (public_error e), later)

-- `if err != nil { return publicError(err) }`
unfoldable pub publicly : {W A : Type 0} → (W → Result WireError A × W) → Call W A
unfolding answered
publicly m w = answered (m w)

answered_ok :
    {W A : Type 0} (r : Result WireError A × W) (a : A) (later : W)
    → answered r ≡ (ok a, later)
    → r ≡ (ok a, later)
unfolding answered
answered_ok (ok b, w) a later h =
    ap₂ (λ x s. (ok x, s)) (ok-injective (ap (λ q. q.0) h)) (ap (λ q. q.1) h)
answered_ok {A = A} (err e, w) a later h =
    let bad : ◌≡◌ {A = Result ClientError A} (err (public_error e)) (ok a) = ap (λ q. q.0) h in
    ground arith

pub publicly_ok :
    {W A : Type 0} (m : W → Result WireError A × W) (w : W) (a : A) (later : W)
    → publicly m w ≡ (ok a, later)
    → m w ≡ (ok a, later)
unfolding publicly
publicly_ok m w a later h = answered_ok (m w) a later h

-- `if err := validateID(id); err != nil { return err }`
unfoldable pub valid_argument : {W A : Type 0} → Result EntryError A → Call W A
valid_argument (ok a) w = (ok a, w)
valid_argument (err e) w = (err (bad_argument e), w)

pub valid_argument_ok :
    {W A : Type 0} (r : Result EntryError A) (w : W) (a : A) (later : W)
    → valid_argument r w ≡ (ok a, later)
    → (r ≡ ok a) × (w ≡ later)
unfolding valid_argument
valid_argument_ok (ok b) w a later h = (ap ok (ok-injective (ap (λ q. q.0) h)), ap (λ q. q.1) h)
valid_argument_ok {A = A} (err e) w a later h =
    let bad : ◌≡◌ {A = Result ClientError A} (err (bad_argument e)) (ok a) = ap (λ q. q.0) h in
    ground arith

-- `errors.As(err, &apiError)`, which looks through what an error wraps.
unfoldable pub api_error_of : ClientError → Option ApiError
api_error_of (api_error e) = some e
api_error_of (conflict e) = some e
api_error_of (folder_not_empty e) = some e
api_error_of (partial_failure operation entry_id cause) = api_error_of cause
api_error_of (unverified cause) = api_error_of cause
api_error_of e = none

module _ {W : Type 0} (platform : Platform) (wire : Wire W) where
  unfoldable pub decoded_reply : WireEntry → Call W Entry
  decoded_reply raw w = elim (decode_entry platform.nfc platform.is_rfc3339 raw platform.strict) [
    | ok e ↦ (ok e, w)
    | err e ↦ (err (bad_entry e), w)
  ]

  -- The request of Get and Resolve, and decodeEntry of its answer.
  unfoldable pub fetch : Bytes → Call W Entry
  unfolding publicly decoded_reply
  fetch endpoint = publicly (wire.get_entry endpoint) >>>= λ raw. decoded_reply raw

  unfoldable pub get_document : Bytes → Call W Entry
  unfolding valid_argument
  get_document id = valid_argument (validate_id id) >>>= λ u.
      fetch (codes "/documents2/" ++ platform.path_escape id)

  unfoldable pub get_folder : Bytes → Call W Entry
  unfolding valid_argument
  get_folder id = valid_argument (validate_id id) >>>= λ u.
      fetch (codes "/folders2/" ++ platform.path_escape id)

  unfoldable pub resolve : RemotePath → Call W Entry
  resolve path =
      if bytes_eq path []
      then fail zero_path
      else fetch (codes "/resolve/entry/path/" ++ platform.path_escape path)
