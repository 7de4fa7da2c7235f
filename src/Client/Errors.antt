-- ===== src/Client/Errors.antt =====
-- errors.go: the errors that the client's calls return.
use dpwire.Prelude.{ℕ, ◌||◌, Bytes, codes, bytes_eq, ◌==◌, if◌then◌else◌}
use dpwire.Decimal.{ℤ}
use dpwire.Entries.{EntryError}

-- transport.HTTPError, and APIError with the same fields.
pub record ApiError : Type 0 where
  pub status_code : ℕ
  pub code : Bytes
  pub message : Bytes

-- What a request fails with: an answer of the device, or anything else (the connection, the encoding).
pub data WireError : Type 0 where
  http_error : ApiError → WireError
  other_error : Bytes → WireError

pub data ClientError : Type 0 where
  api_error conflict folder_not_empty : ApiError → ClientError
  wire_failure : Bytes → ClientError
  bad_entry bad_argument : EntryError → ClientError
  invalid_page_size invalid_field missing_revision root_folder no_changes negative_page
        bad_response_id zero_path :
      ClientError
  list_stopped : ℕ → ℤ → ClientError
  still_has_entries : ℕ → ClientError
  verification : Bytes → Bytes → Bytes → ClientError
  partial_failure : Bytes → Bytes → ClientError → ClientError
  unverified : ClientError → ClientError

-- `publicError` of an error that is not nil.
unfoldable pub public_error : WireError → ClientError
public_error (other_error e) = wire_failure e
public_error (http_error e) =
    if bytes_eq e.code (codes "40007") || (bytes_eq e.code (codes "40017") || e.status_code == 409)
    then conflict e
    else if bytes_eq e.code (codes "40018")
    then folder_not_empty e
    else api_error e
