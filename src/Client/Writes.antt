-- ===== src/Client/Writes.antt =====
-- write.go: creating, renaming, moving and copying, each verified by a lookup. The entry that a Go call
-- returns beside a partial failure is left out; the failure itself carries the entry's ID.
pub mod Verified
use dpwire.Prelude.{
  ℕ, zero, suc, Bool, true, false, not, ◌&&◌, ◌||◌, List, [], ◌∷◌, Bytes, codes, bytes_eq, ◌++◌,
  if◌then◌else◌, Result, ok, err,
}
use dpwire.Decimal.{ℤ, pos, negsuc, format_nat}
use dpwire.Entries.{Entry, validate_id, validate_entry_name, is_valid_id}
use dpwire.Client.Errors.{
  ClientError, verification, partial_failure, no_changes, negative_page, bad_response_id,
}
use dpwire.Client.Calls.{
  Call, return, fail, ◌>>>=◌, Method, http_put, Payload, Wire, Platform, publicly, valid_argument,
  get_document, get_folder,
}

-- `&PartialFailureError{Operation: operation, EntryID: id, Cause: err}` where the call fails.
unfoldable pub partially :
    {W A : Type 0} → Bytes → Bytes → Result ClientError A × W → Result ClientError A × W
partially operation id (ok a, w) = (ok a, w)
partially operation id (err e, w) = (err (partial_failure operation id e), w)

module _ {W : Type 0} (platform : Platform) (wire : Wire W) where
  -- `if parentID != "" { … }` of Update
  unfoldable pub parent_change : Bytes → Call W Payload
  parent_change parent_id =
      if bytes_eq parent_id []
      then return []
      else valid_argument (validate_id parent_id) >>>= λ u.
          return ((codes "parent_folder_id", parent_id) ∷ [])

  -- `if newName != "" { … }` of Update, with the key of the name.
  unfoldable pub name_change : Bytes → Bool → Bytes → Call W Payload
  name_change key document new_name =
      if bytes_eq new_name []
      then return []
      else valid_argument (validate_entry_name platform.nfc new_name document) >>>= λ name.
          return ((key, name) ∷ [])

  -- The tests of Update on the entry that the device shows afterwards.
  unfoldable pub verify_update : Bytes → Bytes → Bytes → Entry → Call W Entry
  verify_update key parent_id new_name entry =
      if not (bytes_eq parent_id []) && not (bytes_eq entry.parent_folder_id parent_id)
      then fail (verification (codes "parent_folder_id") parent_id entry.parent_folder_id)
      else if not (bytes_eq new_name []) && not (bytes_eq entry.name (platform.nfc new_name))
      then fail (verification key (platform.nfc new_name) entry.name)
      else return entry

  unfoldable pub send_update : Bytes → Payload → Call W (Unit {0})
  send_update endpoint [] = fail no_changes
  send_update endpoint (change ∷ changes) =
      publicly (wire.send http_put endpoint (change ∷ changes))

  unfoldable pub update_folder : Bytes → Bytes → Bytes → Call W Entry
  update_folder id parent_id new_name = valid_argument (validate_id id) >>>= λ u.
      parent_change parent_id >>>= λ moved.
      name_change (codes "folder_name") false new_name >>>= λ renamed.
      send_update (codes "/folders2/" ++ platform.path_escape id) (moved ++ renamed) >>>= λ v.
      get_folder platform wire id >>>= λ entry.
      verify_update (codes "folder_name") parent_id new_name entry

  unfoldable pub update_document : Bytes → Bytes → Bytes → Call W Entry
  update_document id parent_id new_name = valid_argument (validate_id id) >>>= λ u.
      parent_change parent_id >>>= λ moved.
      name_change (codes "file_name") true new_name >>>= λ renamed.
      send_update (codes "/documents2/" ++ platform.path_escape id) (moved ++ renamed) >>>= λ v.
      get_document platform wire id >>>= λ entry.
      verify_update (codes "file_name") parent_id new_name entry

  -- `if err := validateID(response.FolderID); err != nil { … }`
  unfoldable pub check_response_id : Bytes → Call W (Unit {0})
  check_response_id id = if is_valid_id id then return tt else fail bad_response_id

  -- What Create and CreateMetadata test of the entry that the device shows afterwards.
  unfoldable pub verify_created : Bytes → Bytes → Bytes → Entry → Call W Entry
  verify_created field parent_id name entry =
      if not (bytes_eq entry.name name) || not (bytes_eq entry.parent_folder_id parent_id)
      then fail (
          verification field (parent_id ++ codes "/" ++ name)
            (entry.parent_folder_id ++ codes "/" ++ entry.name))
      else return entry

  unfoldable pub create_folder : Bytes → Bytes → Call W Entry
  unfolding partially
  create_folder parent_id name = valid_argument (validate_id parent_id) >>>= λ u.
      valid_argument (validate_entry_name platform.nfc name false) >>>= λ normal.
      publicly (
        wire.post_for_id (codes "/folders2")
          ((codes "parent_folder_id", parent_id) ∷ ((codes "folder_name", normal) ∷ [])))
      >>>= λ id. check_response_id id >>>= λ v w.
          partially (codes "folder creation verification") id (
            (get_folder platform wire id >>>= λ entry.
            verify_created (codes "folder metadata") parent_id normal entry)
              w)

  unfoldable pub create_metadata : Bytes → Bytes → Call W Entry
  unfolding partially
  create_metadata parent_id filename = valid_argument (validate_id parent_id) >>>= λ u.
      valid_argument (validate_entry_name platform.nfc filename true) >>>= λ normal.
      publicly (
        wire.post_for_id (codes "/documents2")
          ((codes "parent_folder_id", parent_id) ∷ ((codes "file_name", normal) ∷ [])))
      >>>= λ id. check_response_id id >>>= λ v w.
          partially (codes "document creation verification") id (
            (get_document platform wire id >>>= λ entry.
            verify_created (codes "document metadata") parent_id normal entry)
              w)

  unfoldable pub verify_copy : Bytes → Bytes → Entry → Call W Entry
  verify_copy parent_id new_name entry =
      if not (bytes_eq entry.parent_folder_id parent_id)
        || (not (bytes_eq new_name []) && not (bytes_eq entry.name (platform.nfc new_name)))
      then fail (
          verification (codes "copied document metadata") (parent_id ++ codes "/" ++ new_name)
            (entry.parent_folder_id ++ codes "/" ++ entry.name))
      else return entry

  unfoldable pub copy : Bytes → Bytes → Bytes → Call W Entry
  unfolding partially
  copy id parent_id new_name = valid_argument (validate_id id) >>>= λ u.
      valid_argument (validate_id parent_id) >>>= λ v.
      name_change (codes "file_name") true new_name >>>= λ renamed.
      publicly (
        wire.post_for_id (codes "/documents/" ++ platform.path_escape id ++ codes "/copy")
          ((codes "parent_folder_id", parent_id) ∷ renamed))
      >>>= λ copied. check_response_id copied >>>= λ x w.
          partially (codes "document copy verification") copied (
            (get_document platform wire copied >>>= λ entry. verify_copy parent_id new_name entry)
              w)

  -- `page` is an int.
  unfoldable pub open_document : Bytes → ℤ → Call W (Unit {0})
  open_document id (negsuc page) = valid_argument (validate_id id) >>>= λ u. fail negative_page
  open_document id (pos zero) = valid_argument (validate_id id) >>>= λ u.
      publicly
        (wire.send http_put (codes "/viewer/controls/open2") ((codes "document_id", id) ∷ []))
  open_document id (pos (suc page)) = valid_argument (validate_id id) >>>= λ u. publicly (
      wire.send http_put (codes "/viewer/controls/open2")
        ((codes "document_id", id) ∷ ((codes "page", format_nat (suc page)) ∷ [])))
