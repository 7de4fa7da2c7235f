-- ===== src/Client/Deletion.antt =====
-- delete.go: deletions that are verified by a lookup.
pub mod Verified
use dpwire.Prelude.{
  ℕ, zero, suc, Bool, true, false, not, List, [], ◌∷◌, Bytes, codes, bytes_eq, ◌++◌, ◌==◌, length,
  if◌then◌else◌, Option, none, some, Result, ok, err,
}
use dpwire.Entries.{Entry, validate_id}
use dpwire.Client.Errors.{
  ApiError, ClientError, verification, unverified, missing_revision, root_folder, still_has_entries,
}
use dpwire.Client.Calls.{
  Call, return, fail, ◌>>>=◌, Method, http_delete, Wire, Platform, publicly, valid_argument,
  api_error_of, get_document, get_folder,
}

-- `verifyDeleted` of the lookup's answer.
unfoldable pub verify_deleted :
    Bytes → Bytes → Result ClientError Entry → Result ClientError (Unit {0})
verify_deleted kind id (ok entry) =
    err (verification (kind ++ codes " deletion") (codes "absent") (id ++ codes " still exists"))
verify_deleted kind id (err e) = elim (api_error_of e) [
  | none ↦ err (unverified e)
  | some api ↦ if api.status_code == 404 then ok tt else err (unverified e)
]

-- The lookup and its verdict.
unfoldable pub lookup_deleted : {W : Type 0} → Bytes → Bytes → Call W Entry → Call W (Unit {0})
lookup_deleted kind id lookup w =
    let (answer, later) = lookup w in (verify_deleted kind id answer, later)

module _ {W : Type 0} (platform : Platform) (wire : Wire W) where
  unfoldable pub delete : Bytes → Bytes → Call W (Unit {0})
  delete id target_revision = valid_argument (validate_id id) >>>= λ u.
      if bytes_eq target_revision []
      then fail missing_revision
      else publicly (
          wire.send http_delete (codes "/documents/" ++ platform.path_escape id)
            ((codes "target_revision", target_revision) ∷ []))
        >>>= λ v. lookup_deleted (codes "document") id (get_document platform wire id)

  -- `s.List(ctx, id, ListOptions{})` is the parameter.
  unfoldable pub delete_empty : (Bytes → Call W (List Entry)) → Bytes → Call W (Unit {0})
  delete_empty list id = valid_argument (validate_id id) >>>= λ u.
      get_folder platform wire id >>>= λ folder.
      if bytes_eq folder.path (codes "Document")
      then fail root_folder
      else list id >>>= λ entries.
          if not (length entries == 0)
          then fail (still_has_entries (length entries))
          else publicly (
              wire.send http_delete (codes "/folders/" ++ platform.path_escape id)
                ((codes "force_delete_flag", codes "false") ∷ []))
            >>>= λ v. lookup_deleted (codes "folder") id (get_folder platform wire id)
