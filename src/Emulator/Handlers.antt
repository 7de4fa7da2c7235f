-- ===== src/Emulator/Handlers.antt =====
-- dptest/emulator.go: the handlers of serveHTTP that have a body of their own, one for each case of its switch.
use dpwire.Prelude.{
  List, ℕ, Bool, true, false, not, ◌&&◌, ◌||◌, [], ◌∷◌, ◌++◌, Bytes, codes, bytes_eq, length,
  if◌then◌else◌, Option, none, some, ok, err,
}
use dpwire.Decimal.{format_nat}
use dpwire.Device.State.{State, Document, PublicKey, entry, document}
use dpwire.Device.Creation.{create_folder, create_document}
use dpwire.Device.Changes.{upload_document, update_entry, copy_document}
use dpwire.Device.Deletion.{delete_document, delete_folder}
use dpwire.Emulator.Auth.{Response, reply, failure}
use dpwire.Emulator.Requests.{
  Request, Answer, object, one_entry, pdf_file, no_content, query_value, is_present, with_fields,
  answered_by, read_multipart_pdf,
}

-- What the standard library does for the handler.
pub record Host : Type 0 where
  pub encode_url : Bytes → Bytes
  pub encode_standard : Bytes → Bytes
  pub decode_base64 : Bytes → Option Bytes
  pub sha256 : Bytes → Bytes
  pub hex : Bytes → Bytes
  pub verify : PublicKey → Bytes → Bytes → Bool
  pub path_match : Bytes → Bytes → Bool
  pub equal_fold : Bytes → Bytes → Bool
  -- `strings.Contains`
  pub contains : Bytes → Bytes → Bool
  -- `strings.TrimSpace`
  pub trim_space : Bytes → Bytes
  -- `json.Marshal`
  pub encode_entries : List Document → Bytes

abbrev pub missing : Bytes → Answer
missing what = object (failure 404 (codes "40401") what)

abbrev pub code_only : ℕ → Bytes → Answer
code_only status code = object (reply status ((codes "error_code", code) ∷ []))

abbrev pub value_of : Bytes → Answer
value_of v = object (reply 200 ((codes "value", v) ∷ []))

abbrev pub found : Bytes → Option Document → Answer
found what none = missing what
found what (some d) = one_entry d

-- `!ok || entry.Type != …`
abbrev pub typed : Bytes → Option Document → Option Document
typed type none = none
typed type (some d) = if bytes_eq d.type type then some d else none

abbrev pub object_of : Response × State → Answer × State
object_of (response, s) = (object response, s)

module _ (host : Host) (r : Request) (s : State) where
  unfoldable pub post_folder : Answer × State
  post_folder = with_fields r (codes "parent_folder_id" ∷ (codes "folder_name" ∷ [])) s (λ fields.
      answered_by (λ folder. object (reply 200 ((codes "folder_id", folder.id) ∷ [])))
        (create_folder (fields (codes "parent_folder_id")) (fields (codes "folder_name")) r.now s))

  unfoldable pub put_folder : Bytes → Answer × State
  put_folder id = with_fields r (codes "parent_folder_id" ∷ (codes "folder_name" ∷ [])) s (λ fields.
      answered_by (λ e. no_content)
        (update_entry id (fields (codes "parent_folder_id")) (fields (codes "folder_name")) true s))

  unfoldable pub folder_by_id : Bytes → Answer × State
  folder_by_id id =
      if bytes_eq r.method (codes "GET")
      then (found (codes "folder not found") (typed (codes "folder") (entry id s)), s)
      else if bytes_eq r.method (codes "PUT")
      then put_folder id
      else (code_only 405 (codes "METHOD_NOT_ALLOWED"), s)

  unfoldable pub post_document : Answer × State
  post_document = with_fields r (codes "parent_folder_id" ∷ (codes "file_name" ∷ [])) s (λ fields.
      answered_by (λ d. object (reply 200 ((codes "document_id", d.id) ∷ [])))
        (create_document (fields (codes "parent_folder_id")) (fields (codes "file_name")) r.now s))

  unfoldable pub remove_document : Bytes → Answer × State
  remove_document id = with_fields r (codes "target_revision" ∷ []) s (λ fields.
      answered_by (λ u. no_content) (delete_document id (fields (codes "target_revision")) s))

  -- A missing force flag is an empty one, and that forces.
  unfoldable pub remove_folder : Bytes → Answer × State
  remove_folder id = with_fields r (codes "force_delete_flag" ∷ []) s (λ fields.
      let flag = fields (codes "force_delete_flag") in
      let force = bytes_eq flag [] || bytes_eq flag (codes "true") in
      if not (bytes_eq flag [])
        && (not (bytes_eq flag (codes "true")) && not (bytes_eq flag (codes "false")))
      then (object (failure 400 (codes "40001") (codes "invalid force_delete_flag")), s)
      else answered_by (λ u. no_content) (delete_folder id force s))

  unfoldable pub put_document : Bytes → Answer × State
  put_document id = with_fields r (codes "parent_folder_id" ∷ (codes "file_name" ∷ [])) s (λ fields.
      answered_by (λ e. no_content)
        (update_entry id (fields (codes "parent_folder_id")) (fields (codes "file_name")) false s))

  unfoldable pub get_file : Bytes → Answer × State
  get_file id =
      if not (bytes_eq r.accept [])
        && (not (host.contains r.accept (codes "application/pdf"))
            && not (host.contains r.accept (codes "*/*")))
      then (code_only 406 (codes "NOT_ACCEPTABLE"), s)
      else elim (document id s).0 [
        | none ↦ (missing (codes "document not found"), s)
        | some d ↦ (
          pdf_file (codes "\"" ++ (d.revision ++ (codes ":" ++ (d.file_hash ++ codes "\""))))
              (document id s).1,
          s,
        )
      ]

  -- The upload of a body that has been read.
  unfoldable pub store_file : Bytes → Bytes → Answer × State
  store_file id content =
      let file_hash = query_value r (codes "file_hash") in
      let size = format_nat (length content) in
      if not (bytes_eq file_hash [])
        && not (host.equal_fold file_hash (host.hex (host.sha256 content)))
      then (object (failure 400 (codes "40006") (codes "file hash mismatch")), s)
      else answered_by
          (λ d. object (
            reply 200 (
              (codes "received_bytes", size)
              ∷ ((codes "current_bytes", size)
                  ∷ ((codes "completed", codes "yes")
                      ∷ ((codes "file_revision", d.revision) ∷ []))))))
          (upload_document id content file_hash (query_value r (codes "target_revision")) r.now s)

  unfoldable pub put_file : Bytes → Answer × State
  put_file id =
      if is_present (r.query (codes "file_hash")) && s.reject_hash
      then (
        object (failure 400 (codes "40006") (codes "file_hash is not accepted by this profile")),
        s,
      )
      else elim (read_multipart_pdf r.parts) [
        | err response ↦ (object response, s)
        | ok content ↦ store_file id content
      ]

  unfoldable pub post_copy : Bytes → Answer × State
  post_copy id = with_fields r (codes "parent_folder_id" ∷ (codes "file_name" ∷ [])) s (λ fields.
      answered_by (λ d. object (reply 200 ((codes "document_id", d.id) ∷ [])))
        (copy_document id (fields (codes "parent_folder_id")) (fields (codes "file_name")) r.now s))

  unfoldable pub open_document : Answer × State
  open_document = with_fields r (codes "document_id" ∷ (codes "page" ∷ [])) s (λ fields.
      elim (typed (codes "document") (entry (fields (codes "document_id")) s)) [
        | none ↦ (missing (codes "document not found"), s)
        | some d ↦ (no_content, s)
      ])
