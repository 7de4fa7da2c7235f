-- ===== src/Emulator/Server.antt =====
-- dptest/emulator.go: serveHTTP. The handlers stand in Handlers; a switch is a list of cases in the order of the code.
pub mod ReadOnly
pub mod Gate
use dpwire.Prelude.{
  ℕ, ◌+◌, Bool, true, false, not, ◌&&◌, ◌||◌, List, [], ◌∷◌, ◌++◌, Bytes, codes, bytes_eq, length,
  ltb, if◌then◌else◌, Option, none, some, Result, ok, err, has_prefix, has_suffix, trim_prefix,
  trim_suffix,
}
use dpwire.Decimal.{format_nat}
use dpwire.Device.State.{
  State, Document, Fault, PublicKey, entry, document, document_by_path, documents_sorted,
  folder_entries,
}
use dpwire.Device.Creation.{create_folder, create_document}
use dpwire.Device.Changes.{upload_document, update_entry, copy_document}
use dpwire.Device.Deletion.{delete_document, delete_folder}
use dpwire.Device.Sessions.{take_fault}
use dpwire.Emulator.Listing.{write_entry_list}
use dpwire.Emulator.Auth.{Response, reply, failure, serve_nonce, serve_auth, authenticated}
use dpwire.Emulator.Requests.{
  Request, Answer, object, one_entry, entry_page, pdf_file, fault_body, no_content, query_value,
  is_present, with_fields, answered_by, read_multipart_pdf,
}
use dpwire.Emulator.Handlers.{
  Host, missing, code_only, value_of, found, typed, object_of, post_folder, put_folder,
  folder_by_id, post_document, remove_document, remove_folder, put_document, get_file, store_file,
  put_file, post_copy, open_document,
}

-- A Go switch of conditions.
unfoldable pub switch : List (Bool × (Answer × State)) → Answer × State → Answer × State
switch [] default' = default'
switch ((b, answer) ∷ cases) default' = if b then answer else switch cases default'

module _ (host : Host) (r : Request) (s : State) where
  abbrev listed : List Document → Answer × State
  listed entries = (
    entry_page (
        write_entry_list (λ es. host.hex (host.sha256 (host.encode_entries es)))
          (query_value r (codes "offset")) (query_value r (codes "limit")) entries),
    s,
  )

  -- The requests that only read the state.
  abbrev firmware_answer : Answer
  firmware_answer =
      object (reply 200 ((codes "value", s.firmware) ∷ ((codes "model_name", s.model) ∷ [])))

  abbrev battery_answer : Answer
  battery_answer = object (
      reply 200 (
        (codes "level", codes "87")
        ∷ ((codes "icon_type", codes "level_bar_4")
            ∷ ((codes "status", codes "discharging")
                ∷ ((codes "health", codes "good")
                    ∷ ((codes "plugged", codes "not_plugged")
                        ∷ ((codes "pen", codes "64") ∷ [])))))))

  abbrev storage_answer : Answer
  storage_answer = object (
      reply 200
        ((codes "capacity", codes "11811160064") ∷ ((codes "available", codes "9663676416") ∷ [])))

  abbrev is_method : Bytes → Bool
  is_method name = bytes_eq r.method name

  abbrev is_at : Bytes → Bytes → Bool
  is_at name path = is_method name && bytes_eq r.path path

  abbrev is_below : Bytes → Bytes → Bytes → Bool
  is_below name prefix suffix =
      is_method name && (has_prefix r.path prefix && has_suffix r.path suffix)

  abbrev id_between : Bytes → Bytes → Bytes
  id_between prefix suffix = trim_suffix (trim_prefix r.path prefix) suffix

  -- The cases from `/documents` on.
  unfoldable pub route_documents : Answer × State
  route_documents =
      switch
        ((
          is_below (codes "GET") (codes "/folders/") (codes "/entries2"),
          listed (folder_entries (id_between (codes "/folders/") (codes "/entries2")) s),
        )
          ∷ (
            is_below (codes "GET") (codes "/documents2/") [],
            (
              found (codes "document not found")
                  (document (id_between (codes "/documents2/") []) s).0,
              s,
            ),
          )
          ∷ (
            is_below (codes "DELETE") (codes "/documents/") [],
            remove_document host r s (id_between (codes "/documents/") []),
          )
          ∷ (
            is_below (codes "DELETE") (codes "/folders/") [],
            remove_folder host r s (id_between (codes "/folders/") []),
          )
          ∷ (
            is_below (codes "PUT") (codes "/documents2/") [],
            put_document host r s (id_between (codes "/documents2/") []),
          )
          ∷ (
            is_below (codes "GET") (codes "/resolve/entry/path/") [],
            (
              found (codes "entry not found") (
                  document_by_path host.equal_fold (id_between (codes "/resolve/entry/path/") [])
                    s),
              s,
            ),
          )
          ∷ (
            is_below (codes "GET") (codes "/documents/") (codes "/file"),
            get_file host r s (id_between (codes "/documents/") (codes "/file")),
          )
          ∷ (
            is_below (codes "PUT") (codes "/documents/") (codes "/file"),
            put_file host r s (id_between (codes "/documents/") (codes "/file")),
          )
          ∷ (
            is_below (codes "POST") (codes "/documents/") (codes "/copy"),
            post_copy host r s (id_between (codes "/documents/") (codes "/copy")),
          )
          ∷ (is_at (codes "PUT") (codes "/viewer/controls/open2"), open_document host r s)
          ∷ [])
        ((code_only 404 (codes "NOT_FOUND"), s))

  -- The second switch of serveHTTP.
  unfoldable pub route : Answer × State
  route =
      switch
        ((is_at (codes "GET") (codes "/ping"), (value_of (codes "pong"), s))
          ∷ (is_at (codes "GET") (codes "/api_version"), (value_of (codes "0.6.0"), s))
          ∷ (is_at (codes "GET") (codes "/system/status/firmware_version"), (firmware_answer, s))
          ∷ (is_at (codes "GET") (codes "/system/status/battery"), (battery_answer, s))
          ∷ (is_at (codes "GET") (codes "/system/status/storage"), (storage_answer, s))
          ∷ (is_at (codes "GET") (codes "/documents2"), listed (documents_sorted s))
          ∷ (is_at (codes "POST") (codes "/folders2"), post_folder host r s)
          ∷ (
            has_prefix r.path (codes "/folders2/"),
            folder_by_id host r s (trim_prefix r.path (codes "/folders2/")),
          )
          ∷ (is_at (codes "POST") (codes "/documents2"), post_document host r s)
          ∷ [])
        (route_documents)

  -- What serveHTTP does behind a fault: the first switch, the test of the session and the second switch.
  unfoldable pub serve_request : Answer × State
  serve_request =
      switch
        ((
          is_below (codes "GET") (codes "/auth/nonce/") [],
          object_of (serve_nonce host.encode_url r.random (id_between (codes "/auth/nonce/") []) s),
        )
          ∷ (
            is_at (codes "PUT") (codes "/auth"),
            object_of (
                serve_auth host.encode_standard host.decode_base64 host.sha256 host.verify
                  r.auth_json r.random s),
          )
          ∷ (
            has_prefix r.path (codes "/register"),
            (
              object (
                  failure 501 (codes "REGISTRATION_ENDPOINT_REQUIRED")
                    (codes "use the registration emulator")),
              s,
            ),
          )
          ∷ (
            s.require_auth && not (authenticated host.trim_space r.cookies s),
            (
              object
                  (failure 401 (codes "AUTH_REQUIRED") (codes "valid Credentials cookie required")),
              s,
            ),
          )
          ∷ [])
        (route)

-- A fault that was injected for the request, or none.
abbrev pub faulted : Host → Request → Option Fault × State → Answer × State
faulted host r (some fault, s) = (fault_body fault.status fault.body, s)
faulted host r (none, s) = serve_request host r s

unfoldable pub serve_http : Host → Request → State → Answer × State
serve_http host r s =
    faulted host r (take_fault host.path_match (r.method ++ (codes " " ++ r.path)) s)
