-- ===== src/Tests/Devices.antt =====
-- Runs of the simulator: dptest/state.go and dptest/emulator.go.
use dpwire.Prelude.{
  ◌+◌, ◌^◌, ◌<◌, ◌≡◌, ◌≢◌, refl, Bool, true, false, Option, none, some, [], ◌∷◌, ◌++◌, Bytes, codes,
  bytes_eq, err, arith,
}
use dpwire.Prelude.Dict.{lookup, insert, erase, any_entry}
use dpwire.Decimal.{format_nat, digits, format_padded}
use dpwire.Device.State.{
  Document, State, new_state, folder_path, path_exists, path_exists_except, conflict, PublicKey,
}
use dpwire.Device.Creation.{create_document, create_folder, empty_document}
use dpwire.Device.Changes.{upload_document, copy_document, update_entry, next_revision}
use dpwire.Device.Deletion.{delete_document, delete_folder}
use dpwire.Device.Sessions.{set_nonce, take_nonce, register_client, client_key}
use dpwire.Device.Sessions.Nonces.{take_nonce_once}
use dpwire.Device.Invariant.{IsIndexed}
use dpwire.Device.Reach.{here, next, make_document, Reach-IsIndexed}
use dpwire.Device.Paths.{
  HasUniquePaths, create_document-HasUniquePaths, create_folder-HasUniquePaths,
  copy_document-HasUniquePaths, update_document-HasUniquePaths,
}
use dpwire.Device.Guards.{
  Stored, upload-Stored, upload_twice, Guarded, delete_document-Guarded, EmptyOnly,
  delete_folder-EmptyOnly, next_revision-format_nat,
}
use dpwire.Emulator.Auth.{AuthRequest, auth_failed, finish_auth, serve_auth}
use dpwire.Emulator.Auth.Login.{IsLogin, serve_auth_twice, serve_auth-IsLogin}

abbrev today : Bytes
today = codes "2026-01-02T03:04:05Z"

abbrev empty_device : State
empty_device = new_state (codes "DPT-RP1") (codes "1.6")

-- A device with one document, and one more.
abbrev one_document : State
one_document = (create_document (codes "root") (codes "a.pdf") today empty_device).1

abbrev two_documents : State
two_documents = (create_document (codes "root") (codes "b.pdf") today one_document).1

room : empty_device.next_id + 1 < 2 ^ 64
unfolding new_state
room = omega arith

Reach-IsIndexed_example : IsIndexed one_document
Reach-IsIndexed_example =
    Reach-IsIndexed (codes "DPT-RP1") (codes "1.6") {t = one_document}
      (next here (make_document (codes "root") (codes "a.pdf") today room))

empty-HasUniquePaths : HasUniquePaths empty_device
unfolding new_state lookup
empty-HasUniquePaths true g j k d e a b same = ground (arith, a)
empty-HasUniquePaths false g j k d e a b same = ground (arith, a)

empty-IsIndexed : IsIndexed empty_device
empty-IsIndexed = Reach-IsIndexed (codes "DPT-RP1") (codes "1.6") {t = empty_device} here

create_document-HasUniquePaths_example :
    HasUniquePaths (create_document (codes "root") (codes "a.pdf") today empty_device).1
create_document-HasUniquePaths_example =
    create_document-HasUniquePaths (codes "root") (codes "a.pdf") today empty_device empty-IsIndexed
      empty-HasUniquePaths

create_folder-HasUniquePaths_example :
    HasUniquePaths (create_folder (codes "root") (codes "Papers") today empty_device).1
create_folder-HasUniquePaths_example =
    create_folder-HasUniquePaths (codes "root") (codes "Papers") today empty_device empty-IsIndexed
      empty-HasUniquePaths

one-IsIndexed : IsIndexed one_document
one-IsIndexed =
    Reach-IsIndexed (codes "DPT-RP1") (codes "1.6") {t = one_document}
      (next here (make_document (codes "root") (codes "a.pdf") today room))

one-HasUniquePaths : HasUniquePaths one_document
one-HasUniquePaths =
    create_document-HasUniquePaths (codes "root") (codes "a.pdf") today empty_device empty-IsIndexed
      empty-HasUniquePaths

copy_document-HasUniquePaths_example :
    HasUniquePaths
      (copy_document (codes "doc-000001") (codes "root") (codes "c.pdf") today one_document).1
copy_document-HasUniquePaths_example =
    copy_document-HasUniquePaths (codes "doc-000001") (codes "root") (codes "c.pdf") today
      one_document one-IsIndexed one-HasUniquePaths

update_document-HasUniquePaths_example :
    HasUniquePaths
      (update_entry (codes "doc-000001") (codes "root") (codes "c.pdf") false one_document).1
update_document-HasUniquePaths_example =
    update_document-HasUniquePaths (codes "doc-000001") (codes "root") (codes "c.pdf") one_document
      one-IsIndexed one-HasUniquePaths

abbrev made : Document
made = empty_document 1 (codes "Document/a.pdf") (codes "a.pdf") (codes "root") today

one_document-a : lookup (codes "doc-000001") one_document.documents ≡ some made
unfolding bytes_eq create_document lookup new_state folder_path path_exists path_exists_except
    any_entry empty_document insert format_nat digits format_padded
one_document-a = refl

abbrev pdf : Bytes
pdf = codes "%PDF-1.7"

upload-Stored_example :
    Stored
      (codes "doc-000001")
      pdf
      []
      today
      one_document
      (upload_document (codes "doc-000001") pdf [] [] today one_document)
upload-Stored_example = upload-Stored (codes "doc-000001") pdf [] [] today one_document

delete_document-Guarded_example :
    Guarded
      (codes "doc-000001")
      (codes "1")
      one_document
      (delete_document (codes "doc-000001") (codes "1") one_document)
delete_document-Guarded_example =
    delete_document-Guarded (codes "doc-000001") (codes "1") one_document

abbrev one_folder : State
one_folder = (create_folder (codes "root") (codes "Papers") today empty_device).1

delete_folder-EmptyOnly_example :
    EmptyOnly
      (codes "folder-000001")
      one_folder
      (delete_folder (codes "folder-000001") false one_folder)
delete_folder-EmptyOnly_example = delete_folder-EmptyOnly (codes "folder-000001") one_folder

next_revision-format_nat_example : next_revision (format_nat 41) ≡ format_nat (41 + 1)
next_revision-format_nat_example = next_revision-format_nat 41 (omega arith)

made-first : made.revision ≡ format_nat 0
unfolding empty_document format_nat digits
made-first = refl

upload_twice_example :
    let t = (upload_document (codes "doc-000001") pdf [] (format_nat 0) today one_document).1 in
    upload_document (codes "doc-000001") [] [] (format_nat 0) today t ≡ (err conflict, t)
upload_twice_example =
    upload_twice (codes "doc-000001") pdf [] [] [] today today 0 one_document made one_document-a
      made-first (omega arith)

take_nonce_once_example :
    let t = take_nonce (codes "client") (set_nonce (codes "client") (codes "n1") empty_device) in
    (t.0 ≡ some (codes "n1"))
    × ((take_nonce (codes "client") t.1).0 ≡ none)
    × ((other : Bytes)
        → other ≢ codes "client"
        → (take_nonce other t.1).0 ≡ (take_nonce other empty_device).0)
take_nonce_once_example = take_nonce_once (codes "client") (codes "n1") empty_device

-- A device with a registered client that has asked for a nonce; signing appends the modulus here.
abbrev client_device : State
client_device =
    set_nonce (codes "client") (codes "n1")
      (register_client (codes "client") (some (record { modulus = 35; exponent = 5 })) empty_device)

abbrev plain : Bytes → Bytes
plain b = b

abbrev read_any : Bytes → Option Bytes
read_any b = some b

abbrev verify_appended : PublicKey → Bytes → Bytes → Bool
verify_appended key digest signature = bytes_eq signature (digest ++ (key.modulus ∷ []))

abbrev login_request : AuthRequest
login_request = record { client_id = codes "client"; nonce_signed = codes "n1#" }

login_accepted :
    (serve_auth plain read_any plain verify_appended
      (some login_request)
      (some (codes "token"))
      client_device).0.status
    ≡ 204
unfolding serve_auth finish_auth client_key take_nonce set_nonce register_client lookup insert erase
    new_state bytes_eq
login_accepted = refl

serve_auth-IsLogin_example : IsLogin read_any plain verify_appended login_request client_device
serve_auth-IsLogin_example =
    serve_auth-IsLogin plain read_any plain verify_appended login_request (some (codes "token"))
      client_device login_accepted

serve_auth_twice_example :
    let s1 =
      (serve_auth plain read_any plain verify_appended
        (some login_request)
        (some (codes "token"))
        client_device).1 in
    let r =
      serve_auth plain read_any plain verify_appended
        (some login_request)
        (some (codes "token"))
        s1 in
    (r.0 ≡ auth_failed) × (r.1.sessions ≡ s1.sessions)
serve_auth_twice_example =
    serve_auth_twice plain read_any plain verify_appended login_request login_request
      (some (codes "token")) (some (codes "token")) client_device refl
