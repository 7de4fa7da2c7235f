-- ===== src/Tests/Clients.antt =====
-- Runs of the client against a small device.
use dpwire.Prelude.{
  ◌≡◌, ◌≢◌, refl, Bool, true, false, some, List, [], ◌∷◌, ◌++◌, Bytes, codes, bytes_eq, has_suffix,
  Result, ok, err, any, arith,
}
use dpwire.Decimal.{atoi, read_number, read_digits, format_nat, digits, pos}
use dpwire.Unicode.{valid_string, contains_control}
use dpwire.Entries.{
  WireEntry, validate_id, is_valid_id, validate_entry_name, is_valid_name, is_pdf_name, made_entry,
}
use dpwire.Client.Errors.{WireError, http_error, public_error}
use dpwire.Client.Calls.{
  Wire, Platform, Method, http_get, http_put, http_post, http_delete, get_document, get_folder,
  fetch, decoded_reply, publicly, valid_argument, api_error_of,
}
use dpwire.Client.Deletion.{delete, verify_deleted, lookup_deleted}
use dpwire.Client.Deletion.Verified.{IsAbsent, delete-IsAbsent}
use dpwire.Client.Writes.{
  update_document, update_folder, parent_change, name_change, send_update, verify_update,
}
use dpwire.Client.Writes.Verified.{IsUpdated, update_document-IsUpdated, update_folder-IsUpdated}
use dpwire.Client.Uploads.{
  Source, UploadReply, UploadResult, PutPdf, decoded_body, replace, prepare_pdf, upload, check_body,
  check_reply, verify_replaced,
}
use dpwire.Client.Uploads.Verified.{IsStored, replace-IsStored}
use dpwire.Client.Listing.{ListOptions, checked_page_size, is_bad_field, decode_all, list_entries}
use dpwire.Client.Listing.Complete.{served, list_entries-served}
use dpwire.Tests.Texts.{plain, any_time, sent, shown, decoded}

-- A device that holds one document, `true`, or none; a deletion removes it.
abbrev answer : Bool → Result WireError WireEntry
answer true = ok sent
answer false = err (http_error (record { status_code = 404; code = codes "40401"; message = [] }))

abbrev after_request : Method → Bool → Bool
after_request http_get w = w
after_request http_put w = w
after_request http_post w = w
after_request http_delete w = false

abbrev small_device : Wire Bool
small_device = record {
  get_entry = λ endpoint w. (answer w, w);
  post_for_id = λ endpoint payload w. (ok (codes "e1"), w);
  send = λ method endpoint payload w. (ok tt, after_request method w);
}

abbrev platform : Platform
platform = record { nfc = plain; path_escape = plain; is_rfc3339 = any_time; strict = true }

deleted : delete platform small_device (codes "e1") (codes "1") true ≡ (ok tt, false)
unfolding delete validate_id is_valid_id valid_string contains_control bytes_eq publicly
    valid_argument lookup_deleted verify_deleted get_document fetch public_error api_error_of
deleted = refl

delete-IsAbsent_example :
    (codes "1" ≢ [])
    × ((requested : Bool) × ((small_device.send http_delete
              (codes "/documents/" ++ platform.path_escape (codes "e1"))
              ((codes "target_revision", codes "1") ∷ [])
              true
            ≡ (ok tt, requested))
          × IsAbsent (get_document platform small_device (codes "e1")) requested false))
delete-IsAbsent_example =
    delete-IsAbsent platform small_device (codes "e1") (codes "1") true false deleted

fetched : fetch platform small_device (codes "/documents2/e1") true ≡ (ok shown, true)
unfolding fetch publicly decoded_reply
fetched = rw (decoded_reply, decoded) refl

updated :
    update_document platform small_device (codes "e1") (codes "root") (codes "a.pdf") true
    ≡ (ok shown, true)
unfolding update_document fetch get_document publicly decoded_reply parent_change name_change
    send_update verify_update validate_id is_valid_id valid_string contains_control bytes_eq
    valid_argument validate_entry_name is_valid_name is_pdf_name made_entry has_suffix
updated = rw (decoded_reply, decoded) refl

update_document-IsUpdated_example :
    IsUpdated plain
      (get_document platform small_device (codes "e1"))
      (codes "root")
      (codes "a.pdf")
      shown
      true
update_document-IsUpdated_example =
    update_document-IsUpdated platform small_device (codes "e1") (codes "root") (codes "a.pdf")
      shown true true updated

moved : update_folder platform small_device (codes "e1") (codes "root") [] true ≡ (ok shown, true)
unfolding update_folder fetch get_folder publicly decoded_reply parent_change name_change
    send_update verify_update validate_id is_valid_id valid_string contains_control bytes_eq
    valid_argument made_entry
moved = rw (decoded_reply, decoded) refl

update_folder-IsUpdated_example :
    IsUpdated plain (get_folder platform small_device (codes "e1")) (codes "root") [] shown true
update_folder-IsUpdated_example =
    update_folder-IsUpdated platform small_device (codes "e1") (codes "root") [] shown true true
      moved

abbrev two_entries : List WireEntry
two_entries = sent ∷ (sent ∷ [])

two_decoded : decode_all plain any_time true two_entries ≡ ok (shown ∷ (shown ∷ []))
unfolding decode_all
two_decoded = rw decoded refl

abbrev by_ones : ListOptions
by_ones = record { page_size = pos 1; fields = codes "entry_name" ∷ [] }

chosen : checked_page_size by_ones.page_size ≡ some 1
unfolding checked_page_size
chosen = refl

good_fields : any is_bad_field by_ones.fields ≡ false
unfolding is_bad_field bytes_eq
good_fields = refl

list_entries-served_example :
    list_entries plain any_time true
      (served (λ xs. codes "hash") two_entries)
      3
      (codes "documents")
      by_ones
      tt
    ≡ (some (ok (shown ∷ (shown ∷ [])), tt))
list_entries-served_example =
    list_entries-served plain any_time true tt two_entries (shown ∷ (shown ∷ []))
      (λ xs. codes "hash") (codes "documents") by_ones 1 3 two_decoded (omega arith) chosen
      good_fields (omega arith)

-- Three fields of the answer are those of an eight-byte PDF.
abbrev put_eight : PutPdf Bool
put_eight endpoint target name content w = (
  ok (
      decoded_body (record {
        received = codes "8";
        current = codes "8";
        complete = codes "yes";
        revision = codes "1";
      })),
  w,
)

abbrev eight_bytes : Source
eight_bytes = record {
  content = codes "%PDF-1.7";
  first_seek = true;
  magic_read = true;
  second_seek = true;
  copied = true;
  third_seek = true;
}

abbrev uploaded : UploadResult
uploaded = record {
  received_bytes = pos 8;
  current_bytes = pos 8;
  completed = true;
  revision = codes "1";
  sha256 = codes "%PDF-1.7";
}

replaced :
    replace platform small_device put_eight plain
      (codes "e1")
      (codes "a.pdf")
      (codes "0")
      (some eight_bytes)
      true
    ≡ (ok (shown, uploaded), true)
unfolding replace prepare_pdf upload check_body check_reply verify_replaced atoi read_number
    read_digits format_nat digits fetch get_document publicly decoded_reply validate_id is_valid_id
    valid_string contains_control bytes_eq valid_argument validate_entry_name is_valid_name
    is_pdf_name made_entry has_suffix
replaced = rw (decoded_reply, decoded) refl

replace-IsStored_example :
    (codes "0" ≢ [])
    × ((name : Bytes) × ((reply : UploadReply) × ((stored : Bool) × ((validate_entry_name plain
                  (codes "a.pdf")
                  true
                ≡ ok name)
              × ((put_eight
                      (codes "/documents/" ++ plain (codes "e1") ++ codes "/file")
                      (some (codes "0"))
                      name
                      (codes "%PDF-1.7")
                      true
                    ≡ (ok (decoded_body reply), stored))
                  × IsStored
                      (get_document platform small_device (codes "e1"))
                      (codes "%PDF-1.7")
                      reply
                      shown
                      uploaded
                      stored
                      true)))))
replace-IsStored_example =
    replace-IsStored platform small_device put_eight plain (codes "e1") (codes "a.pdf") (codes "0")
      eight_bytes (shown, uploaded) true true replaced
