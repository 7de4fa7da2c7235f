-- ===== src/Entries.antt =====
-- entries.go and validateEntryName of write.go: what the client accepts of an entry that the device
-- sends. NFC normalization and `time.Parse` are parameters.
mod Wire
pub mod Decoding
pub use Wire.*
use dpwire.Prelude.{
  ◌≡◌, Bool, true, false, not, ◌||◌, ◌&&◌, List, [], ◌∷◌, Bytes, codes, bytes_eq, has_suffix,
  trim_suffix, contains_any, map, if◌then◌else◌, Option, none, some, Result, ok, err, ◌>>=◌, ◌>>◌,
  ◌+◌, ℕ,
}
use dpwire.Unicode.{between, valid_string, contains_control}
use dpwire.Segments.{split}
use dpwire.EntryType.{EntryType, entry_document, is_known}
use dpwire.Decimal.{parse_uint64}
use dpwire.RemotePath.{RemotePath, PathError, parse_remote_path}

pub record Entry : Type 0 where
  pub id : Bytes
  pub name : Bytes
  pub path : RemotePath
  pub entry_type : EntryType
  pub created : Bytes
  pub modified : Bytes
  pub mime_type : Bytes
  pub size : Bytes
  pub document_type : Bytes
  pub author : Bytes
  pub title : Bytes
  pub total_pages : Bytes
  pub current_page : Bytes
  pub reading_date : Bytes
  pub parent_folder_id : Bytes
  pub is_new : Bytes
  pub document_source : Bytes
  pub external_id : Bytes
  pub file_hash : Bytes
  pub revision : Bytes

pub data EntryError : Type 0 where
  invalid_id invalid_name unsafe_root_name unknown_type invalid_parent unsafe_metadata : EntryError
  not_pdf_name name_mismatch noncanonical_time no_modified no_size noncanonical_size : EntryError
  invalid_path : PathError → EntryError

-- `id == "." || id == ".."` and the tests before it.
unfoldable pub is_valid_id : Bytes → Bool
is_valid_id id = not (
    bytes_eq id []
    || (not (valid_string id)
        || (contains_control id
            || (contains_any id (codes "/\\")
                || (bytes_eq id (codes ".") || bytes_eq id (codes ".."))))))

unfoldable pub validate_id : Bytes → Result EntryError (Unit {0})
validate_id id = if is_valid_id id then ok tt else err invalid_id

-- `strings.ToLower` as far as it decides `HasSuffix(strings.ToLower(name), ".pdf")`; no other rune has an
-- ASCII letter of `pdf` as its lower case.
to_lower : ℕ → ℕ
to_lower c = if between 65 90 c then c + 32 else c

unfoldable pub is_pdf_name : Bytes → Bool
unfolding to_lower
is_pdf_name name = has_suffix (map to_lower name) (codes ".pdf")

unfoldable pub is_valid_name : Bytes → Bool
is_valid_name name = not (
    bytes_eq name []
    || (bytes_eq name (codes ".")
        || (bytes_eq name (codes "..")
            || (contains_control name || contains_any name (codes "/\\")))))

last_segment : List Bytes → Bytes
last_segment [] = []
last_segment (s ∷ []) = s
last_segment (s ∷ (t ∷ ts)) = last_segment (t ∷ ts)

is_safe : Bytes → Bool
is_safe value = valid_string value && not (contains_control value)

is_some : {A : Type 0} → Option A → Bool
is_some none = false
is_some (some a) = true

unfoldable pub check_metadata : WireEntry → Result EntryError (Unit {0})
unfolding is_safe
check_metadata raw =
    if not (is_known raw.entry_type)
    then err unknown_type
    else if not (bytes_eq raw.parent_folder_id []) && not (is_valid_id raw.parent_folder_id)
    then err invalid_parent
    else if not (is_safe raw.created) || (not (is_safe raw.modified) || not (is_safe raw.size))
    then err unsafe_metadata
    else ok tt

unfoldable pub made_entry : WireEntry → RemotePath → Bytes → Entry
made_entry raw path name = record {
  id = raw.id;
  name = name;
  path = path;
  entry_type = raw.entry_type;
  created = raw.created;
  modified = raw.modified;
  mime_type = raw.mime_type;
  size = raw.size;
  document_type = raw.document_type;
  author = raw.author;
  title = raw.title;
  total_pages = raw.total_pages;
  current_page = raw.current_page;
  reading_date = raw.reading_date;
  parent_folder_id = raw.parent_folder_id;
  is_new = raw.is_new;
  document_source = raw.document_source;
  external_id = raw.external_id;
  file_hash = raw.file_hash;
  revision = raw.revision;
}

module _ (nfc : Bytes → Bytes) where
  unfoldable pub validate_entry_name : Bytes → Bool → Result EntryError Bytes
  validate_entry_name name document =
      if not (valid_string name)
      then err invalid_name
      else if not (is_valid_name (nfc name))
      then err invalid_name
      else if document && not (is_pdf_name (nfc name))
      then err not_pdf_name
      else ok (nfc name)

  unfoldable pub root_name : Bytes → Result EntryError Bytes
  root_name name =
      if not (valid_string name) || (contains_control name || contains_any name (codes "/\\"))
      then err unsafe_root_name
      else ok (nfc name)

  -- `name` of decodeEntry
  unfoldable pub entry_name : RemotePath → Bytes → Result EntryError Bytes
  entry_name path name =
      if bytes_eq path (codes "Document") then root_name name else validate_entry_name name false

  parse_path : Bytes → Result EntryError RemotePath
  parse_path path = elim (parse_remote_path nfc (trim_suffix path (codes "/"))) [
    | ok p ↦ ok p
    | err e ↦ err (invalid_path e)
  ]

  module _ (is_rfc3339 : Bytes → Bool) where
    -- `if strict { … }`
    unfoldable pub check_strict : WireEntry → RemotePath → Bytes → Result EntryError (Unit {0})
    unfolding last_segment is_some
    check_strict raw path name =
        if not (bytes_eq path (codes "Document"))
          && not (bytes_eq name (nfc (last_segment (split path))))
        then err name_mismatch
        else if (not (bytes_eq raw.created []) && not (is_rfc3339 raw.created))
            || (not (bytes_eq raw.modified []) && not (is_rfc3339 raw.modified))
        then err noncanonical_time
        else if bytes_eq raw.entry_type entry_document && bytes_eq raw.modified []
        then err no_modified
        else if bytes_eq raw.entry_type entry_document && bytes_eq raw.size []
        then err no_size
        else if not (bytes_eq raw.size []) && not (is_some (parse_uint64 raw.size))
        then err noncanonical_size
        else ok tt

    unfoldable pub decode_entry : WireEntry → Bool → Result EntryError Entry
    unfolding parse_path
    decode_entry raw strict = validate_id raw.id >> parse_path raw.path >>= λ path.
        entry_name path raw.name >>= λ name.
        check_metadata raw
        >> (if strict then check_strict raw path name else ok tt)
        >> ok (made_entry raw path name)
