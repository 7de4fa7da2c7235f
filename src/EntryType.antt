-- ===== src/EntryType.antt =====
-- EntryType of entries.go: a string, of which two values are known.
use dpwire.Prelude.{Bool, ◌||◌, Bytes, codes, bytes_eq}

abbrev pub EntryType : Type 0
EntryType = Bytes

abbrev pub entry_document : EntryType
entry_document = codes "document"

abbrev pub entry_folder : EntryType
entry_folder = codes "folder"

-- `t == EntryDocument || t == EntryFolder`
unfoldable pub is_known : EntryType → Bool
is_known t = bytes_eq t entry_document || bytes_eq t entry_folder
