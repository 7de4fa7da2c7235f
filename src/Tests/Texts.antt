-- ===== src/Tests/Texts.antt =====
-- Runs of the client, the cryptography and the reference file.
use dpwire.Prelude.{
  ◌≡◌, refl, Bool, true, some, [], Bytes, codes, bytes_eq, has_prefix, has_suffix, trim_suffix, ok,
}
use dpwire.Decimal.{parse_uint64, read_number, read_digits}
use dpwire.EntryType.{is_known}
use dpwire.Unicode.{valid_string, contains_control}
use dpwire.Segments.{split}
use dpwire.RemotePath.{
  parse_remote_path, check_segments, starts_at_root, is_bad_segment, IsInTree,
  parse_remote_path-IsInTree, IsNormalizer, marshal_text, marshal_text-parse_remote_path,
}
use dpwire.Entries.{
  WireEntry, Entry, decode_entry, validate_id, is_valid_id, entry_name, root_name,
  validate_entry_name, is_valid_name, check_metadata, check_strict, made_entry,
}
use dpwire.Entries.Decoding.{IsDecoded, decode_entry-IsDecoded}

abbrev pub plain : Bytes → Bytes
plain b = b

abbrev pub any_time : Bytes → Bool
any_time t = true

parsed : parse_remote_path plain (codes "Document/a.pdf") ≡ ok (codes "Document/a.pdf")
unfolding parse_remote_path check_segments starts_at_root is_bad_segment valid_string
    contains_control split bytes_eq has_prefix has_suffix
parsed = refl

parse_remote_path-IsInTree_example :
    (codes "Document/a.pdf" ≡ plain (codes "Document/a.pdf")) × IsInTree (codes "Document/a.pdf")
parse_remote_path-IsInTree_example =
    parse_remote_path-IsInTree plain (codes "Document/a.pdf") (codes "Document/a.pdf") parsed

plain-IsNormalizer : IsNormalizer plain
plain-IsNormalizer = record {
  idempotent = λ v. refl;
  keeps_utf8 = λ v h. h;
  keeps_controls = λ v h g. g;
  keeps_backslashes = λ v h g. g;
}

marshal_text-parse_remote_path_example :
    (marshal_text (codes "Document/a.pdf") ≡ some (codes "Document/a.pdf"))
    × (parse_remote_path plain (codes "Document/a.pdf") ≡ ok (codes "Document/a.pdf"))
marshal_text-parse_remote_path_example =
    marshal_text-parse_remote_path plain plain-IsNormalizer (codes "Document/a.pdf")
      (codes "Document/a.pdf") parsed

-- A document in the root folder.
abbrev pub sent : WireEntry
sent = record {
  id = codes "e1";
  name = codes "a.pdf";
  path = codes "Document/a.pdf";
  entry_type = codes "document";
  created = codes "2026-01-02T03:04:05Z";
  modified = codes "2026-01-02T03:04:05Z";
  mime_type = codes "application/pdf";
  size = codes "8";
  document_type = [];
  author = [];
  title = [];
  total_pages = [];
  current_page = [];
  reading_date = [];
  parent_folder_id = codes "root";
  is_new = [];
  document_source = [];
  external_id = [];
  file_hash = [];
  revision = codes "1";
}

abbrev pub shown : Entry
unfolding made_entry
shown = made_entry sent (codes "Document/a.pdf") (codes "a.pdf")

pub decoded : decode_entry plain any_time sent true ≡ ok shown
unfolding decode_entry validate_id is_valid_id entry_name root_name validate_entry_name
    is_valid_name check_metadata check_strict is_known parse_remote_path check_segments
    starts_at_root is_bad_segment valid_string contains_control split bytes_eq has_prefix has_suffix
    trim_suffix parse_uint64 read_number read_digits made_entry
decoded = refl

decode_entry-IsDecoded_example : IsDecoded plain sent shown
decode_entry-IsDecoded_example = decode_entry-IsDecoded plain any_time sent true shown decoded
