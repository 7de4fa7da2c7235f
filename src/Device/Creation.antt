-- ===== src/Device/Creation.antt =====
-- dptest/state.go: the methods that create folders and documents. A method gives its result beside
-- the state that it leaves, on its error paths too. `now` is the formatted time.
use dpwire.Prelude.{ℕ, none, some, [], ◌++◌, Bytes, codes, length, if◌then◌else◌, Result, ok, err}
use dpwire.Prelude.Dict.{insert}
use dpwire.Decimal.{format_nat}
use dpwire.Device.State.{
  Document, zero_document, State, StateError, parent_not_found, duplicate, next_number, folder_id,
  doc_id, folder_path, path_exists,
}

-- AddFolder, addFolderLocked
unfoldable pub add_folder : Bytes → Bytes → Bytes → Bytes → State → Document × State
add_folder path name parent now s =
    let id = folder_id s.next_id in
    let folder = record zero_document {
      id = id;
      name = name;
      path = path;
      type = codes "folder";
      created = now;
      parent_id = parent;
      is_new = codes "false";
      external_id = id;
    } in
    (folder, record s { next_id = next_number s.next_id; folders = insert id folder s.folders })

-- AddDocument; `sha256_hex` is the lower-case hexadecimal SHA-256 digest.
unfoldable pub add_document :
    (Bytes → Bytes) → Bytes → Bytes → Bytes → Bytes → Bytes → State → Document × State
add_document sha256_hex path name parent content now s =
    let id = doc_id s.next_id in
    let doc : Document = record {
      id = id;
      name = name;
      path = path;
      type = codes "document";
      created = now;
      modified = now;
      mime_type = codes "application/pdf";
      size = format_nat (length content);
      document_type = codes "normal";
      parent_id = parent;
      is_new = codes "false";
      source = codes "dp-sim";
      external_id = id;
      file_hash = sha256_hex content;
      revision = codes "1";
    } in
    (
      doc,
      record s {
        next_id = next_number s.next_id;
        documents = insert id doc s.documents;
        contents = insert id content s.contents;
      },
    )

abbrev pub child_path : Bytes → Bytes → Bytes
child_path parent_path name = parent_path ++ codes "/" ++ name

abbrev done_folder : Document × State → Result StateError Document × State
done_folder (folder, s) = (ok folder, s)

unfoldable pub create_folder : Bytes → Bytes → Bytes → State → Result StateError Document × State
unfolding add_folder
create_folder parent_id name now s = elim (folder_path parent_id s) [
  | none ↦ (err parent_not_found, s)
  | some parent_path ↦
      if path_exists (child_path parent_path name) s
      then (err duplicate, s)
      else done_folder (add_folder (child_path parent_path name) name parent_id now s)
]

-- The entry that createDocument makes: no content yet, revision 0.
unfoldable pub empty_document : ℕ → Bytes → Bytes → Bytes → Bytes → Document
empty_document number path name parent_id now = record {
  id = doc_id number;
  name = name;
  path = path;
  type = codes "document";
  created = now;
  modified = now;
  mime_type = codes "application/pdf";
  size = codes "0";
  document_type = codes "normal";
  parent_id = parent_id;
  is_new = codes "false";
  source = codes "dp-sim";
  external_id = doc_id number;
  file_hash = [];
  revision = codes "0";
}

abbrev pub store_document : Bytes → Document → Bytes → State → State
store_document id d content s = record s {
  documents = insert id d s.documents;
  contents = insert id content s.contents;
}

unfoldable pub create_document : Bytes → Bytes → Bytes → State → Result StateError Document × State
unfolding empty_document
create_document parent_id name now s = elim (folder_path parent_id s) [
  | none ↦ (err parent_not_found, s)
  | some parent_path ↦
      let doc = empty_document s.next_id (child_path parent_path name) name parent_id now in
      if path_exists (child_path parent_path name) s
      then (err duplicate, s)
      else (ok doc, store_document doc.id doc [] (record s { next_id = next_number s.next_id }))
]
