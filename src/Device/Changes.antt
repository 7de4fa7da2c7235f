-- ===== src/Device/Changes.antt =====
-- dptest/state.go: uploadDocument, updateEntry and copyDocument. A method gives its result beside the
-- state that it leaves, on its error paths too. `now` is the formatted time.
use dpwire.Prelude.{
  ℕ, Bool, true, false, not, ◌&&◌, Option, none, some, [], ◌++◌, Bytes, codes, bytes_eq, has_prefix,
  trim_prefix, length, if◌then◌else◌, Result, ok, err,
}
use dpwire.Prelude.Dict.{Dict, lookup, insert, map_values}
use dpwire.Decimal.{format_nat, itoa, atoi, next_int64}
use dpwire.Device.State.{
  Document, State, StateError, parent_not_found, duplicate, not_found, conflict, next_number,
  doc_id, or_empty, folder_path, path_exists, path_exists_except,
}
use dpwire.Device.Creation.{child_path, store_document}

-- The next revision: `Itoa(Atoi(revision) + 1)`, the error of `Atoi` ignored.
unfoldable pub next_revision : Bytes → Bytes
next_revision revision = itoa (next_int64 (atoi revision).value)

-- `targetRevision != "" && targetRevision != document.Revision`
unfoldable pub revision_conflicts : Bytes → Document → Bool
revision_conflicts target d = not (bytes_eq target []) && not (bytes_eq target d.revision)

unfoldable pub upload_document :
    Bytes → Bytes → Bytes → Bytes → Bytes → State → Result StateError Document × State
upload_document id content file_hash target_revision now s = elim (lookup id s.documents) [
  | none ↦ (err not_found, s)
  | some d ↦
      let uploaded = record d {
        revision = next_revision d.revision;
        size = format_nat (length content);
        file_hash = file_hash;
        modified = now;
      } in
      if revision_conflicts target_revision d
      then (err conflict, s)
      else (ok uploaded, store_document id uploaded content s)
]

-- `child.Path = entry.Path + TrimPrefix(child.Path, oldPath)` below the old path.
unfoldable pub rebase : Bytes → Bytes → Document → Document
rebase old_path new_path child =
    if has_prefix child.path (old_path ++ codes "/")
    then record child { path = new_path ++ trim_prefix child.path old_path }
    else child

abbrev pub collection : Bool → State → Dict Document
collection folder s = if folder then s.folders else s.documents

abbrev pub put_entry : Bool → Bytes → Document → State → State
put_entry true id entry s = record s { folders = insert id entry s.folders }
put_entry false id entry s = record s { documents = insert id entry s.documents }

abbrev pub rebase_all : Bytes → Bytes → State → State
rebase_all old_path new_path s = record s {
  folders = map_values (rebase old_path new_path) s.folders;
  documents = map_values (rebase old_path new_path) s.documents;
}

-- The entry that updateEntry writes, once the new parent is known to exist.
unfoldable pub moved_entry : Document → Bytes → Bytes → State → Document
moved_entry entry parent_id name s =
    let parent_id' = if bytes_eq parent_id [] then entry.parent_id else parent_id in
    let name' = if bytes_eq name [] then entry.name else name in
    record entry {
      parent_id = parent_id';
      name = name';
      path = child_path (or_empty (folder_path parent_id' s)) name';
    }

abbrev pub is_none {ℓ} : {A : Type ℓ} → Option A → Bool
is_none none = true
is_none (some a) = false

unfoldable pub update_entry :
    Bytes → Bytes → Bytes → Bool → State → Result StateError Document × State
unfolding moved_entry rebase
update_entry id parent_id name folder s = elim (lookup id (collection folder s)) [
  | none ↦ (err not_found, s)
  | some entry ↦
      let moved = moved_entry entry parent_id name s in
      let renamed = not (bytes_eq moved.path entry.path) in
      let written = put_entry folder id moved s in
      if not (bytes_eq parent_id []) && is_none (folder_path parent_id s)
      then (err parent_not_found, s)
      else if renamed && path_exists_except moved.path id s
      then (err duplicate, s)
      else (
        ok moved,
        if folder && renamed then rebase_all entry.path moved.path written else written,
      )
]

unfoldable pub copied_document : Document → ℕ → Bytes → Bytes → Bytes → Bytes → Document
copied_document source number path name parent_id now = record source {
  id = doc_id number;
  external_id = doc_id number;
  name = name;
  path = path;
  parent_id = parent_id;
  created = now;
}

unfoldable pub copy_document :
    Bytes → Bytes → Bytes → Bytes → State → Result StateError Document × State
unfolding copied_document
copy_document id parent_id name now s = elim (lookup id s.documents) [
  | none ↦ (err not_found, s)
  | some source ↦ elim (folder_path parent_id s) [
    | none ↦ (err parent_not_found, s)
    | some parent_path ↦
        let name' = if bytes_eq name [] then source.name else name in
        let path = child_path parent_path name' in
        let copy = copied_document source s.next_id path name' parent_id now in
        if path_exists path s then (err duplicate, s) else (
          ok copy,
          store_document copy.id copy (or_empty (lookup id s.contents))
              (record s { next_id = next_number s.next_id }),
        )
  ]
]
