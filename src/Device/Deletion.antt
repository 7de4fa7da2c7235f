-- ===== src/Device/Deletion.antt =====
-- dptest/state.go: deleteDocument and deleteFolder, each beside the state that it leaves.
use dpwire.Prelude.{
  Bool, not, ◌&&◌, ◌||◌, none, some, [], ◌∷◌, ◌++◌, Bytes, codes, bytes_eq, has_prefix,
  if◌then◌else◌, Result, ok, err,
}
use dpwire.Prelude.Dict.{Dict, lookup, erase, any_entry, delete_where}
use dpwire.Device.State.{Document, State, StateError, not_found, conflict, not_empty}
use dpwire.Device.Changes.{revision_conflicts}

unfoldable pub delete_document : Bytes → Bytes → State → Result StateError (Unit {0}) × State
delete_document id target_revision s = elim (lookup id s.documents) [
  | none ↦ (err not_found, s)
  | some d ↦
      if revision_conflicts target_revision d
      then (err conflict, s)
      else (ok tt, record s { documents = erase id s.documents; contents = erase id s.contents })
]

abbrev pub is_child_of : Bytes → Bytes → Document → Bool
is_child_of id key child = bytes_eq child.parent_id id

-- The keys of the entries below a path: their contents are deleted with them.
abbrev pub erase_contents : Bytes → Dict Document → Dict Bytes → Dict Bytes
erase_contents prefix [] contents = contents
erase_contents prefix ((k, d) ∷ m) contents =
    let rest = erase_contents prefix m contents in
    if has_prefix d.path prefix then erase k rest else rest

abbrev pub delete_below : Bytes → State → State
delete_below prefix s = record s {
  folders = delete_where (λ d. has_prefix d.path prefix) s.folders;
  documents = delete_where (λ d. has_prefix d.path prefix) s.documents;
  contents = erase_contents prefix s.documents s.contents;
}

abbrev pub erase_folder : Bytes → State → State
erase_folder id s = record s { folders = erase id s.folders }

-- The force flag is recorded before anything is checked.
unfoldable pub delete_folder : Bytes → Bool → State → Result StateError (Unit {0}) × State
delete_folder id force s =
    let t = record s { last_folder_delete_force = some force } in
    elim (lookup id t.folders) [
      | none ↦ (err not_found, t)
      | some folder ↦
          if not force
            && (any_entry (is_child_of id) t.folders || any_entry (is_child_of id) t.documents)
          then (err not_empty, t)
          else (
            ok tt,
            erase_folder id (if force then delete_below (folder.path ++ codes "/") t else t),
          )
    ]
