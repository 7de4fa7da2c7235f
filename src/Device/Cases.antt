-- ===== src/Device/Cases.antt =====
-- The paths through each method of dptest/state.go, with what the tests on the path have shown: to
-- prove a property of a call, prove it at the end of each path.
use dpwire.Prelude.{
  ◌≡◌, inl, inr, Bool, true, false, some, [], ◌++◌, not, ◌&&◌, ◌||◌, Bytes, bytes_eq, codes, Result,
  ok, err, Bool-cases, Option-cases, if◌then◌else◌,
}
use dpwire.Device.State.{
  Document, State, StateError, parent_not_found, duplicate, not_found, conflict, not_empty,
  or_empty, next_number, folder_path, path_exists, path_exists_except,
}
use dpwire.Prelude.Dict.{lookup, erase, any_entry}
use dpwire.Decimal.{format_nat}
use dpwire.Device.Changes.{
  next_revision, revision_conflicts, upload_document, collection, moved_entry, update_entry,
  put_entry, rebase_all, is_none, copied_document, copy_document,
}
use dpwire.Device.Deletion.{delete_document, delete_folder, is_child_of, delete_below, erase_folder}
use dpwire.Prelude.{length}
use dpwire.Device.Creation.{
  child_path, empty_document, store_document, add_folder, create_document, create_folder,
}

module _ {κ} (P : Result StateError Document × State → Type κ) where
  pub create_document-cases :
      (parent_id name now : Bytes) (s : State)
      → P (err parent_not_found, s)
      → P (err duplicate, s)
      → ((parent_path : Bytes)
          → folder_path parent_id s ≡ some parent_path
          → path_exists (child_path parent_path name) s ≡ false
          → let d = empty_document s.next_id (child_path parent_path name) name parent_id now in
            P (ok d, store_document d.id d [] (record s { next_id = next_number s.next_id })))
      → P (create_document parent_id name now s)
  unfolding create_document
  create_document-cases parent_id name now s no_parent taken made =
      elim (Option-cases (folder_path parent_id s)) [
        | inl e ↦ rw (e, create_document) no_parent
        | inr (parent_path, e) ↦ elim (Bool-cases (path_exists (child_path parent_path name) s)) [
          | inl there ↦ rw (e, create_document, there) taken
          | inr free ↦ rw (e, create_document, free) (made parent_path e free)
        ]
      ]

  pub create_folder-cases :
      (parent_id name now : Bytes) (s : State)
      → P (err parent_not_found, s)
      → P (err duplicate, s)
      → ((parent_path : Bytes)
          → folder_path parent_id s ≡ some parent_path
          → path_exists (child_path parent_path name) s ≡ false
          → let made = add_folder (child_path parent_path name) name parent_id now s in
            P (ok made.0, made.1))
      → P (create_folder parent_id name now s)
  unfolding create_folder
  create_folder-cases parent_id name now s no_parent taken made =
      elim (Option-cases (folder_path parent_id s)) [
        | inl e ↦ rw (e, create_folder) no_parent
        | inr (parent_path, e) ↦ elim (Bool-cases (path_exists (child_path parent_path name) s)) [
          | inl there ↦ rw (e, create_folder, there) taken
          | inr free ↦ rw (e, create_folder, free) (made parent_path e free)
        ]
      ]

  pub upload_document-cases :
      (id content file_hash target now : Bytes) (s : State)
      → P (err not_found, s)
      → P (err conflict, s)
      → ((d : Document)
          → lookup id s.documents ≡ some d
          → revision_conflicts target d ≡ false
          → let uploaded = record d {
            revision = next_revision d.revision;
            size = format_nat (length content);
            file_hash = file_hash;
            modified = now;
          } in
            P (ok uploaded, store_document id uploaded content s))
      → P (upload_document id content file_hash target now s)
  unfolding upload_document
  upload_document-cases id content file_hash target now s missing stale written =
      elim (Option-cases (lookup id s.documents)) [
        | inl e ↦ rw (e, upload_document) missing
        | inr (d, e) ↦ elim (Bool-cases (revision_conflicts target d)) [
          | inl bad ↦ rw (e, upload_document, bad) stale
          | inr good ↦ rw (e, upload_document, good) (written d e good)
        ]
      ]

  pub copy_document-cases :
      (id parent_id name now : Bytes) (s : State)
      → P (err not_found, s)
      → P (err parent_not_found, s)
      → P (err duplicate, s)
      → ((source : Document) (parent_path : Bytes)
          → lookup id s.documents ≡ some source
          → folder_path parent_id s ≡ some parent_path
          → let name' = if bytes_eq name [] then source.name else name in
            let path = child_path parent_path name' in
            let copy = copied_document source s.next_id path name' parent_id now in
            path_exists path s ≡ false
            → P (
              ok copy,
              store_document copy.id copy
                  (or_empty (lookup id s.contents))
                  (record s { next_id = next_number s.next_id }),
            ))
      → P (copy_document id parent_id name now s)
  unfolding copy_document
  copy_document-cases id parent_id name now s missing no_parent taken copied =
      elim (Option-cases (lookup id s.documents)) [
        | inl e ↦ rw (e, copy_document) missing
        | inr (d, e) ↦ elim (Option-cases (folder_path parent_id s)) [
          | inl f ↦ rw (e, copy_document, f) no_parent
          | inr (parent_path, f) ↦
              let path = child_path parent_path (if bytes_eq name [] then d.name else name) in
              elim (Bool-cases (path_exists path s)) [
                | inl there ↦ rw (e, copy_document, f, there) taken
                | inr free ↦ rw (e, copy_document, f, free) (copied d parent_path e f free)
              ]
        ]
      ]

  pub update_entry-cases :
      (id parent_id name : Bytes) (folder : Bool) (s : State)
      → P (err not_found, s)
      → P (err parent_not_found, s)
      → P (err duplicate, s)
      → ((entry : Document)
          → lookup id (collection folder s) ≡ some entry
          → (not (bytes_eq parent_id []) && is_none (folder_path parent_id s)) ≡ false
          → let moved = moved_entry entry parent_id name s in
            let renamed = not (bytes_eq moved.path entry.path) in
            let written = put_entry folder id moved s in
            (renamed && path_exists_except moved.path id s) ≡ false
            → P (
              ok moved,
              if folder && renamed then rebase_all entry.path moved.path written else written,
            ))
      → P (update_entry id parent_id name folder s)
  unfolding update_entry
  update_entry-cases id parent_id name folder s missing no_parent taken moved =
      elim (Option-cases (lookup id (collection folder s))) [
        | inl e ↦ rw (e, update_entry) missing
        | inr (d, e) ↦
            elim (Bool-cases (not (bytes_eq parent_id []) && is_none (folder_path parent_id s))) [
              | inl lost ↦ rw (e, update_entry, lost) no_parent
              | inr there ↦
                  let m = moved_entry d parent_id name s in
                  elim (Bool-cases
                    (not (bytes_eq m.path d.path) && path_exists_except m.path id s)) [
                      | inl used ↦ rw (e, update_entry, there, used) taken
                      | inr free ↦ rw (e, update_entry, there, free) (moved d e there free)
                    ]
            ]
      ]

module _ {κ} (P : Result StateError (Unit {0}) × State → Type κ) where
  pub delete_document-cases :
      (id target : Bytes) (s : State)
      → P (err not_found, s)
      → P (err conflict, s)
      → ((d : Document)
          → lookup id s.documents ≡ some d
          → revision_conflicts target d ≡ false
          → P (
            ok tt,
            record s { documents = erase id s.documents; contents = erase id s.contents },
          ))
      → P (delete_document id target s)
  unfolding delete_document
  delete_document-cases id target s missing stale gone =
      elim (Option-cases (lookup id s.documents)) [
        | inl e ↦ rw (e, delete_document) missing
        | inr (d, e) ↦ elim (Bool-cases (revision_conflicts target d)) [
          | inl bad ↦ rw (e, delete_document, bad) stale
          | inr good ↦ rw (e, delete_document, good) (gone d e good)
        ]
      ]

  pub delete_folder-cases :
      (id : Bytes) (force : Bool) (s : State)
      → let t = record s { last_folder_delete_force = some force } in
        let busy =
          not force
          && (any_entry (is_child_of id) s.folders || any_entry (is_child_of id) s.documents) in
        (P (err not_found, t)
          → (busy ≡ true → P (err not_empty, t))
          → ((folder : Document)
              → lookup id s.folders ≡ some folder
              → busy ≡ false
              → P (
                ok tt,
                erase_folder id (if force then delete_below (folder.path ++ codes "/") t else t),
              ))
          → P (delete_folder id force s))
  unfolding delete_folder
  delete_folder-cases id force s missing full gone = elim (Option-cases (lookup id s.folders)) [
    | inl e ↦ rw (e, delete_folder) missing
    | inr (d, e) ↦
        elim (Bool-cases (
          not force
          && (any_entry (is_child_of id) s.folders || any_entry (is_child_of id) s.documents))) [
            | inl busy ↦ rw (e, delete_folder, busy) (full busy)
            | inr idle ↦ rw (e, delete_folder, idle) (gone d e idle)
          ]
  ]
