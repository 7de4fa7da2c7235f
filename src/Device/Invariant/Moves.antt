-- ===== src/Device/Invariant/Moves.antt =====
-- updateEntry and deleteFolder keep the maps indexed.
use dpwire.Prelude.{
  ◌≡◌, refl, Bool, true, false, if◌then◌else◌, Option, none, some, [], ◌∷◌, Bytes, bytes_eq_iff,
  has_prefix, arith,
}
use dpwire.Prelude.Dict.{Dict, lookup, lookup-erase, lookup-insert, lookup-map_values}
use dpwire.Prelude.Dict.Every.{
  Every-lookup, Every-insert, Every-erase, Every-map_values, Every-delete_where,
}
use dpwire.Prelude.Dict.Keys.{
  UniqueKeys, insert-UniqueKeys, erase-UniqueKeys, map_values-UniqueKeys, delete_where-UniqueKeys,
  lookup-delete_where,
}
use dpwire.Device.State.{Document, State}
use dpwire.Device.Changes.{moved_entry, rebase, rebase_all, put_entry, collection, update_entry}
use dpwire.Device.Deletion.{erase_contents, delete_below, erase_folder, delete_folder}
use dpwire.Device.Cases.{update_entry-cases, delete_folder-cases}
use dpwire.Device.Invariant.{IsIndexed}

put_entry-IsIndexed :
    (folder : Bool) (id : Bytes) (old new : Document) (s : State)
    → lookup id (collection folder s) ≡ some old
    → new.id ≡ old.id
    → IsIndexed s
    → IsIndexed (put_entry folder id new s)
put_entry-IsIndexed true id old new s e same h =
    let n = Every-lookup _ id old s.folders h.folders_numbered e in
    record {
      documents_numbered = h.documents_numbered;
      folders_numbered =
          Every-insert _ id new s.folders (n.0, n.1, n.2, cc (n.3, same)) h.folders_numbered;
      document_keys = h.document_keys;
      folder_keys = insert-UniqueKeys id new s.folders h.folder_keys;
      with_content = h.with_content;
    }
put_entry-IsIndexed false id old new s e same h =
    let n = Every-lookup _ id old s.documents h.documents_numbered e in
    record {
      documents_numbered =
          Every-insert _ id new s.documents (n.0, n.1, n.2, cc (n.3, same)) h.documents_numbered;
      folders_numbered = h.folders_numbered;
      document_keys = insert-UniqueKeys id new s.documents h.document_keys;
      folder_keys = h.folder_keys;
      with_content = λ k.
          ground (arith, lookup-insert id k new s.documents, bytes_eq_iff id k, h.with_content k);
    }

id-rebase : (old_path new_path : Bytes) (d : Document) → (rebase old_path new_path d).id ≡ d.id
unfolding rebase
id-rebase old_path new_path d = ground arith

rebase_all-IsIndexed :
    (old_path new_path : Bytes) (s : State)
    → IsIndexed s
    → IsIndexed (rebase_all old_path new_path s)
rebase_all-IsIndexed old_path new_path s h = record {
  documents_numbered =
      Every-map_values _ _ s.documents
        (λ k d n. (n.0, n.1, n.2, cc (n.3, id-rebase old_path new_path d))) h.documents_numbered;
  folders_numbered =
      Every-map_values _ _ s.folders
        (λ k d n. (n.0, n.1, n.2, cc (n.3, id-rebase old_path new_path d))) h.folders_numbered;
  document_keys = map_values-UniqueKeys _ s.documents h.document_keys;
  folder_keys = map_values-UniqueKeys _ s.folders h.folder_keys;
  with_content = λ k.
      ground (arith, lookup-map_values (rebase old_path new_path) k s.documents, h.with_content k);
}

if-IsIndexed : (b : Bool) (s t : State) → IsIndexed s → IsIndexed t → IsIndexed (if b then s else t)
if-IsIndexed true s t h k = h
if-IsIndexed false s t h k = k

pub update_entry-IsIndexed :
    (id parent_id name : Bytes) (folder : Bool) (s : State)
    → IsIndexed s
    → IsIndexed (update_entry id parent_id name folder s).1
update_entry-IsIndexed id parent_id name folder s h =
    update_entry-cases (λ out. IsIndexed out.1) id parent_id name folder s h h h
      λ entry e there free.
        let written =
          put_entry-IsIndexed folder id entry (moved_entry entry parent_id name s) s e
            (unfold moved_entry in refl) h in
        if-IsIndexed _ _ _ (rebase_all-IsIndexed _ _ _ written) written

-- What is left of the contents when the documents below a path go.
left : Bytes → Option Document → Option Bytes → Option Bytes
left prefix none c = c
left prefix (some d) c = if has_prefix d.path prefix then none else c

lookup-erase_contents :
    (prefix k : Bytes) (m : Dict Document) (contents : Dict Bytes)
    → UniqueKeys m
    → lookup k (erase_contents prefix m contents) ≡ left prefix (lookup k m) (lookup k contents)
unfolding left lookup
lookup-erase_contents prefix k [] contents u = refl
lookup-erase_contents prefix k ((j, d) ∷ m) contents u = ground (
  arith,
  bytes_eq_iff j k,
  lookup-erase j k (erase_contents prefix m contents),
  lookup-erase_contents prefix k m contents u.1,
)

delete_below-IsIndexed :
    (prefix : Bytes) (s : State) → IsIndexed s → IsIndexed (delete_below prefix s)
delete_below-IsIndexed prefix s h = record {
  documents_numbered = Every-delete_where _ _ s.documents h.documents_numbered;
  folders_numbered = Every-delete_where _ _ s.folders h.folders_numbered;
  document_keys = delete_where-UniqueKeys _ s.documents h.document_keys;
  folder_keys = delete_where-UniqueKeys _ s.folders h.folder_keys;
  with_content = λ k.
      unfold left in
      ground (
        arith,
        lookup-delete_where (λ d. has_prefix d.path prefix) k s.documents h.document_keys,
        lookup-erase_contents prefix k s.documents s.contents h.document_keys,
        h.with_content k,
      );
}

erase_folder-IsIndexed : (id : Bytes) (s : State) → IsIndexed s → IsIndexed (erase_folder id s)
erase_folder-IsIndexed id s h = record {
  documents_numbered = h.documents_numbered;
  folders_numbered = Every-erase _ id s.folders h.folders_numbered;
  document_keys = h.document_keys;
  folder_keys = erase-UniqueKeys id s.folders h.folder_keys;
  with_content = h.with_content;
}

flag-IsIndexed :
    (force : Bool) (s : State)
    → IsIndexed s
    → IsIndexed (record s { last_folder_delete_force = some force })
flag-IsIndexed force s h = record {
  documents_numbered = h.documents_numbered;
  folders_numbered = h.folders_numbered;
  document_keys = h.document_keys;
  folder_keys = h.folder_keys;
  with_content = h.with_content;
}

pub delete_folder-IsIndexed :
    (id : Bytes) (force : Bool) (s : State) → IsIndexed s → IsIndexed (delete_folder id force s).1
delete_folder-IsIndexed id force s h =
    let t = flag-IsIndexed force s h in
    delete_folder-cases (λ out. IsIndexed out.1) id force s t (λ busy. t)
      λ folder e idle.
        erase_folder-IsIndexed id _ (if-IsIndexed force _ _ (delete_below-IsIndexed _ _ t) t)
