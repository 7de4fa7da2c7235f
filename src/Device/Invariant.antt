-- ===== src/Device/Invariant.antt =====
-- What holds of every state that the simulator's methods reach: the maps are indexed by the IDs of
-- their entries, IDs are numbers handed out once, and contents go with documents.
pub mod Moves
use dpwire.Prelude.{
  ℕ, ◌+◌, ◌^◌, ◌<◌, ◌≡◌, refl, sym, ap, ◌∙◌, Bool, true, false, if◌then◌else◌, Option, none, some,
  [], Bytes, bytes_eq, bytes_eq_iff, Bool-cases, inl, inr, Result, arith, codes, length, has_prefix,
}
use dpwire.Prelude.Dict.{
  Dict, lookup, insert, erase, map_values, delete_where, lookup-insert, lookup-erase,
}
use dpwire.Prelude.Dict.Every.{
  Every, Every-lookup, Every-insert, Every-erase, Every-map_values, Every-delete_where, Every-imp,
}
use dpwire.Prelude.Dict.Keys.{
  UniqueKeys, insert-UniqueKeys, erase-UniqueKeys, map_values-UniqueKeys, delete_where-UniqueKeys,
}
use dpwire.Device.State.{Document, State, StateError, next_number, folder_id, doc_id}
use dpwire.Device.Creation.{
  store_document, empty_document, create_document, create_folder, add_folder, add_document,
}
use dpwire.Device.Changes.{is_none, upload_document, copy_document, copied_document}
use dpwire.Device.Deletion.{delete_document}
use dpwire.Device.Cases.{
  create_document-cases, create_folder-cases, upload_document-cases, copy_document-cases,
  delete_document-cases,
}

-- The entry stands under its own ID, which is the one of a number below `n`.
abbrev pub HasNumber : (ℕ → Bytes) → ℕ → Bytes → Document → Type 0
HasNumber id_of n k d = (m : ℕ) × (m < n) × (k ≡ id_of m) × (d.id ≡ k)

abbrev pub HasContent : Dict Document → Dict Bytes → Type 0
HasContent documents contents =
    (k : Bytes) → is_none (lookup k contents) ≡ is_none (lookup k documents)

pub record IsIndexed (s : State) : Type 0 where
  pub documents_numbered : Every (HasNumber doc_id s.next_id) s.documents
  pub folders_numbered : Every (HasNumber folder_id s.next_id) s.folders
  pub document_keys : UniqueKeys s.documents
  pub folder_keys : UniqueKeys s.folders
  pub with_content : HasContent s.documents s.contents

later :
    (id_of : ℕ → Bytes) (n n' : ℕ)
    → n < n'
    → (m : Dict Document) → Every (HasNumber id_of n) m
    → Every (HasNumber id_of n') m
later id_of n n' lt m = Every-imp m (λ k d h. (h.0, omega arith, h.2, h.3))

next_number-eq : (n : ℕ) → n + 1 < 2 ^ 64 → next_number n ≡ n + 1
next_number-eq n h = omega arith

bump-IsIndexed :
    (s : State)
    → s.next_id + 1 < 2 ^ 64
    → IsIndexed s
    → IsIndexed (record s { next_id = next_number s.next_id })
bump-IsIndexed s Room h = record {
  documents_numbered = later doc_id _ _ (omega arith) s.documents h.documents_numbered;
  folders_numbered = later folder_id _ _ (omega arith) s.folders h.folders_numbered;
  document_keys = h.document_keys;
  folder_keys = h.folder_keys;
  with_content = h.with_content;
}

insert-HasContent :
    (id : Bytes) (d : Document) (content : Bytes) (documents : Dict Document)
    (contents : Dict Bytes)
    → HasContent documents contents
    → HasContent (insert id d documents) (insert id content contents)
insert-HasContent id d content documents contents h k =
    ground (arith, lookup-insert id k d documents, lookup-insert id k content contents, h k)

erase-HasContent :
    (id : Bytes) (documents : Dict Document) (contents : Dict Bytes)
    → HasContent documents contents
    → HasContent (erase id documents) (erase id contents)
erase-HasContent id documents contents h k =
    ground (arith, lookup-erase id k documents, lookup-erase id k contents, h k)

store_document-IsIndexed :
    (id : Bytes) (d : Document) (content : Bytes) (s : State)
    → HasNumber doc_id s.next_id id d
    → IsIndexed s
    → IsIndexed (store_document id d content s)
store_document-IsIndexed id d content s n h = record {
  documents_numbered = Every-insert _ id d s.documents n h.documents_numbered;
  folders_numbered = h.folders_numbered;
  document_keys = insert-UniqueKeys id d s.documents h.document_keys;
  folder_keys = h.folder_keys;
  with_content = insert-HasContent id d content s.documents s.contents h.with_content;
}

abbrev Room : State → Type 0
Room s = s.next_id + 1 < 2 ^ 64

number_of_next : (s : State) → Room s → s.next_id < next_number s.next_id
number_of_next s h = omega arith

pub create_document-IsIndexed :
    (parent_id name now : Bytes) (s : State)
    → s.next_id + 1 < 2 ^ 64
    → IsIndexed s
    → IsIndexed (create_document parent_id name now s).1
create_document-IsIndexed parent_id name now s r h =
    create_document-cases (λ out. IsIndexed out.1) parent_id name now s h h
      λ parent_path e free.
        store_document-IsIndexed _ _ [] _
          (unfold empty_document in (s.next_id, number_of_next s r, refl, refl))
          (bump-IsIndexed s r h)

-- AddDocument does not look for another entry of the path.
pub add_document-IsIndexed :
    (sha256_hex : Bytes → Bytes) (path name parent content now : Bytes) (s : State)
    → s.next_id + 1 < 2 ^ 64
    → IsIndexed s
    → IsIndexed (add_document sha256_hex path name parent content now s).1
unfolding add_document
add_document-IsIndexed sha256_hex path name parent content now s r h =
    store_document-IsIndexed _ _ content (record s { next_id = next_number s.next_id })
      (s.next_id, number_of_next s r, refl, refl) (bump-IsIndexed s r h)

pub add_folder-IsIndexed :
    (path name parent now : Bytes) (s : State)
    → s.next_id + 1 < 2 ^ 64
    → IsIndexed s
    → IsIndexed (add_folder path name parent now s).1
unfolding add_folder
add_folder-IsIndexed path name parent now s r h =
    let b = bump-IsIndexed s r h in
    record {
      documents_numbered = b.documents_numbered;
      folders_numbered =
          Every-insert _ _ _ s.folders (s.next_id, number_of_next s r, refl, refl)
            b.folders_numbered;
      document_keys = b.document_keys;
      folder_keys = insert-UniqueKeys _ _ s.folders b.folder_keys;
      with_content = b.with_content;
    }

pub create_folder-IsIndexed :
    (parent_id name now : Bytes) (s : State)
    → s.next_id + 1 < 2 ^ 64
    → IsIndexed s
    → IsIndexed (create_folder parent_id name now s).1
create_folder-IsIndexed parent_id name now s r h =
    create_folder-cases (λ out. IsIndexed out.1) parent_id name now s h h
      λ parent_path e free. add_folder-IsIndexed _ name parent_id now s r h

pub upload_document-IsIndexed :
    (id content file_hash target now : Bytes) (s : State)
    → IsIndexed s
    → IsIndexed (upload_document id content file_hash target now s).1
upload_document-IsIndexed id content file_hash target now s h =
    upload_document-cases (λ out. IsIndexed out.1) id content file_hash target now s h h
      λ d e good.
        store_document-IsIndexed id _ content s
          (Every-lookup _ id d s.documents h.documents_numbered e) h

pub copy_document-IsIndexed :
    (id parent_id name now : Bytes) (s : State)
    → s.next_id + 1 < 2 ^ 64
    → IsIndexed s
    → IsIndexed (copy_document id parent_id name now s).1
copy_document-IsIndexed id parent_id name now s r h =
    copy_document-cases (λ out. IsIndexed out.1) id parent_id name now s h h h
      λ source parent_path e f free.
        store_document-IsIndexed _ _ _ _
          (unfold copied_document in (s.next_id, number_of_next s r, refl, refl))
          (bump-IsIndexed s r h)

pub delete_document-IsIndexed :
    (id target : Bytes) (s : State) → IsIndexed s → IsIndexed (delete_document id target s).1
delete_document-IsIndexed id target s h =
    delete_document-cases (λ out. IsIndexed out.1) id target s h h
      λ d e good. record {
        documents_numbered = Every-erase _ id s.documents h.documents_numbered;
        folders_numbered = h.folders_numbered;
        document_keys = erase-UniqueKeys id s.documents h.document_keys;
        folder_keys = h.folder_keys;
        with_content = erase-HasContent id s.documents s.contents h.with_content;
      }
