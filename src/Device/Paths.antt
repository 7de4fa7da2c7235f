-- ===== src/Device/Paths.antt =====
-- No two entries of the simulator have one path.
use dpwire.Prelude.{
  ℕ, ◌≡◌, ◌≢◌, refl, sym, ap, ◌∙◌, Bool, true, false, not, ◌&&◌, if◌then◌else◌, Option, some, [],
  ◌∷◌, Bytes, bytes_eq, bytes_eq_iff, Bool-cases, inl, inr, arith,
}
use dpwire.Prelude.Dict.{lookup, erase, lookup-insert, lookup-erase, any_entry-lookup}
use dpwire.Prelude.Dict.Every.{Every-lookup}
use dpwire.Device.State.{
  Document, State, or_empty, doc_id, folder_id, occupies, path_exists, path_exists_except,
}
use dpwire.Device.Creation.{
  create_document, create_folder, store_document, empty_document, add_folder,
}
use dpwire.Device.Changes.{
  collection, upload_document, copy_document, copied_document, update_entry, put_entry,
}
use dpwire.Device.Deletion.{delete_document}
use dpwire.Device.Cases.{
  create_document-cases, create_folder-cases, upload_document-cases, copy_document-cases,
  update_entry-cases, delete_document-cases,
}
use dpwire.Device.Invariant.{IsIndexed}

-- The entry of a kind (`true` for folders) under an ID.
abbrev pub find : State → Bool → Bytes → Option Document
find s folder id = lookup id (collection folder s)

abbrev pub Unique : (Bool → Bytes → Option Document) → Type 0
Unique at =
    (f g : Bool) (j k : Bytes) (d e : Document)
    → at f j ≡ some d
    → at g k ≡ some e
    → d.path ≡ e.path
    → (f ≡ g) × (j ≡ k)

abbrev pub HasUniquePaths : State → Type 0
HasUniquePaths s = Unique (find s)

abbrev bool_eq : Bool → Bool → Bool
bool_eq true b = b
bool_eq false b = not b

-- `at` after one entry is written.
abbrev written :
    Bool → Bytes → Document → (Bool → Bytes → Option Document) → Bool → Bytes → Option Document
written kind id d at f k = if bool_eq kind f && bytes_eq id k then some d else at f k

written-Unique :
    (at at' : Bool → Bytes → Option Document) (kind : Bool) (id : Bytes) (d : Document)
    → ((f : Bool) (k : Bytes) → at' f k ≡ written kind id d at f k)
    → ((f : Bool) (k : Bytes) (e : Document)
        → at f k ≡ some e
        → e.path ≡ d.path
        → (kind ≡ f) × (id ≡ k))
    → Unique at
    → Unique at'
written-Unique at at' kind id d reads only u f g j k a b x y same = ground (
  arith,
  reads f j,
  reads g k,
  bytes_eq_iff id j,
  bytes_eq_iff id k,
  only f j a,
  only g k b,
  u f g j k a b,
)

sub-Unique :
    (at at' : Bool → Bytes → Option Document)
    → ((f : Bool) (k : Bytes) (d : Document) → at' f k ≡ some d → at f k ≡ some d)
    → Unique at
    → Unique at'
sub-Unique at at' keeps u f g j k a b x y same = u f g j k a b (keeps f j a x) (keeps g k b y) same

-- A free path: an entry that has it stands under the excepted ID.
free_path :
    (path except_id : Bytes) (s : State)
    → path_exists_except path except_id s ≡ false
    → (f : Bool) (k : Bytes) (e : Document) → find s f k ≡ some e
    → e.path ≡ path
    → k ≡ except_id
unfolding path_exists_except
free_path path except_id s free true k e at same = ground (
  arith,
  bytes_eq_iff k except_id,
  bytes_eq_iff e.path path,
  any_entry-lookup (occupies path except_id) k e s.folders,
)
free_path path except_id s free false k e at same = ground (
  arith,
  bytes_eq_iff k except_id,
  bytes_eq_iff e.path path,
  any_entry-lookup (occupies path except_id) k e s.documents,
)

-- An ID is never empty.
id-ne-nil :
    (s : State) → IsIndexed s → (f : Bool) (k : Bytes) (e : Document) → find s f k ≡ some e → k ≢ []
id-ne-nil s h true k e at empty = cc (empty, (Every-lookup _ k e s.folders h.folders_numbered at).2)
id-ne-nil s h false k e at empty =
    cc (empty, (Every-lookup _ k e s.documents h.documents_numbered at).2)

absent_path :
    (path : Bytes) (s : State)
    → IsIndexed s
    → path_exists path s ≡ false
    → (f : Bool) (k : Bytes) (e : Document) → find s f k ≡ some e
    → e.path ≢ path
unfolding path_exists
absent_path path s h free f k e at same =
    id-ne-nil s h f k e at (free_path path [] s free f k e at same)

find-store_document :
    (id : Bytes) (d : Document) (content : Bytes) (s : State) (f : Bool) (k : Bytes)
    → find (store_document id d content s) f k ≡ written false id d (find s) f k
find-store_document id d content s true k = refl
find-store_document id d content s false k = lookup-insert id k d s.documents

store_new-Unique :
    (id : Bytes) (d : Document) (content : Bytes) (s : State)
    → IsIndexed s
    → path_exists d.path s ≡ false
    → HasUniquePaths s
    → HasUniquePaths (store_document id d content s)
store_new-Unique id d content s h free u =
    written-Unique (find s) _ false id d (find-store_document id d content s)
      (λ f k e at same. absurd (absent_path d.path s h free f k e at same)) u

-- Creating a document keeps the paths apart: if no two entries of a well-formed state have one path, then
-- none have one after the call, whether it succeeds or fails.
pub create_document-HasUniquePaths :
    (parent_id name now : Bytes) (s : State)
    → IsIndexed s
    → HasUniquePaths s
    → HasUniquePaths (create_document parent_id name now s).1
create_document-HasUniquePaths parent_id name now s h u =
    create_document-cases (λ out. HasUniquePaths out.1) parent_id name now s u u
      λ parent_path e free. unfold empty_document in store_new-Unique _ _ [] s h free u

find-add_folder :
    (path name parent now : Bytes) (s : State) (f : Bool) (k : Bytes)
    → let made = add_folder path name parent now s in
      find made.1 f k ≡ written true made.0.id made.0 (find s) f k
unfolding add_folder
find-add_folder path name parent now s true k = lookup-insert _ k _ s.folders
find-add_folder path name parent now s false k = refl

-- Creating a folder keeps the paths apart: if no two entries of a well-formed state have one path, then
-- none have one after the call, whether it succeeds or fails.
pub create_folder-HasUniquePaths :
    (parent_id name now : Bytes) (s : State)
    → IsIndexed s
    → HasUniquePaths s
    → HasUniquePaths (create_folder parent_id name now s).1
create_folder-HasUniquePaths parent_id name now s h u =
    create_folder-cases (λ out. HasUniquePaths out.1) parent_id name now s u u
      λ parent_path e free.
        written-Unique (find s) _ true _ _ (find-add_folder _ name parent_id now s)
          (unfold add_folder in λ f k x at same. absurd (absent_path _ s h free f k x at same)) u

-- Copying a document keeps the paths apart: if no two entries of a well-formed state have one path, then
-- none have one after the call, whether it succeeds or fails.
pub copy_document-HasUniquePaths :
    (id parent_id name now : Bytes) (s : State)
    → IsIndexed s
    → HasUniquePaths s
    → HasUniquePaths (copy_document id parent_id name now s).1
unfolding copied_document
copy_document-HasUniquePaths id parent_id name now s h u =
    copy_document-cases (λ out. HasUniquePaths out.1) id parent_id name now s u u u
      λ source parent_path e f free.
        store_new-Unique _ _ (or_empty (lookup id s.contents)) s h free u

-- An entry that is written again under its path.
pub upload_document-HasUniquePaths :
    (id content file_hash target now : Bytes) (s : State)
    → HasUniquePaths s
    → HasUniquePaths (upload_document id content file_hash target now s).1
upload_document-HasUniquePaths id content file_hash target now s u =
    upload_document-cases (λ out. HasUniquePaths out.1) id content file_hash target now s u u
      λ d e good.
        written-Unique (find s) _ false id _ (find-store_document id _ content s)
          (λ f k x at same. u false f id k d x e at (sym same)) u

abbrev first_byte : Bytes → ℕ
first_byte [] = 0
first_byte (c ∷ cs) = c

folder_id-ne-doc_id : (m n : ℕ) → folder_id m ≢ doc_id n
folder_id-ne-doc_id m n e = omega (arith, ap first_byte e)

put_document-Unique :
    (id : Bytes) (old new : Document) (s : State)
    → find s false id ≡ some old
    → (not (bytes_eq new.path old.path) && path_exists_except new.path id s) ≡ false
    → IsIndexed s
    → HasUniquePaths s
    → HasUniquePaths (put_entry false id new s)
put_document-Unique id old new s e free h u =
    written-Unique (find s) _ false id new
      (λ f k.
        elim f as (λ f. find (put_entry false id new s) f k ≡ written false id new (find s) f k) [
          | true ↦ refl
          | false ↦ lookup-insert id k new s.documents
        ])
      only u
  where
    only :
        (f : Bool) (k : Bytes) (x : Document)
        → find s f k ≡ some x
        → x.path ≡ new.path
        → (false ≡ f) × (id ≡ k)
    only f k x at same = elim (Bool-cases (bytes_eq new.path old.path)) [
      | inl kept_path ↦ u false f id k old x e at (cc ((bytes_eq_iff _ _).0 kept_path, same))
      | inr changed ↦
          let there : k ≡ id = free_path new.path id s (rw changed at free) f k x at same in
          (kinds f k x at there, sym there)
    ]
      where
        kinds : (f : Bool) (k : Bytes) (x : Document) → find s f k ≡ some x → k ≡ id → false ≡ f
        kinds false k x at there = refl
        kinds true k x at there =
            let a = Every-lookup _ k x s.folders h.folders_numbered at in
            let b = Every-lookup _ id old s.documents h.documents_numbered e in
            absurd (folder_id-ne-doc_id a.0 b.0 (sym a.2 ∙ there ∙ b.2))

-- Moving or renaming a document keeps the paths apart: if no two entries of a well-formed state have one path, then
-- none have one after the call, whether it succeeds or fails.
pub update_document-HasUniquePaths :
    (id parent_id name : Bytes) (s : State)
    → IsIndexed s
    → HasUniquePaths s
    → HasUniquePaths (update_entry id parent_id name false s).1
update_document-HasUniquePaths id parent_id name s h u =
    update_entry-cases (λ out. HasUniquePaths out.1) id parent_id name false s u u u
      λ entry e there free. put_document-Unique id entry _ s e free h u

pub delete_document-HasUniquePaths :
    (id target : Bytes) (s : State)
    → HasUniquePaths s
    → HasUniquePaths (delete_document id target s).1
delete_document-HasUniquePaths id target s u =
    delete_document-cases (λ out. HasUniquePaths out.1) id target s u u
      λ d e good.
        sub-Unique (find s) _
          (λ f.
            elim f
              as (λ f.
                (k : Bytes) (x : Document)
                → find
                    (record s { documents = erase id s.documents; contents = erase id s.contents })
                    f k
                  ≡ some x
                → find s f k ≡ some x) [
                  | true ↦ λ k x at. at
                  | false ↦ λ k x at. ground (arith, lookup-erase id k s.documents)
                ])
          u
