-- ===== src/Device/Guards.antt =====
-- What a client can rely on when it writes: revisions guard uploads and deletions, a failed call
-- changes nothing, and a folder goes only when it is empty or by force.
use dpwire.Prelude.{
  ℕ, ◌+◌, ◌<◌, ◌≡◌, ◌≢◌, refl, sym, ap, ◌∙◌, Bool, true, false, ◌||◌, none, some, [], Bytes,
  bytes_eq_iff, bytes_eq_refl, Result, ok, err, arith, length,
}
use dpwire.Prelude.Dict.{lookup, erase, lookup-insert, lookup-erase, any_entry, any_entry-lookup}
use dpwire.Decimal.{max_int64, format_nat, itoa, next_int64}
use dpwire.Decimal.RoundTrip.{atoi-format_nat, format_nat-injective, format_nat-ne-nil}
use dpwire.Device.State.{Document, State, StateError, conflict, document}
use dpwire.Device.Creation.{store_document}
use dpwire.Device.Changes.{next_revision, revision_conflicts, upload_document}
use dpwire.Device.Deletion.{delete_document, delete_folder, is_child_of}
use dpwire.Device.Cases.{upload_document-cases, delete_document-cases, delete_folder-cases}
use dpwire.Device.Paths.{find}

-- For `n` below the largest int64, the revision after the decimal text of `n` is the text of `n + 1`.
pub next_revision-format_nat :
    (n : ℕ) → n < max_int64 → next_revision (format_nat n) ≡ format_nat (n + 1)
unfolding next_revision itoa next_int64
next_revision-format_nat n h = rw (atoi-format_nat n (omega arith)) (ground arith)

-- A revision that is named has to be the current one.
revision_matches :
    (target : Bytes) (d : Document)
    → target ≢ []
    → revision_conflicts target d ≡ false
    → target ≡ d.revision
unfolding revision_conflicts
revision_matches target d h e =
    ground (arith, bytes_eq_iff target [], bytes_eq_iff target d.revision)

stale_conflicts :
    (target : Bytes) (d : Document)
    → target ≢ []
    → target ≢ d.revision
    → revision_conflicts target d ≡ true
unfolding revision_conflicts
stale_conflicts target d h e =
    ground (arith, bytes_eq_iff target [], bytes_eq_iff target d.revision)

upload_conflict :
    (id content file_hash target now : Bytes) (s : State) (d : Document)
    → lookup id s.documents ≡ some d
    → target ≢ []
    → target ≢ d.revision
    → upload_document id content file_hash target now s ≡ (err conflict, s)
unfolding upload_document
upload_conflict id content file_hash target now s d e named stale =
    rw (e, upload_document, stale_conflicts target d named stale)

current_accepted :
    (target : Bytes) (d : Document) → target ≡ d.revision → revision_conflicts target d ≡ false
unfolding revision_conflicts
current_accepted target d e = ground (arith, bytes_eq_iff target d.revision)

upload_written :
    (id content file_hash target now : Bytes) (s : State) (d : Document)
    → lookup id s.documents ≡ some d
    → target ≡ d.revision
    → (upload_document id content file_hash target now s).1
      ≡ store_document id
          (record d {
            revision = next_revision d.revision;
            size = format_nat (length content);
            file_hash = file_hash;
            modified = now;
          })
          content
          s
unfolding upload_document
upload_written id content file_hash target now s d e current =
    rw (e, upload_document, current_accepted target d current)

found_stored :
    (id : Bytes) (d : Document) (content : Bytes) (s : State)
    → lookup id (store_document id d content s).documents ≡ some d
found_stored id d content s = rw (lookup-insert, bytes_eq_refl id)

module _ (id : Bytes) (d : Document) (content : Bytes) (s : State) where
  document-store_self : document id (store_document id d content s) ≡ (some d, content)
  unfolding document
  document-store_self = ground (
    arith,
    bytes_eq_refl id,
    lookup-insert id id d s.documents,
    lookup-insert id id content s.contents,
  )

module _ (id k : Bytes) (d : Document) (content : Bytes) (s : State) (other : k ≢ id) where
  document-store_ne : document k (store_document id d content s) ≡ document k s
  unfolding document
  document-store_ne = ground (
    arith,
    bytes_eq_iff id k,
    lookup-insert id k d s.documents,
    lookup-insert id k content s.contents,
  )

abbrev without : Bytes → State → State
without id s = record s { documents = erase id s.documents; contents = erase id s.contents }

document-erase_self : (id : Bytes) (s : State) → document id (without id s) ≡ (none, [])
unfolding document
document-erase_self id s =
    ground (arith, bytes_eq_refl id, lookup-erase id id s.documents, lookup-erase id id s.contents)

document-erase_ne : (id k : Bytes) (s : State) → k ≢ id → document k (without id s) ≡ document k s
unfolding document
document-erase_ne id k s other =
    ground (arith, bytes_eq_iff id k, lookup-erase id k s.documents, lookup-erase id k s.contents)

-- What an upload makes of the document.
abbrev uploaded : Document → Bytes → Bytes → Bytes → Document
uploaded d content file_hash now = record d {
  revision = next_revision d.revision;
  size = format_nat (length content);
  file_hash = file_hash;
  modified = now;
}

abbrev pub Stored :
    Bytes → Bytes → Bytes → Bytes → State → Result StateError Document × State → Type 0
Stored id content file_hash now s (err e, t) = t ≡ s
Stored id content file_hash now s (ok d, t) =
    (document id t ≡ (some d, content))
    × ((before : Document) × ((lookup id s.documents ≡ some before)
          × (d ≡ uploaded before content file_hash now)))
    × ((k : Bytes) → k ≢ id → document k t ≡ document k s)
    × (t ≡ record s { documents = t.documents; contents = t.contents })

-- An upload that succeeds is read back whole. The document is the one that was there before, with the
-- next revision, the size of the content, the hash and the time of the call, and nothing else of it has
-- changed; no other document has changed, and neither has any part of the state beside the documents and
-- their contents. An upload that fails has changed nothing.
pub upload-Stored :
    (id content file_hash target now : Bytes) (s : State)
    → Stored id content file_hash now s (upload_document id content file_hash target now s)
upload-Stored id content file_hash target now s =
    upload_document-cases (Stored id content file_hash now s) id content file_hash target now s refl
      refl
      λ d e good. (
        document-store_self id _ content s,
        (d, (e, refl)),
        (λ k other. document-store_ne id k _ content s other),
        refl,
      )

next_revision_ne : (n : ℕ) → n < max_int64 → format_nat n ≢ next_revision (format_nat n)
next_revision_ne n h e =
    absurd (omega (arith, format_nat-injective n (n + 1) (e ∙ next_revision-format_nat n h)))

-- Of two uploads that name one revision at most one is written: after the first has succeeded, the
-- second is refused as a conflict and changes nothing. The revision is the
-- decimal text of `n`, and `n` is below the largest int64.
pub upload_twice :
    (id first second hash1 hash2 now1 now2 : Bytes) (n : ℕ) (s : State) (d : Document)
    → lookup id s.documents ≡ some d
    → d.revision ≡ format_nat n
    → n < max_int64
    → let t = (upload_document id first hash1 (format_nat n) now1 s).1 in
      upload_document id second hash2 (format_nat n) now2 t ≡ (err conflict, t)
upload_twice id first second hash1 hash2 now1 now2 n s d e current h =
    let written = upload_written id first hash1 (format_nat n) now1 s d e (sym current) in
    rw written (
      upload_conflict id second hash2 (format_nat n) now2 _ _ (found_stored id _ first s)
        (format_nat-ne-nil n) (λ same. next_revision_ne n h (same ∙ ap next_revision current)))

abbrev pub Guarded : Bytes → Bytes → State → Result StateError (Unit {0}) × State → Type 0
Guarded id target s (err e, t) = t ≡ s
Guarded id target s (ok u, t) =
    ((d : Document) → lookup id s.documents ≡ some d → target ≢ [] → target ≡ d.revision)
    × (document id t ≡ (none, []))
    × ((k : Bytes) → k ≢ id → document k t ≡ document k s)
    × (t.folders ≡ s.folders)

-- A deletion that succeeds was asked for with the current revision, or with none; the document and
-- its content are gone, and no other entry has changed. One that fails has changed nothing.
pub delete_document-Guarded :
    (id target : Bytes) (s : State) → Guarded id target s (delete_document id target s)
delete_document-Guarded id target s =
    delete_document-cases (Guarded id target s) id target s refl refl λ d e good. (
      (λ d' e' named. revision_matches target d' named (ground arith)),
      document-erase_self id s,
      (λ k other. document-erase_ne id k s other),
      refl,
    )

abbrev pub NoChild : Bytes → State → Type 0
NoChild id s = (f : Bool) (k : Bytes) (d : Document) → find s f k ≡ some d → d.parent_id ≢ id

abbrev pub EmptyOnly : Bytes → State → Result StateError (Unit {0}) × State → Type 0
EmptyOnly id s (err e, t) = t ≡ record s { last_folder_delete_force = some false }
EmptyOnly id s (ok u, t) =
    NoChild id s
    × (t ≡ record s { folders = erase id s.folders; last_folder_delete_force = some false })

childless :
    (id : Bytes) (s : State)
    → (any_entry (is_child_of id) s.folders || any_entry (is_child_of id) s.documents) ≡ false
    → NoChild id s
childless id s idle true k d e =
    ground (arith, bytes_eq_iff d.parent_id id, any_entry-lookup (is_child_of id) k d s.folders)
childless id s idle false k d e =
    ground (arith, bytes_eq_iff d.parent_id id, any_entry-lookup (is_child_of id) k d s.documents)

-- Without force a folder is deleted only if no folder and no document names it as its parent, and
-- then it is all that goes. A refused deletion leaves only the recorded flag.
pub delete_folder-EmptyOnly : (id : Bytes) (s : State) → EmptyOnly id s (delete_folder id false s)
delete_folder-EmptyOnly id s =
    delete_folder-cases (EmptyOnly id s) id false s refl (λ busy. refl)
      λ folder e idle. (childless id s idle, refl)
