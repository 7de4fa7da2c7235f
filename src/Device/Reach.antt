-- ===== src/Device/Reach.antt =====
-- The states that the methods of dptest/state.go reach from an empty device.
use dpwire.Prelude.{
  ◌+◌, ◌^◌, ◌<◌, refl, Bool, Bytes, Option, none, some, [], bytes_eq, Bool-cases, inl, inr,
}
use dpwire.Prelude.Dict.{lookup, erase}
use dpwire.Device.State.{State, Fault, PublicKey, new_state}
use dpwire.Device.Creation.{add_document, add_folder, create_document, create_folder}
use dpwire.Device.Changes.{upload_document, copy_document, update_entry}
use dpwire.Device.Deletion.{delete_document, delete_folder}
use dpwire.Device.Sessions.{
  set_nonce, take_nonce, add_session, take_fault, use_fault, register_client,
  require_authentication, reject_upload_file_hash, inject_fault,
}
use dpwire.Device.Invariant.{
  IsIndexed, add_document-IsIndexed, add_folder-IsIndexed, create_document-IsIndexed,
  create_folder-IsIndexed, upload_document-IsIndexed, copy_document-IsIndexed,
  delete_document-IsIndexed,
}
use dpwire.Device.Invariant.Moves.{update_entry-IsIndexed, delete_folder-IsIndexed}

-- One call of a method that changes the state, by the HTTP handler or by a test that sets up the device.
-- A call that hands out a number has one left.
pub data Step (s : State) : State → Type 0 where
  make_document :
      (parent_id name now : Bytes)
      → s.next_id + 1 < 2 ^ 64
      → Step s (create_document parent_id name now s).1
  make_folder :
      (parent_id name now : Bytes)
      → s.next_id + 1 < 2 ^ 64
      → Step s (create_folder parent_id name now s).1
  upload :
      (id content file_hash target now : Bytes)
      → Step s (upload_document id content file_hash target now s).1
  copy :
      (id parent_id name now : Bytes)
      → s.next_id + 1 < 2 ^ 64
      → Step s (copy_document id parent_id name now s).1
  update :
      (id parent_id name : Bytes) (folder : Bool)
      → Step s (update_entry id parent_id name folder s).1
  drop_document : (id target : Bytes) → Step s (delete_document id target s).1
  drop_folder : (id : Bytes) (force : Bool) → Step s (delete_folder id force s).1
  nonce_set : (client nonce : Bytes) → Step s (set_nonce client nonce s)
  nonce_taken : (client : Bytes) → Step s (take_nonce client s).1
  session : (token : Bytes) → Step s (add_session token s)
  fault_taken :
      (path_match : Bytes → Bytes → Bool) (key : Bytes) → Step s (take_fault path_match key s).1
  added_document :
      (sha256_hex : Bytes → Bytes) (path name parent content now : Bytes)
      → s.next_id + 1 < 2 ^ 64
      → Step s (add_document sha256_hex path name parent content now s).1
  added_folder :
      (path name parent now : Bytes)
      → s.next_id + 1 < 2 ^ 64
      → Step s (add_folder path name parent now s).1
  client_registered : (id : Bytes) (key : Option PublicKey) → Step s (register_client id key s)
  authentication : (required : Bool) → Step s (require_authentication required s)
  hash_rejection : (reject : Bool) → Step s (reject_upload_file_hash reject s)
  fault_injected : (key : Bytes) (fault : Fault) → Step s (inject_fault key fault s)

pub data Reach (s : State) : State → Type 0 where
  here : Reach s s
  next : {t u : State} → Reach s t → Step t u → Reach s u

-- Sessions, nonces, clients, switches and faults are apart from the entries.
nonces-IsIndexed :
    (client nonce : Bytes) (s : State) → IsIndexed s → IsIndexed (set_nonce client nonce s)
unfolding set_nonce
nonces-IsIndexed client nonce s h = record {
  documents_numbered = h.documents_numbered;
  folders_numbered = h.folders_numbered;
  document_keys = h.document_keys;
  folder_keys = h.folder_keys;
  with_content = h.with_content;
}

taken-IsIndexed : (client : Bytes) (s : State) → IsIndexed s → IsIndexed (take_nonce client s).1
unfolding take_nonce
taken-IsIndexed client s h = record {
  documents_numbered = h.documents_numbered;
  folders_numbered = h.folders_numbered;
  document_keys = h.document_keys;
  folder_keys = h.folder_keys;
  with_content = h.with_content;
}

session-IsIndexed : (token : Bytes) (s : State) → IsIndexed s → IsIndexed (add_session token s)
unfolding add_session
session-IsIndexed token s h = record {
  documents_numbered = h.documents_numbered;
  folders_numbered = h.folders_numbered;
  document_keys = h.document_keys;
  folder_keys = h.folder_keys;
  with_content = h.with_content;
}

without_fault-IsIndexed :
    (key : Bytes) (s : State) → IsIndexed s → IsIndexed (record s { faults = erase key s.faults })
without_fault-IsIndexed key s h = record {
  documents_numbered = h.documents_numbered;
  folders_numbered = h.folders_numbered;
  document_keys = h.document_keys;
  folder_keys = h.folder_keys;
  with_content = h.with_content;
}

used_fault-IsIndexed :
    (found : Option (Bytes × Fault)) (s : State) → IsIndexed s → IsIndexed (use_fault found s).1
unfolding use_fault
used_fault-IsIndexed none s h = h
used_fault-IsIndexed (some (matched, fault)) s h = elim (Bool-cases fault.once) [
  | inl once ↦ rw once (without_fault-IsIndexed matched s h)
  | inr again ↦ rw again h
]

taken_fault-IsIndexed :
    (path_match : Bytes → Bytes → Bool) (key : Bytes) (s : State)
    → IsIndexed s
    → IsIndexed (take_fault path_match key s).1
unfolding take_fault
taken_fault-IsIndexed path_match key s h = used_fault-IsIndexed _ s h

client-IsIndexed :
    (id : Bytes) (key : Option PublicKey) (s : State)
    → IsIndexed s
    → IsIndexed (register_client id key s)
unfolding register_client
client-IsIndexed id none s h = h
client-IsIndexed id (some key) s h = elim (Bool-cases (bytes_eq id [])) [
  | inl e ↦ rw (e, register_client) h
  | inr e ↦
      rw (e, register_client)
        (record {
          documents_numbered = h.documents_numbered;
          folders_numbered = h.folders_numbered;
          document_keys = h.document_keys;
          folder_keys = h.folder_keys;
          with_content = h.with_content;
        })
]

authentication-IsIndexed :
    (required : Bool) (s : State) → IsIndexed s → IsIndexed (require_authentication required s)
unfolding require_authentication
authentication-IsIndexed required s h = record {
  documents_numbered = h.documents_numbered;
  folders_numbered = h.folders_numbered;
  document_keys = h.document_keys;
  folder_keys = h.folder_keys;
  with_content = h.with_content;
}

hash_rejection-IsIndexed :
    (reject : Bool) (s : State) → IsIndexed s → IsIndexed (reject_upload_file_hash reject s)
unfolding reject_upload_file_hash
hash_rejection-IsIndexed reject s h = record {
  documents_numbered = h.documents_numbered;
  folders_numbered = h.folders_numbered;
  document_keys = h.document_keys;
  folder_keys = h.folder_keys;
  with_content = h.with_content;
}

injected-IsIndexed :
    (key : Bytes) (fault : Fault) (s : State) → IsIndexed s → IsIndexed (inject_fault key fault s)
unfolding inject_fault
injected-IsIndexed key fault s h = record {
  documents_numbered = h.documents_numbered;
  folders_numbered = h.folders_numbered;
  document_keys = h.document_keys;
  folder_keys = h.folder_keys;
  with_content = h.with_content;
}

Step-IsIndexed : {s t : State} → Step s t → IsIndexed s → IsIndexed t
Step-IsIndexed {s} (make_document p n w r) h = create_document-IsIndexed p n w s r h
Step-IsIndexed {s} (make_folder p n w r) h = create_folder-IsIndexed p n w s r h
Step-IsIndexed {s} (upload i c f t w) h = upload_document-IsIndexed i c f t w s h
Step-IsIndexed {s} (copy i p n w r) h = copy_document-IsIndexed i p n w s r h
Step-IsIndexed {s} (update i p n f) h = update_entry-IsIndexed i p n f s h
Step-IsIndexed {s} (drop_document i t) h = delete_document-IsIndexed i t s h
Step-IsIndexed {s} (drop_folder i f) h = delete_folder-IsIndexed i f s h
Step-IsIndexed {s} (nonce_set c n) h = nonces-IsIndexed c n s h
Step-IsIndexed {s} (nonce_taken c) h = taken-IsIndexed c s h
Step-IsIndexed {s} (session t) h = session-IsIndexed t s h
Step-IsIndexed {s} (fault_taken m k) h = taken_fault-IsIndexed m k s h
Step-IsIndexed {s} (added_document x p n i c w r) h = add_document-IsIndexed x p n i c w s r h
Step-IsIndexed {s} (added_folder p n i w r) h = add_folder-IsIndexed p n i w s r h
Step-IsIndexed {s} (client_registered i k) h = client-IsIndexed i k s h
Step-IsIndexed {s} (authentication r) h = authentication-IsIndexed r s h
Step-IsIndexed {s} (hash_rejection r) h = hash_rejection-IsIndexed r s h
Step-IsIndexed {s} (fault_injected k f) h = injected-IsIndexed k f s h

IsIndexed-new_state : (model firmware : Bytes) → IsIndexed (new_state model firmware)
unfolding new_state lookup
IsIndexed-new_state model firmware = record {
  documents_numbered = tt;
  folders_numbered = tt;
  document_keys = tt;
  folder_keys = tt;
  with_content = λ k. refl;
}

-- Whatever requests the simulator serves and however a test sets it up, as long as the 2^64 numbers last: every entry stands under its own ID, the
-- ID is that of a number handed out, documents and folders have one entry for each ID, and exactly
-- the documents have content.
pub Reach-IsIndexed :
    (model firmware : Bytes) {t : State} → Reach (new_state model firmware) t → IsIndexed t
Reach-IsIndexed model firmware here = IsIndexed-new_state model firmware
Reach-IsIndexed model firmware (next r st) = Step-IsIndexed st (Reach-IsIndexed model firmware r)
