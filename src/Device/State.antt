-- ===== src/Device/State.antt =====
-- dptest/state.go: the data of the simulator and its read-only methods. Every method of the Go code
-- holds the lock for its whole body, so each is one step on the state.
use dpwire.Prelude.{
  ℕ, ◌+◌, ◌%◌, ◌^◌, Bool, true, false, not, ◌&&◌, ◌||◌, Option, none, some, List, [], ◌∷◌, ◌++◌,
  Bytes, codes, bytes_eq, ltb, ◌==◌, if◌then◌else◌,
}
use dpwire.Prelude.Dict.{Dict, lookup, any_entry}
use dpwire.Decimal.{format_padded}

pub record Document : Type 0 where
  pub id : Bytes
  pub name : Bytes
  pub path : Bytes
  pub type : Bytes
  pub created : Bytes
  pub modified : Bytes
  pub mime_type : Bytes
  pub size : Bytes
  pub document_type : Bytes
  pub parent_id : Bytes
  pub is_new : Bytes
  pub source : Bytes
  pub external_id : Bytes
  pub file_hash : Bytes
  pub revision : Bytes

abbrev pub zero_document : Document
zero_document = record {
  id = [];
  name = [];
  path = [];
  type = [];
  created = [];
  modified = [];
  mime_type = [];
  size = [];
  document_type = [];
  parent_id = [];
  is_new = [];
  source = [];
  external_id = [];
  file_hash = [];
  revision = [];
}

pub record Fault : Type 0 where
  pub status : ℕ
  pub body : Bytes
  pub once : Bool

-- rsa.PublicKey
pub record PublicKey : Type 0 where
  pub modulus : ℕ
  pub exponent : ℕ

pub record State : Type 0 where
  pub model : Bytes
  pub firmware : Bytes
  pub next_id : ℕ
  pub documents : Dict Document
  pub folders : Dict Document
  pub contents : Dict Bytes
  pub faults : Dict Fault
  pub clients : Dict PublicKey
  pub nonces : Dict Bytes
  pub sessions : Dict Bool
  pub require_auth : Bool
  pub reject_hash : Bool
  pub last_folder_delete_force : Option Bool

unfoldable pub new_state : Bytes → Bytes → State
new_state model firmware = record {
  model = model;
  firmware = firmware;
  next_id = 1;
  documents = [];
  folders = [];
  contents = [];
  faults = [];
  clients = [];
  nonces = [];
  sessions = [];
  require_auth = false;
  reject_hash = false;
  last_folder_delete_force = none;
}

-- The texts of the errors that the methods return.
pub data StateError : Type 0 where
  parent_not_found duplicate not_found conflict not_empty : StateError

-- `nextID` is a uint64.
abbrev pub next_number : ℕ → ℕ
next_number n = (n + 1) % 2 ^ 64

abbrev pub folder_id : ℕ → Bytes
folder_id n = codes "folder-" ++ format_padded n

abbrev pub doc_id : ℕ → Bytes
doc_id n = codes "doc-" ++ format_padded n

abbrev pub or_empty : Option Bytes → Bytes
or_empty none = []
or_empty (some b) = b

unfoldable pub root_document : Document
root_document = record zero_document {
  id = codes "root";
  name = codes ".";
  path = codes "Document";
  type = codes "folder";
  external_id = codes "root";
}

abbrev path_of : Option Document → Option Bytes
path_of none = none
path_of (some folder) = some folder.path

-- folderPathLocked
unfoldable pub folder_path : Bytes → State → Option Bytes
folder_path id s =
    if bytes_eq id (codes "root") then some (codes "Document") else path_of (lookup id s.folders)

abbrev pub occupies : Bytes → Bytes → Bytes → Document → Bool
occupies path except_id id entry = not (bytes_eq id except_id) && bytes_eq entry.path path

-- pathExistsExceptLocked
unfoldable pub path_exists_except : Bytes → Bytes → State → Bool
path_exists_except path except_id s =
    any_entry (occupies path except_id) s.documents || any_entry (occupies path except_id) s.folders

-- pathExistsLocked
unfoldable pub path_exists : Bytes → State → Bool
unfolding path_exists_except
path_exists path s = path_exists_except path [] s

-- The document, its content (empty for an unknown ID) and whether it is there.
unfoldable pub document : Bytes → State → Option Document × Bytes
document id s = (lookup id s.documents, or_empty (lookup id s.contents))

abbrev or_else : Option Document → Option Document → Option Document
or_else (some d) other = some d
or_else none other = other

unfoldable pub entry : Bytes → State → Option Document
entry id s =
    if bytes_eq id (codes "root")
    then some root_document
    else or_else (lookup id s.documents) (lookup id s.folders)

-- `a < b` on strings.
unfoldable pub bytes_lt : Bytes → Bytes → Bool
bytes_lt [] [] = false
bytes_lt [] (b ∷ bs) = true
bytes_lt (a ∷ r) [] = false
bytes_lt (a ∷ r) (b ∷ bs) = ltb a b || ((a == b) && bytes_lt r bs)

-- `sort.Slice` by path. Go's order among equal paths is unspecified; here it is that of the list.
insert_by_path : Document → List Document → List Document
insert_by_path d [] = d ∷ []
insert_by_path d (e ∷ es) = if bytes_lt e.path d.path then e ∷ insert_by_path d es else d ∷ e ∷ es

unfoldable pub sort_by_path : List Document → List Document
unfolding insert_by_path
sort_by_path [] = []
sort_by_path (d ∷ ds) = insert_by_path d (sort_by_path ds)

unfoldable pub values : Dict Document → List Document
values [] = []
values ((k, d) ∷ m) = d ∷ values m

unfoldable pub documents_sorted : State → List Document
unfolding sort_by_path
documents_sorted s = sort_by_path (values s.documents)

abbrev children_in : Bytes → List Document → List Document
children_in parent_id [] = []
children_in parent_id (d ∷ ds) =
    let rest = children_in parent_id ds in if bytes_eq d.parent_id parent_id then d ∷ rest else rest

unfoldable pub folder_entries : Bytes → State → List Document
unfolding documents_sorted
folder_entries parent_id s =
    sort_by_path
      (children_in parent_id (values s.folders) ++ children_in parent_id (documents_sorted s))

abbrev matching_path : (Bytes → Bytes → Bool) → Bytes → List Document → Option Document
matching_path equal_fold path [] = none
matching_path equal_fold path (d ∷ ds) =
    let rest = matching_path equal_fold path ds in if equal_fold d.path path then some d else rest

-- documentByPath; `equal_fold` is `strings.EqualFold`. Of several matches Go returns any one, as it
-- ranges over a map; here it is the first of the list.
unfoldable pub document_by_path : (Bytes → Bytes → Bool) → Bytes → State → Option Document
document_by_path equal_fold path s =
    if equal_fold path (codes "Document")
    then some root_document
    else or_else (matching_path equal_fold path (values s.documents))
        (matching_path equal_fold path (values s.folders))
