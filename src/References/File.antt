-- ===== src/References/File.antt =====
-- profiles/object_references.go: the contents of a reference file and its validation.
pub mod Validation
use dpwire.Prelude.{
  ℕ, ◌+◌, ◌-◌, ◌^◌, Bool, true, false, not, ◌&&◌, ◌||◌, List, [], ◌∷◌, Bytes, codes, bytes_eq, ltb,
  leb, ◌==◌, any, contains_any, if◌then◌else◌, Result, ok, err,
}
use dpwire.Decimal.{ℤ, pos, negsuc}
use dpwire.Unicode.{valid_string, contains_control}
use dpwire.EntryType.{EntryType, is_known}

pub record ObjectReference : Type 0 where
  pub number : ℕ
  pub hex : Bytes
  pub device_id : Bytes
  pub type : EntryType

pub record ReferenceRecord : Type 0 where
  pub number : ℕ
  pub device_id : Bytes
  pub type : EntryType

pub record ReferenceFile : Type 0 where
  pub schema_version : ℤ
  pub next : ℕ
  pub objects : List ReferenceRecord

abbrev pub empty_file : ReferenceFile
empty_file = record { schema_version = pos 1; next = 0; objects = [] }

abbrev is_schema : ℤ → Bool
is_schema (pos n) = n == 1
is_schema (negsuc n) = false

pub data ReferenceError : Type 0 where
  unsupported_schema invalid_device_id invalid_type invalid_sequence : ReferenceError
  duplicate_number duplicate_device_id invalid_entry exhausted : ReferenceError
  too_large undecodable not_replaced : ReferenceError
  bad_hex_length bad_hex_digit bad_number : ReferenceError

-- validObjectReferenceDeviceID
unfoldable pub valid_device_id : Bytes → Bool
valid_device_id value =
    not (
      bytes_eq value []
      || bytes_eq value (codes ".")
      || bytes_eq value (codes "..")
      || not (valid_string value)
      || contains_any value (codes "/\\"))
    && not (contains_control value)

-- The sets `numbers` and `ids` of the records seen so far.
pub record Seen : Type 0 where
  pub numbers : List ℕ
  pub ids : List Bytes

unfoldable pub check_record : ℕ → Seen → ReferenceRecord → Result ReferenceError Seen
check_record next seen r =
    if not (valid_device_id r.device_id)
    then err invalid_device_id
    else if not (is_known r.type)
    then err invalid_type
    else if leb next r.number
    then err invalid_sequence
    else if any (λ n. n == r.number) seen.numbers
    then err duplicate_number
    else if any (λ i. bytes_eq i r.device_id) seen.ids
    then err duplicate_device_id
    else ok (record { numbers = r.number ∷ seen.numbers; ids = r.device_id ∷ seen.ids })

check_records : ℕ → Seen → List ReferenceRecord → Result ReferenceError (Unit {0})
check_records next seen [] = ok tt
check_records next seen (r ∷ rs) = elim (check_record next seen r) [
  | ok more ↦ check_records next more rs
  | err e ↦ err e
]

-- validateObjectReferenceFile
unfoldable pub validate : ReferenceFile → Result ReferenceError (Unit {0})
unfolding check_records check_record
validate file =
    if not (is_schema file.schema_version)
    then err unsupported_schema
    else check_records file.next (record { numbers = []; ids = [] }) file.objects
