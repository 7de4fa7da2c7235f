-- ===== src/References/Assign.antt =====
-- profiles/object_references.go: the loop of Assign, which gives numbers to new objects.
pub mod Numbers
pub mod Extends
pub mod Untouched
use dpwire.Prelude.{
  ℕ, zero, suc, ◌+◌, ◌-◌, ◌^◌, Bool, true, false, not, ◌&&◌, ◌||◌, Option, none, some, List, [],
  ◌∷◌, ◌++◌, Bytes, codes, bytes_eq, ltb, leb, ◌==◌, length, if◌then◌else◌, Result, ok, err,
}
use dpwire.Prelude.Dict.{Dict, lookup, insert}
use dpwire.Decimal.{max_uint64}
use dpwire.EntryType.{EntryType, is_known}
use dpwire.References.File.{
  ReferenceRecord, ReferenceFile, ReferenceError, invalid_entry, exhausted, valid_device_id,
}

-- The part of an Entry that Assign reads.
pub record Object : Type 0 where
  pub id : Bytes
  pub type : EntryType

-- The variables of the loop. `by_id` gives the index of an object's record.
pub record Work : Type 0 where
  pub by_id : Dict ℕ
  pub state : ReferenceFile
  pub changed : Bool

-- `for index := range state.Objects { byID[state.Objects[index].DeviceID] = index }`
index_from : ℕ → List ReferenceRecord → Dict ℕ → Dict ℕ
index_from i [] m = m
index_from i (r ∷ rs) m = index_from (i + 1) rs (insert r.device_id i m)

unfoldable pub start : ReferenceFile → Work
unfolding index_from
start file = record { by_id = index_from 0 file.objects []; state = file; changed = false }

abbrev pub record_at : List ReferenceRecord → ℕ → Option ReferenceRecord
record_at [] i = none
record_at (r ∷ rs) zero = some r
record_at (r ∷ rs) (suc i) = record_at rs i

-- `state.Objects[i].Type = t`
abbrev pub set_type : List ReferenceRecord → ℕ → EntryType → List ReferenceRecord
set_type [] i t = []
set_type (r ∷ rs) zero t = record r { type = t } ∷ rs
set_type (r ∷ rs) (suc i) t = r ∷ set_type rs i t

abbrev type_differs : Option ReferenceRecord → EntryType → Bool
type_differs none t = false
type_differs (some r) t = not (bytes_eq r.type t)

unfoldable pub retype : ℕ → Object → Work → Work
retype index o w =
    if type_differs (record_at w.state.objects index) o.type
    then record w {
      state = record w.state { objects = set_type w.state.objects index o.type };
      changed = true;
    }
    else w

unfoldable pub append_object : Object → Work → Work
append_object o w =
    let objects =
      w.state.objects ++ record { number = w.state.next; device_id = o.id; type = o.type } ∷ [] in
    record {
      by_id = insert o.id (length w.state.objects) w.by_id;
      state = record w.state { next = w.state.next + 1; objects = objects };
      changed = true;
    }

-- One round. The number space ends at the largest uint64, so `next + 1` does not wrap.
unfoldable pub assign_one : Object → Work → Result ReferenceError Work
unfolding retype append_object
assign_one o w =
    if not (valid_device_id o.id) || not (is_known o.type)
    then err invalid_entry
    else elim (lookup o.id w.by_id) [
      | some index ↦ ok (retype index o w)
      | none ↦ if w.state.next == max_uint64 then err exhausted else ok (append_object o w)
    ]

unfoldable pub assign_all : List Object → Work → Result ReferenceError Work
assign_all [] w = ok w
assign_all (o ∷ os) w = elim (assign_one o w) [ ok w' ↦ assign_all os w' | err e ↦ err e ]
