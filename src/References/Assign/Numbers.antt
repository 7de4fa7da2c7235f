-- ===== src/References/Assign/Numbers.antt =====
-- Each round of the loop of Assign keeps the records consistent, and its index in step with them.
use dpwire.Prelude.{
  ℕ, zero, suc, ◌+◌, ◌≤◌, ◌≡◌, inl, inr, refl, ◌∙◌, true, false, Option, none, some, List, [], ◌∷◌,
  ◌++◌, Bytes, bytes_eq, bytes_eq_iff, length, All, arith, Bool-cases, length-append, append-nil,
  append_assoc,
}
use dpwire.Prelude.Dict.{Dict, lookup, insert, lookup-insert}
use dpwire.EntryType.{EntryType, is_known}
use dpwire.References.File.{ReferenceRecord, ReferenceFile, valid_device_id}
use dpwire.References.Assign.{start, index_from, record_at, set_type}
use dpwire.References.Ledger.{
  number_of, id_of, UniqueIds, UniqueNumbers, IsSound, IsConsistent, concat-UniqueIds,
  concat-UniqueNumbers,
}

-- The IDs of the records, in order: what `set_type` leaves alone.
pub number_of-set_type :
    (id : Bytes) (rs : List ReferenceRecord) (i : ℕ) (t : EntryType)
    → number_of id (set_type rs i t) ≡ number_of id rs
number_of-set_type id [] i t = refl
number_of-set_type id (r ∷ rs) zero t = refl
number_of-set_type id (r ∷ rs) (suc i) t = ground (arith, number_of-set_type id rs i t)

id_of-set_type :
    (n : ℕ) (rs : List ReferenceRecord) (i : ℕ) (t : EntryType)
    → id_of n (set_type rs i t) ≡ id_of n rs
id_of-set_type n [] i t = refl
id_of-set_type n (r ∷ rs) zero t = refl
id_of-set_type n (r ∷ rs) (suc i) t = ground (arith, id_of-set_type n rs i t)

set_type-UniqueIds :
    (rs : List ReferenceRecord) (i : ℕ) (t : EntryType) → UniqueIds rs → UniqueIds (set_type rs i t)
set_type-UniqueIds [] i t u = tt
set_type-UniqueIds (r ∷ rs) zero t u = u
set_type-UniqueIds (r ∷ rs) (suc i) t u =
    (number_of-set_type r.device_id rs i t ∙ u.0, set_type-UniqueIds rs i t u.1)

set_type-UniqueNumbers :
    (rs : List ReferenceRecord) (i : ℕ) (t : EntryType)
    → UniqueNumbers rs
    → UniqueNumbers (set_type rs i t)
set_type-UniqueNumbers [] i t u = tt
set_type-UniqueNumbers (r ∷ rs) zero t u = u
set_type-UniqueNumbers (r ∷ rs) (suc i) t u =
    (id_of-set_type r.number rs i t ∙ u.0, set_type-UniqueNumbers rs i t u.1)

set_type-All :
    (next : ℕ) (rs : List ReferenceRecord) (i : ℕ) (t : EntryType)
    → is_known t ≡ true
    → All (IsSound next) rs
    → All (IsSound next) (set_type rs i t)
set_type-All next [] i t k a = tt
set_type-All next (r ∷ rs) zero t k a = ((a.0.0, k, a.0.2), a.1)
set_type-All next (r ∷ rs) (suc i) t k a = (a.0, set_type-All next rs i t k a.1)

pub set_type-IsConsistent :
    (next : ℕ) (rs : List ReferenceRecord) (i : ℕ) (t : EntryType)
    → is_known t ≡ true
    → IsConsistent next rs
    → IsConsistent next (set_type rs i t)
set_type-IsConsistent next rs i t k h = record {
  sound = set_type-All next rs i t k h.sound;
  unique_ids = set_type-UniqueIds rs i t h.unique_ids;
  unique_numbers = set_type-UniqueNumbers rs i t h.unique_numbers;
}

-- A number that is not below `next` has no ID yet.
fresh_number :
    (next n : ℕ) (rs : List ReferenceRecord) → next ≤ n → All (IsSound next) rs → id_of n rs ≡ none
fresh_number next n [] le a = refl
fresh_number next n (r ∷ rs) le a = ground (arith, fresh_number next n rs)

raise_next :
    (next : ℕ) (rs : List ReferenceRecord) → All (IsSound next) rs → All (IsSound (next + 1)) rs
raise_next next [] a = tt
raise_next next (r ∷ rs) a = ((a.0.0, a.0.1, omega arith), raise_next next rs a.1)

concat-All :
    (next : ℕ) (rs : List ReferenceRecord) (r : ReferenceRecord)
    → All (IsSound next) rs
    → IsSound next r
    → All (IsSound next) (rs ++ r ∷ [])
concat-All next [] r a h = (h, tt)
concat-All next (x ∷ rs) r a h = (a.0, concat-All next rs r a.1 h)

pub concat-IsConsistent :
    (next : ℕ) (rs : List ReferenceRecord) (id : Bytes) (t : EntryType)
    → valid_device_id id ≡ true
    → is_known t ≡ true
    → number_of id rs ≡ none
    → IsConsistent next rs
    → IsConsistent (next + 1) (rs ++ record { number = next; device_id = id; type = t } ∷ [])
concat-IsConsistent next rs id t v k absent h =
    let r : ReferenceRecord = record { number = next; device_id = id; type = t } in
    record {
      sound = concat-All (next + 1) rs r (raise_next next rs h.sound) (v, k, omega arith);
      unique_ids = concat-UniqueIds r rs absent h.unique_ids;
      unique_numbers =
          concat-UniqueNumbers r rs (fresh_number next next rs (omega arith) h.sound)
            h.unique_numbers;
    }

-- Where an index says that the record of an ID is.
abbrev pub Located : Option ℕ → Bytes → List ReferenceRecord → Type 0
Located none id rs = number_of id rs ≡ none
Located (some i) id rs = (r : ReferenceRecord) × (record_at rs i ≡ some r) × (r.device_id ≡ id)

abbrev pub Agrees : Dict ℕ → List ReferenceRecord → Type 0
Agrees m rs = (id : Bytes) → Located (lookup id m) id rs

record_at-append :
    (rs : List ReferenceRecord) (x r : ReferenceRecord) (i : ℕ)
    → record_at rs i ≡ some x
    → record_at (rs ++ r ∷ []) i ≡ some x
record_at-append [] x r i e = cc
record_at-append (y ∷ rs) x r zero e = e
record_at-append (y ∷ rs) x r (suc i) e = record_at-append rs x r i e

record_at_last :
    (rs : List ReferenceRecord) (r : ReferenceRecord)
    → record_at (rs ++ r ∷ []) (length rs) ≡ some r
record_at_last [] r = refl
record_at_last (y ∷ rs) r = record_at_last rs r

absent-concat :
    (id : Bytes) (rs : List ReferenceRecord) (r : ReferenceRecord)
    → number_of id rs ≡ none
    → bytes_eq r.device_id id ≡ false
    → number_of id (rs ++ r ∷ []) ≡ none
absent-concat id [] r h ne = rw ne
absent-concat id (y ∷ rs) r h ne = ground (arith, absent-concat id rs r)

Located-append :
    (o : Option ℕ) (id : Bytes) (rs : List ReferenceRecord) (r : ReferenceRecord)
    → bytes_eq r.device_id id ≡ false
    → Located o id rs
    → Located o id (rs ++ r ∷ [])
Located-append none id rs r ne h = absent-concat id rs r h ne
Located-append (some i) id rs r ne h = (h.0, record_at-append rs h.0 r i h.1, h.2)

pub append-Agrees :
    (m : Dict ℕ) (rs : List ReferenceRecord) (r : ReferenceRecord)
    → Agrees m rs
    → Agrees (insert r.device_id (length rs) m) (rs ++ r ∷ [])
append-Agrees m rs r h id = elim (Bool-cases (bytes_eq r.device_id id)) [
  | inl same ↦
      rw (lookup-insert r.device_id id (length rs) m, same)
        (r, record_at_last rs r, (bytes_eq_iff r.device_id id).0 same)
  | inr other ↦
      rw (lookup-insert r.device_id id (length rs) m, other)
        (Located-append (lookup id m) id rs r other (h id))
]

index_from-Agrees :
    (rs before : List ReferenceRecord) (m : Dict ℕ)
    → Agrees m before
    → Agrees (index_from (length before) rs m) (before ++ rs)
unfolding index_from
index_from-Agrees [] before m h = rw append-nil h
index_from-Agrees (r ∷ rs) before m h =
    let longer : length (before ++ r ∷ []) ≡ length before + 1 =
      omega (arith, length-append before (r ∷ [])) in
    rw (append_assoc before (r ∷ []) rs, longer) at
      (index_from-Agrees rs (before ++ r ∷ []) (insert r.device_id (length before) m)
        (append-Agrees m before r h))

pub start-Agrees : (file : ReferenceFile) → Agrees (start file).by_id file.objects
unfolding start lookup
start-Agrees file = index_from-Agrees file.objects [] [] (λ id. refl)

record_at-set_type :
    (rs : List ReferenceRecord) (i j : ℕ) (t : EntryType) (x : ReferenceRecord)
    → record_at rs j ≡ some x
    → (y : ReferenceRecord) × (record_at (set_type rs i t) j ≡ some y) × (y.device_id ≡ x.device_id)
record_at-set_type [] i j t x e = cc
record_at-set_type (r ∷ rs) zero zero t x e = (record r { type = t }, refl, ground arith)
record_at-set_type (r ∷ rs) zero (suc j) t x e = (x, e, refl)
record_at-set_type (r ∷ rs) (suc i) zero t x e = (x, e, refl)
record_at-set_type (r ∷ rs) (suc i) (suc j) t x e = record_at-set_type rs i j t x e

Located-set_type :
    (o : Option ℕ) (id : Bytes) (rs : List ReferenceRecord) (i : ℕ) (t : EntryType)
    → Located o id rs
    → Located o id (set_type rs i t)
Located-set_type none id rs i t h = number_of-set_type id rs i t ∙ h
Located-set_type (some j) id rs i t h =
    let (y, at, same) = record_at-set_type rs i j t h.0 h.1 in (y, at, same ∙ h.2)

pub set_type-Agrees :
    (m : Dict ℕ) (rs : List ReferenceRecord) (i : ℕ) (t : EntryType)
    → Agrees m rs
    → Agrees m (set_type rs i t)
set_type-Agrees m rs i t h id = Located-set_type (lookup id m) id rs i t (h id)
