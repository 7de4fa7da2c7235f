-- ===== src/References/Ledger.antt =====
-- The records of a reference file as a ledger of numbers: which number an ID has, and what makes the
-- records consistent.
use dpwire.Prelude.{
  ℕ, ◌<◌, ◌≡◌, refl, ◌∙◌, true, Option, none, some, List, [], ◌∷◌, ◌++◌, Bytes, bytes_eq,
  bytes_eq_iff, ◌==◌, All, if◌then◌else◌, arith,
}
use dpwire.EntryType.{is_known}
use dpwire.References.File.{ReferenceRecord, valid_device_id}
use dpwire.References.Store.{insert_by_number, sort_by_number}

-- The number of an ID, and the ID of a number.
abbrev pub number_of : Bytes → List ReferenceRecord → Option ℕ
number_of id [] = none
number_of id (r ∷ rs) = if bytes_eq r.device_id id then some r.number else number_of id rs

abbrev pub id_of : ℕ → List ReferenceRecord → Option Bytes
id_of n [] = none
id_of n (r ∷ rs) = if r.number == n then some r.device_id else id_of n rs

abbrev pub UniqueIds : List ReferenceRecord → Type 0
UniqueIds [] = Unit
UniqueIds (r ∷ rs) = (number_of r.device_id rs ≡ none) × UniqueIds rs

abbrev pub UniqueNumbers : List ReferenceRecord → Type 0
UniqueNumbers [] = Unit
UniqueNumbers (r ∷ rs) = (id_of r.number rs ≡ none) × UniqueNumbers rs

abbrev pub IsSound : ℕ → ReferenceRecord → Type 0
IsSound next r = (valid_device_id r.device_id ≡ true) × (is_known r.type ≡ true) × (r.number < next)

pub record IsConsistent (next : ℕ) (rs : List ReferenceRecord) : Type 0 where
  pub sound : All (IsSound next) rs
  pub unique_ids : UniqueIds rs
  pub unique_numbers : UniqueNumbers rs

-- Appending a record.
module _ (r : ReferenceRecord) where
  pub number_of-concat :
      (id : Bytes) (rs : List ReferenceRecord)
      → number_of r.device_id rs ≡ none
      → number_of id (rs ++ r ∷ [])
        ≡ (if bytes_eq r.device_id id then some r.number else number_of id rs)
  number_of-concat id [] h = refl
  number_of-concat id (x ∷ rs) h = ground (
    arith,
    bytes_eq_iff x.device_id id,
    bytes_eq_iff r.device_id id,
    bytes_eq_iff x.device_id r.device_id,
    number_of-concat id rs,
  )

  id_of-concat :
      (n : ℕ) (rs : List ReferenceRecord)
      → id_of r.number rs ≡ none
      → id_of n (rs ++ r ∷ []) ≡ (if r.number == n then some r.device_id else id_of n rs)
  id_of-concat n [] h = refl
  id_of-concat n (x ∷ rs) h = ground (arith, id_of-concat n rs)

  pub concat-UniqueIds :
      (rs : List ReferenceRecord)
      → number_of r.device_id rs ≡ none
      → UniqueIds rs
      → UniqueIds (rs ++ r ∷ [])
  concat-UniqueIds [] h u = (refl, tt)
  concat-UniqueIds (x ∷ rs) h u = ground (
    arith,
    bytes_eq_iff x.device_id r.device_id,
    bytes_eq_iff r.device_id x.device_id,
    number_of-concat x.device_id rs,
    concat-UniqueIds rs,
  )

  pub concat-UniqueNumbers :
      (rs : List ReferenceRecord)
      → id_of r.number rs ≡ none
      → UniqueNumbers rs
      → UniqueNumbers (rs ++ r ∷ [])
  concat-UniqueNumbers [] h u = (refl, tt)
  concat-UniqueNumbers (x ∷ rs) h u =
      ground (arith, id_of-concat x.number rs, concat-UniqueNumbers rs)

  -- Inserting it in the order of the numbers.
  number_of-insert_by_number :
      (id : Bytes) (rs : List ReferenceRecord)
      → number_of r.device_id rs ≡ none
      → number_of id (insert_by_number r rs) ≡ number_of id (r ∷ rs)
  unfolding insert_by_number
  number_of-insert_by_number id [] h = refl
  number_of-insert_by_number id (x ∷ rs) h = ground (
    arith,
    bytes_eq_iff x.device_id id,
    bytes_eq_iff r.device_id id,
    bytes_eq_iff x.device_id r.device_id,
    number_of-insert_by_number id rs,
  )

  id_of-insert_by_number :
      (n : ℕ) (rs : List ReferenceRecord)
      → id_of r.number rs ≡ none
      → id_of n (insert_by_number r rs) ≡ id_of n (r ∷ rs)
  unfolding insert_by_number
  id_of-insert_by_number n [] h = refl
  id_of-insert_by_number n (x ∷ rs) h = ground (arith, id_of-insert_by_number n rs)

  insert_by_number-UniqueIds :
      (rs : List ReferenceRecord)
      → number_of r.device_id rs ≡ none
      → UniqueIds rs
      → UniqueIds (insert_by_number r rs)
  unfolding insert_by_number
  insert_by_number-UniqueIds [] h u = (refl, tt)
  insert_by_number-UniqueIds (x ∷ rs) h u = ground (
    arith,
    bytes_eq_iff x.device_id r.device_id,
    bytes_eq_iff r.device_id x.device_id,
    number_of-insert_by_number x.device_id rs,
    insert_by_number-UniqueIds rs,
  )

  insert_by_number-UniqueNumbers :
      (rs : List ReferenceRecord)
      → id_of r.number rs ≡ none
      → UniqueNumbers rs
      → UniqueNumbers (insert_by_number r rs)
  unfolding insert_by_number
  insert_by_number-UniqueNumbers [] h u = (refl, tt)
  insert_by_number-UniqueNumbers (x ∷ rs) h u =
      ground (arith, id_of-insert_by_number x.number rs, insert_by_number-UniqueNumbers rs)

  insert_by_number-All :
      (next : ℕ) (rs : List ReferenceRecord)
      → IsSound next r
      → All (IsSound next) rs
      → All (IsSound next) (insert_by_number r rs)
  unfolding insert_by_number
  insert_by_number-All next [] h a = (h, tt)
  insert_by_number-All next (x ∷ rs) h a = ground (arith, insert_by_number-All next rs)

-- Sorting by number changes no number.
pub number_of-sort_by_number :
    (id : Bytes) (rs : List ReferenceRecord)
    → UniqueIds rs
    → number_of id (sort_by_number rs) ≡ number_of id rs
unfolding sort_by_number
number_of-sort_by_number id [] u = refl
number_of-sort_by_number id (r ∷ rs) u = ground (
  arith,
  number_of-insert_by_number r id (sort_by_number rs),
  number_of-sort_by_number id rs,
  number_of-sort_by_number r.device_id rs,
)

id_of-sort_by_number :
    (n : ℕ) (rs : List ReferenceRecord)
    → UniqueNumbers rs
    → id_of n (sort_by_number rs) ≡ id_of n rs
unfolding sort_by_number
id_of-sort_by_number n [] u = refl
id_of-sort_by_number n (r ∷ rs) u = ground (
  arith,
  id_of-insert_by_number r n (sort_by_number rs),
  id_of-sort_by_number n rs,
  id_of-sort_by_number r.number rs,
)

pub sort_by_number-IsConsistent :
    (next : ℕ) (rs : List ReferenceRecord)
    → IsConsistent next rs
    → IsConsistent next (sort_by_number rs)
unfolding sort_by_number
sort_by_number-IsConsistent next [] h = h
sort_by_number-IsConsistent next (r ∷ rs) h =
    let rest = sort_by_number-IsConsistent next rs (record {
      sound = h.sound.1;
      unique_ids = h.unique_ids.1;
      unique_numbers = h.unique_numbers.1;
    }) in
    record {
      sound = insert_by_number-All r next (sort_by_number rs) h.sound.0 rest.sound;
      unique_ids =
          insert_by_number-UniqueIds r (sort_by_number rs)
            (number_of-sort_by_number r.device_id rs h.unique_ids.1 ∙ h.unique_ids.0)
            rest.unique_ids;
      unique_numbers =
          insert_by_number-UniqueNumbers r (sort_by_number rs)
            (id_of-sort_by_number r.number rs h.unique_numbers.1 ∙ h.unique_numbers.0)
            rest.unique_numbers;
    }
