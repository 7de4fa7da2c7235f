-- ===== src/References/File/Validation.antt =====
-- The validation of a loaded file accepts consistent files only.
use dpwire.Prelude.{
  ℕ, ◌≡◌, refl, Bool, true, false, none, List, [], ◌∷◌, Bytes, bytes_eq, bytes_eq_iff, ◌==◌, any,
  ok, arith, Result-cases, inl, inr, ◌||◌,
}
use dpwire.Decimal.{pos}
use dpwire.References.File.{
  ReferenceRecord, ReferenceFile, Seen, check_record, check_records, validate,
}
use dpwire.References.Ledger.{number_of, id_of, IsSound, IsConsistent}

abbrev saw_id : Seen → Bytes → Bool
saw_id seen id = any (λ i. bytes_eq i id) seen.ids

abbrev saw_number : Seen → ℕ → Bool
saw_number seen n = any (λ m. m == n) seen.numbers

-- What a record that passes has, and what is seen after it.
record Passes (next : ℕ) (seen more : Seen) (r : ReferenceRecord) : Type 0 where
  sound : IsSound next r
  new_id : saw_id seen r.device_id ≡ false
  new_number : saw_number seen r.number ≡ false
  ids : (id : Bytes) → saw_id more id ≡ (bytes_eq r.device_id id || saw_id seen id)
  numbers : (n : ℕ) → saw_number more n ≡ (r.number == n || saw_number seen n)

check_record-Passes :
    (next : ℕ) (seen more : Seen) (r : ReferenceRecord)
    → check_record next seen r ≡ ok more
    → Passes next seen more r
unfolding check_record
check_record-Passes next seen more r h = record {
  sound = (ground arith, ground arith, ground arith);
  new_id = ground arith;
  new_number = ground arith;
  ids = λ id. ground arith;
  numbers = λ n. ground arith;
}

absent_id :
    (next : ℕ) (seen : Seen) (rs : List ReferenceRecord) (id : Bytes)
    → check_records next seen rs ≡ ok tt
    → saw_id seen id ≡ true
    → number_of id rs ≡ none
unfolding check_records
absent_id next seen [] id h saw = refl
absent_id next seen (r ∷ rs) id h saw = elim (Result-cases (check_record next seen r)) [
  | inr (e, bad) ↦ ground arith
  | inl (more, good) ↦
      let p = check_record-Passes next seen more r good in
      ground (arith, bytes_eq_iff r.device_id id, p.new_id, p.ids id, absent_id next more rs id)
]

absent_number :
    (next : ℕ) (seen : Seen) (rs : List ReferenceRecord) (n : ℕ)
    → check_records next seen rs ≡ ok tt
    → saw_number seen n ≡ true
    → id_of n rs ≡ none
unfolding check_records
absent_number next seen [] n h saw = refl
absent_number next seen (r ∷ rs) n h saw = elim (Result-cases (check_record next seen r)) [
  | inr (e, bad) ↦ ground arith
  | inl (more, good) ↦
      let p = check_record-Passes next seen more r good in
      ground (arith, p.new_number, p.numbers n, absent_number next more rs n)
]

check_records-IsConsistent :
    (next : ℕ) (seen : Seen) (rs : List ReferenceRecord)
    → check_records next seen rs ≡ ok tt
    → IsConsistent next rs
unfolding check_records
check_records-IsConsistent next seen [] h = record {
  sound = tt;
  unique_ids = tt;
  unique_numbers = tt;
}
check_records-IsConsistent next seen (r ∷ rs) h = elim (Result-cases (check_record next seen r)) [
  | inr (e, bad) ↦ ground arith
  | inl (more, good) ↦
      let p = check_record-Passes next seen more r good in
      let later : check_records next more rs ≡ ok tt = ground arith in
      let rest = check_records-IsConsistent next more rs later in
      record {
        sound = (p.sound, rest.sound);
        unique_ids = (
          absent_id next more rs r.device_id later
              (ground (arith, bytes_eq_iff r.device_id r.device_id, p.ids r.device_id)),
          rest.unique_ids,
        );
        unique_numbers = (
          absent_number next more rs r.number later (ground (arith, p.numbers r.number)),
          rest.unique_numbers,
        );
      }
]

-- A file that validation accepts has schema 1; its records have valid IDs and known types, their
-- numbers are below the next one, and no ID and no number occurs twice.
pub validate-IsConsistent :
    (file : ReferenceFile)
    → validate file ≡ ok tt
    → (file.schema_version ≡ pos 1) × IsConsistent file.next file.objects
unfolding validate
validate-IsConsistent file h = (
  ground arith,
  check_records-IsConsistent file.next (record { numbers = []; ids = [] }) file.objects
      (ground arith),
)
