-- ===== src/References/Store.antt =====
-- profiles/object_references.go: loading, caching, saving, Assign and Candidates. The lock file makes
-- an Assign one step on the file. JSON is a parameter, and the file system is a file with its
-- `FileInfo`; a replacement may fail, and then the old file stays. Other errors of `os.Stat` and
-- `os.ReadFile` are not modelled.
pub mod Numbering
use dpwire.Prelude.{
  ℕ, ◌+◌, ◌*◌, ◌^◌, ◌≤◌, Bool, true, false, not, ◌&&◌, ◌||◌, Option, none, some, List, [], ◌∷◌,
  ◌++◌, Bytes, codes, ltb, leb, ◌==◌, has_prefix, drop, length, all, is_one_of, if◌then◌else◌,
  Result, ok, err, ◌>>=◌, ◌>>◌,
}
use dpwire.Prelude.Dict.{Dict, lookup, insert}
use dpwire.Decimal.{parse_uint64}
use dpwire.References.File.{
  ObjectReference, ReferenceRecord, ReferenceFile, ReferenceError, empty_file, too_large,
  undecodable, not_replaced, bad_hex_length, bad_hex_digit, bad_number, validate,
}
use dpwire.References.Assign.{Object, Work, start, assign_all}
use dpwire.References.Digests.{digest_digits, references}

-- os.FileInfo as far as it is compared: the file's identity, size and modification time.
pub record FileInfo : Type 0 where
  pub file : ℕ
  pub size : ℕ
  pub mod_time : ℕ

pub record StoredFile : Type 0 where
  pub info : FileInfo
  pub raw : Bytes

-- The file at the store's path, and the cache of ObjectReferenceStore.
pub record Store : Type 0 where
  pub disk : Option StoredFile
  pub cache_valid : Bool
  pub cache_info : Option FileInfo
  pub cache_state : ReferenceFile

abbrev pub max_file_size : ℕ
max_file_size = 16 * 2 ^ 20

abbrev decoded : Option ReferenceFile → Result ReferenceError ReferenceFile
decoded none = err undecodable
decoded (some file) = do validate file; ok file

abbrev same_info : FileInfo → FileInfo → Bool
same_info a b = a.file == b.file && (a.size == b.size && a.mod_time == b.mod_time)

abbrev info_of : Option StoredFile → Option FileInfo
info_of none = none
info_of (some f) = some f.info

unfoldable pub insert_by_number : ReferenceRecord → List ReferenceRecord → List ReferenceRecord
insert_by_number r [] = r ∷ []
insert_by_number r (s ∷ ss) =
    let rest = insert_by_number r ss in if ltb s.number r.number then s ∷ rest else r ∷ s ∷ ss

unfoldable pub sort_by_number : List ReferenceRecord → List ReferenceRecord
sort_by_number [] = []
sort_by_number (r ∷ rs) = insert_by_number r (sort_by_number rs)

-- `save` sorts the records that the caller goes on with.
abbrev pub sorted : ReferenceFile → ReferenceFile
sorted file = record file { objects = sort_by_number file.objects }

abbrev or_zero : Option ObjectReference → ObjectReference
or_zero none = record { number = 0; hex = []; device_id = []; type = [] }
or_zero (some r) = r

-- `result[entry.ID] = all[entry.ID]`
unfoldable pub select : List Object → Dict ObjectReference → Dict ObjectReference
select [] everything = []
select (o ∷ os) everything = insert o.id (or_zero (lookup o.id everything)) (select os everything)

module _ (digest : Bytes → Bytes) (decode : Bytes → Option ReferenceFile)
    (encode : ReferenceFile → Bytes) where
  unfoldable pub load : Option StoredFile → Result ReferenceError ReferenceFile
  load none = ok empty_file
  load (some f) = if ltb max_file_size f.info.size then err too_large else decoded (decode f.raw)

  load_cached_file : Option StoredFile → Store → Result ReferenceError ReferenceFile
  load_cached_file none s = elim s.cache_info [
    | none ↦ if s.cache_valid then ok s.cache_state else ok empty_file
    | some i ↦ ok empty_file
  ]
  load_cached_file (some f) s = elim s.cache_info [
    | none ↦ load s.disk
    | some i ↦ if s.cache_valid && same_info i f.info then ok s.cache_state else load s.disk
  ]

  unfoldable pub load_cached : Store → Result ReferenceError ReferenceFile
  unfolding load_cached_file
  load_cached s = load_cached_file s.disk s

  unfoldable pub remember : ReferenceFile → Store → Store
  remember state s = record s {
    cache_state = state;
    cache_info = info_of s.disk;
    cache_valid = true;
  }

  -- `replaced` is what the replacement of the file gives: the new file's information, or a failure.
  replace : Option FileInfo → ReferenceFile → Store → Option Store
  replace none file s = none
  replace (some i) file s = some (record s { disk = some (record { info = i; raw = encode file }) })

  commit : Option FileInfo → Work → Store → Result ReferenceError ReferenceFile × Store
  commit replaced w s =
      if w.changed
      then elim (replace replaced (sorted w.state) s) [
        | none ↦ (err not_replaced, record s { cache_valid = false })
        | some s' ↦ (ok (sorted w.state), remember (sorted w.state) s')
      ]
      else (ok w.state, remember w.state s)

  finish :
      List Object
      → Result ReferenceError ReferenceFile × Store
      → Result ReferenceError (Dict ObjectReference) × Store
  finish entries (err e, s) = (err e, s)
  finish entries (ok file, s) = (ok (select entries (references digest file.objects)), s)

  unfoldable pub assign :
      List Object → Option FileInfo → Store → Result ReferenceError (Dict ObjectReference) × Store
  unfolding commit replace finish
  assign entries replaced s = elim (do file ← load_cached s; assign_all entries (start file)) [
    | err e ↦ (err e, s)
    | ok w ↦ finish entries (commit replaced w s)
  ]

  matching_hex : Bytes → Dict ObjectReference → List ObjectReference
  matching_hex prefix [] = []
  matching_hex prefix ((k, r) ∷ m) =
      let rest = matching_hex prefix m in
      if has_prefix (drop 2 r.hex) prefix then r ∷ rest else rest

  insert_reference : ObjectReference → List ObjectReference → List ObjectReference
  insert_reference r [] = r ∷ []
  insert_reference r (s ∷ ss) =
      let rest = insert_reference r ss in if ltb s.number r.number then s ∷ rest else r ∷ s ∷ ss

  sort_references : List ObjectReference → List ObjectReference
  sort_references [] = []
  sort_references (r ∷ rs) = insert_reference r (sort_references rs)

  with_number : ℕ → Dict ObjectReference → List ObjectReference
  with_number n [] = []
  with_number n ((k, r) ∷ m) = let rest = with_number n m in if r.number == n then r ∷ [] else rest

  -- `to_lower` is `strings.ToLower`.
  unfoldable pub candidates :
      (Bytes → Bytes) → Bytes → Store → Result ReferenceError (List ObjectReference)
  unfolding matching_hex insert_reference sort_references with_number
  candidates to_lower selector s = elim (load s.disk) [
    | err e ↦ err e
    | ok file ↦
        let everything = references digest file.objects in
        let prefix = to_lower (drop 2 selector) in
        if has_prefix selector (codes "0x") || has_prefix selector (codes "0X")
        then (if ltb (length prefix) 4 || ltb digest_digits (length prefix)
            then err bad_hex_length
            else if not (all (is_one_of (codes "0123456789abcdef")) prefix)
            then err bad_hex_digit
            else ok (sort_references (matching_hex prefix everything)))
        else elim (parse_uint64 selector) [
          | none ↦ err bad_number
          | some n ↦ ok (with_number n everything)
        ]
  ]
