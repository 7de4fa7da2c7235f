-- ===== src/Entries/Decoding.antt =====
-- What decodeEntry has tested of an entry that it returns.
use dpwire.Prelude.{
  ◌≡◌, ◌⊎◌, inl, inr, refl, sym, ap, ◌∙◌, Bool, true, [], Bytes, codes, bytes_eq_iff, trim_suffix,
  arith, if◌then◌else◌, ok, ◌>>◌, bind_ok, ok-injective, Result-cases,
}
use dpwire.EntryType.{is_known}
use dpwire.RemotePath.{RemotePath, IsInTree, parse_remote_path, parse_remote_path-IsInTree}
use dpwire.Entries.{
  WireEntry, Entry, EntryError, validate_id, is_valid_id, validate_entry_name, root_name,
  entry_name, check_strict, check_metadata, parse_path, made_entry, decode_entry,
}

pub record IsDecoded (nfc : Bytes → Bytes) (raw : WireEntry) (e : Entry) : Type 0 where
  id : e.id ≡ raw.id
  valid_id : is_valid_id e.id ≡ true
  path : e.path ≡ nfc (trim_suffix raw.path (codes "/"))
  in_tree : IsInTree e.path
  name : e.name ≡ nfc raw.name
  known : is_known e.entry_type ≡ true
  parent : (e.parent_folder_id ≡ []) ⊎ (is_valid_id e.parent_folder_id ≡ true)
  same_parent : e.parent_folder_id ≡ raw.parent_folder_id

-- The calls of decodeEntry that have succeeded before it returns.
record Passes (nfc : Bytes → Bytes) (is_rfc3339 : Bytes → Bool) (raw : WireEntry) (strict : Bool)
    (e : Entry) : Type 0 where
  path : RemotePath
  name : Bytes
  id_ok : is_valid_id raw.id ≡ true
  path_ok : parse_remote_path nfc (trim_suffix raw.path (codes "/")) ≡ ok path
  name_ok : entry_name nfc path raw.name ≡ ok name
  metadata_ok : check_metadata raw ≡ ok tt
  strict_ok : (if strict then check_strict nfc is_rfc3339 raw path name else ok tt) ≡ ok tt
  made : e ≡ made_entry raw path name

module _ (nfc : Bytes → Bytes) (is_rfc3339 : Bytes → Bool) (raw : WireEntry) where
  entry_name-nfc :
      (path : RemotePath) (name : Bytes)
      → entry_name nfc path raw.name ≡ ok name
      → name ≡ nfc raw.name
  unfolding entry_name root_name validate_entry_name
  entry_name-nfc path name h = ground arith

  check_metadata-Known : check_metadata raw ≡ ok tt → is_known raw.entry_type ≡ true
  unfolding check_metadata
  check_metadata-Known h = ground arith

  check_metadata-Parent :
      check_metadata raw ≡ ok tt
      → (raw.parent_folder_id ≡ []) ⊎ (is_valid_id raw.parent_folder_id ≡ true)
  unfolding check_metadata
  check_metadata-Parent h = ground (arith, bytes_eq_iff raw.parent_folder_id [])

  parse_path_ok :
      (path : RemotePath)
      → parse_path nfc raw.path ≡ ok path
      → parse_remote_path nfc (trim_suffix raw.path (codes "/")) ≡ ok path
  unfolding parse_path
  parse_path_ok path h =
      elim (Result-cases (parse_remote_path nfc (trim_suffix raw.path (codes "/")))) [
        | inl (p, e) ↦
            let same : p ≡ path = ok-injective {E = EntryError} (rw (e, parse_path) at h) in
            e ∙ ap ok same
        | inr (x, e) ↦ ground (arith, rw (e, parse_path) at h)
      ]

  validate_id_ok : validate_id raw.id ≡ ok tt → is_valid_id raw.id ≡ true
  unfolding validate_id
  validate_id_ok h = ground arith

  decode_entry-Passes :
      (strict : Bool) (e : Entry)
      → decode_entry nfc is_rfc3339 raw strict ≡ ok e
      → Passes nfc is_rfc3339 raw strict e
  unfolding decode_entry
  decode_entry-Passes strict e h =
      let (path, (read, after_path)) =
        bind_ok (validate_id raw.id >> parse_path nfc raw.path) _ e h in
      let (u, (id_tested, path_read)) = bind_ok (validate_id raw.id) _ path read in
      let (name, (name_read, after_name)) = bind_ok (entry_name nfc path raw.name) _ e after_path in
      let (v, (tested, made)) = bind_ok _ _ e after_name in
      let (w, (metadata_tested, strict_tested)) = bind_ok (check_metadata raw) _ v tested in
      record {
        path = path;
        name = name;
        id_ok = validate_id_ok id_tested;
        path_ok = parse_path_ok path path_read;
        name_ok = name_read;
        metadata_ok = metadata_tested;
        strict_ok = strict_tested;
        made = sym (ok-injective made);
      }

-- An entry that decodeEntry returns has the ID, the normalized name and the normalized path (without a
-- final slash) that the device sent; the ID is valid, the path is inside the tree, the type is one of the two
-- known ones, and the parent's ID is that of the device, empty or valid.
pub decode_entry-IsDecoded :
    (nfc : Bytes → Bytes) (is_rfc3339 : Bytes → Bool) (raw : WireEntry) (strict : Bool) (e : Entry)
    → decode_entry nfc is_rfc3339 raw strict ≡ ok e
    → IsDecoded nfc raw e
unfolding made_entry
decode_entry-IsDecoded nfc is_rfc3339 raw strict e h =
    let p = decode_entry-Passes nfc is_rfc3339 raw strict e h in
    let place =
      parse_remote_path-IsInTree nfc (trim_suffix raw.path (codes "/")) p.path p.path_ok in
    rw p.made (record {
      id = refl;
      valid_id = p.id_ok;
      path = place.0;
      in_tree = place.1;
      name = entry_name-nfc nfc is_rfc3339 raw p.path p.name p.name_ok;
      known = check_metadata-Known nfc is_rfc3339 raw p.metadata_ok;
      parent = check_metadata-Parent nfc is_rfc3339 raw p.metadata_ok;
      same_parent = refl;
    })
