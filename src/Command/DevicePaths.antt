-- ===== src/Command/DevicePaths.antt =====
-- cmd/dp/main.go: device paths on the command line, which leave out the protocol's root `Document`. NFC
-- normalization and `strings.EqualFold` are parameters.
use dpwire.Prelude.{
  ◌≡◌, ap, ◌∙◌, Bool, ◌&&◌, ◌||◌, [], ◌∷◌, ◌++◌, Bytes, codes, bytes_eq, has_prefix, trim_prefix,
  ◌==◌, if◌then◌else◌, Option, none, some, Result, ok, err, ◌>>=◌, bind_ok, ok-injective, sym,
  Option-cases, ==_iff, Bool-cases, inl, inr, arith,
}
use dpwire.Segments.{NoSlash}
use dpwire.RemotePath.{
  PathError, RemotePath, parse_remote_path, IsInTree, parse_remote_path-IsInTree,
}

-- `panicked` is the panic of MustRemotePath.
pub data DevicePathError : Type 0 where
  empty_path leading_slashes internal_root not_below_root : DevicePathError
  bad_path panicked : PathError → DevicePathError

unfoldable pub as_error :
    {A : Type 0} → (PathError → DevicePathError) → Result PathError A → Result DevicePathError A
as_error f (ok a) = ok a
as_error f (err e) = err (f e)

-- The loop of trimRootRelativePrefix: `./` in front goes, as often as it stands there.
unfoldable pub trim_root_relative_prefix : Bytes → Bytes
trim_root_relative_prefix [] = []
trim_root_relative_prefix (a ∷ []) = a ∷ []
trim_root_relative_prefix (a ∷ b ∷ rest) =
    let later = trim_root_relative_prefix rest in
    if (a == 46) && (b == 47) then later else a ∷ b ∷ rest

-- `strings.TrimRight(value, "/")`
unfoldable pub trim_slashes : Bytes → Bytes
trim_slashes [] = []
trim_slashes (c ∷ cs) =
    let rest = trim_slashes cs in if bytes_eq rest [] && (c == 47) then [] else c ∷ rest

-- `first, _, _ := strings.Cut(value, "/")`
unfoldable pub first_segment : Bytes → Bytes
first_segment [] = []
first_segment (c ∷ cs) = let rest = first_segment cs in if c == 47 then [] else c ∷ rest

-- What stands before the last slash and behind it, as strings.LastIndex finds it.
unfoldable pub cut_last : Bytes → Option (Bytes × Bytes)
cut_last [] = none
cut_last (c ∷ cs) = elim (cut_last cs) [
  | some (before, after') ↦ some (c ∷ before, after')
  | none ↦ if c == 47 then some ([], cs) else none
]

module _ (nfc : Bytes → Bytes) (equal_fold : Bytes → Bytes → Bool) where
  -- The value without its decoration.
  unfoldable pub below_root : Bytes → Result DevicePathError RemotePath
  below_root value =
      if bytes_eq value [] || bytes_eq value (codes ".")
      then as_error panicked (parse_remote_path nfc (codes "Document"))
      else if equal_fold (first_segment value) (codes "Document")
      then err internal_root
      else as_error bad_path (parse_remote_path nfc (codes "Document/" ++ value))

  unfoldable pub parse_device_path : Bytes → Result DevicePathError RemotePath
  parse_device_path value =
      if bytes_eq value []
      then err empty_path
      else if has_prefix value (codes "//")
      then err leading_slashes
      else below_root (trim_slashes (trim_root_relative_prefix (trim_prefix value (codes "/"))))

  unfoldable pub split_remote_target : Bytes → Result DevicePathError (RemotePath × Bytes)
  split_remote_target value = parse_device_path value >>= λ path. elim (cut_last path) [
    | none ↦ err not_below_root
    | some (before, name) ↦
        as_error bad_path (parse_remote_path nfc before) >>= λ parent. ok (parent, name)
  ]

  as_error_ok :
      {A : Type 0} (f : PathError → DevicePathError) (r : Result PathError A) (a : A)
      → as_error f r ≡ ok a
      → r ≡ ok a
  unfolding as_error
  as_error_ok f (ok b) a h = ap ok (ok-injective h)
  as_error_ok {A = A} f (err e) a h = ground arith

  below_root-IsInTree : (value : Bytes) (p : RemotePath) → below_root value ≡ ok p → IsInTree p
  unfolding below_root
  below_root-IsInTree value p h =
      elim (Bool-cases (bytes_eq value [] || bytes_eq value (codes "."))) [
        | inl root ↦
            let kept = rw (below_root, root) at h in
            (parse_remote_path-IsInTree nfc (codes "Document") p (as_error_ok panicked _ p kept)).1
        | inr other ↦ elim (Bool-cases (equal_fold (first_segment value) (codes "Document"))) [
          | inl internal ↦
              let bad : ◌≡◌ {A = Result DevicePathError RemotePath} (err internal_root) (ok p) =
                rw (below_root, other, internal) at h in
              ground arith
          | inr relative ↦
              let kept = rw (below_root, other, relative) at h in
              (parse_remote_path-IsInTree nfc (codes "Document/" ++ value) p
                (as_error_ok bad_path _ p kept)).1
        ]
      ]

  parse_device_path-IsInTree :
      (value : Bytes) (p : RemotePath) → parse_device_path value ≡ ok p → IsInTree p
  unfolding parse_device_path
  parse_device_path-IsInTree value p h = elim (Bool-cases (bytes_eq value [])) [
    | inl empty ↦
        let bad : ◌≡◌ {A = Result DevicePathError RemotePath} (err empty_path) (ok p) =
          rw (parse_device_path, empty) at h in
        ground arith
    | inr full ↦ elim (Bool-cases (has_prefix value (codes "//"))) [
      | inl slashes ↦
          let bad : ◌≡◌ {A = Result DevicePathError RemotePath} (err leading_slashes) (ok p) =
            rw (parse_device_path, full, slashes) at h in
          ground arith
      | inr single ↦ below_root-IsInTree _ p (rw (parse_device_path, full, single) at h)
    ]
  ]

pair_of : Option (Bytes × Bytes) → Bytes × Bytes
pair_of none = ([], [])
pair_of (some v) = v

-- The two parts around the last slash spell the whole.
cut_last-spells :
    (v : Bytes) (parts : Bytes × Bytes) → cut_last v ≡ some parts → parts.0 ++ (47 ∷ parts.1) ≡ v
unfolding cut_last pair_of
cut_last-spells [] parts h = ground arith
cut_last-spells (c ∷ cs) parts h = elim (Option-cases (cut_last cs)) [
  | inr (inner, e) ↦
      let kept = rw (cut_last, e) at h in
      let same : ◌≡◌ {A = Bytes × Bytes} (c ∷ inner.0, inner.1) parts = ap pair_of kept in
      ap (λ q. q.0 ++ (47 ∷ q.1)) (sym same) ∙ ap (λ x. c ∷ x) (cut_last-spells cs inner e)
  | inl e ↦ elim (Bool-cases (c == 47)) [
    | inl slash ↦
        let kept = rw (cut_last, e, slash) at h in
        let same : ◌≡◌ {A = Bytes × Bytes} ([], cs) parts = ap pair_of kept in
        ap (λ q. q.0 ++ (47 ∷ q.1)) (sym same) ∙ ap (λ x. x ∷ cs) (sym ((==_iff c 47).0 slash))
    | inr other ↦
        let bad : ◌≡◌ {A = Option (Bytes × Bytes)} none (some parts) =
          rw (cut_last, e, other) at h in
        ground arith
  ]
]

-- No slash stands behind the last one.
cut_last-NoSlash-none : (v : Bytes) → cut_last v ≡ none → NoSlash v
unfolding cut_last
cut_last-NoSlash-none [] h = tt
cut_last-NoSlash-none (c ∷ cs) h = elim (Option-cases (cut_last cs)) [
  | inr (inner, e) ↦
      let bad : ◌≡◌ {A = Option (Bytes × Bytes)} (some _) none = rw (cut_last, e) at h in
      ground arith
  | inl e ↦ elim (Bool-cases (c == 47)) [
    | inl slash ↦
        let bad : ◌≡◌ {A = Option (Bytes × Bytes)} (some _) none = rw (cut_last, e, slash) at h in
        ground arith
    | inr other ↦ (λ same. ground (arith, (==_iff c 47).1 same), cut_last-NoSlash-none cs e)
  ]
]

cut_last-NoSlash : (v : Bytes) (parts : Bytes × Bytes) → cut_last v ≡ some parts → NoSlash parts.1
unfolding cut_last pair_of
cut_last-NoSlash [] parts h = ground arith
cut_last-NoSlash (c ∷ cs) parts h = elim (Option-cases (cut_last cs)) [
  | inr (inner, e) ↦
      let kept = rw (cut_last, e) at h in
      let same : ◌≡◌ {A = Bytes × Bytes} (c ∷ inner.0, inner.1) parts = ap pair_of kept in
      let behind = cut_last-NoSlash cs inner e in rw (ap (λ q. q.1) same) at behind
  | inl e ↦ elim (Bool-cases (c == 47)) [
    | inl slash ↦
        let kept = rw (cut_last, e, slash) at h in
        let same : ◌≡◌ {A = Bytes × Bytes} ([], cs) parts = ap pair_of kept in
        let behind = cut_last-NoSlash-none cs e in rw (ap (λ q. q.1) same) at behind
    | inr other ↦
        let bad : ◌≡◌ {A = Option (Bytes × Bytes)} none (some parts) =
          rw (cut_last, e, other) at h in
        ground arith
  ]
]

-- What the command line takes as the target of an upload is a path inside the device's tree, and its parent is
-- the normal form of what stands before the last slash of that path, inside the tree too; the name is what
-- stands behind it, and has no slash.
pub split_remote_target-IsInTree :
    (nfc : Bytes → Bytes) (equal_fold : Bytes → Bytes → Bool) (value : Bytes) (parent : RemotePath)
    (name : Bytes)
    → split_remote_target nfc equal_fold value ≡ ok (parent, name)
    → (path : RemotePath) × ((before : Bytes) × ((parse_device_path nfc equal_fold value ≡ ok path)
          × (IsInTree path
              × (IsInTree parent
                  × ((parent ≡ nfc before) × ((before ++ (47 ∷ name) ≡ path) × NoSlash name))))))
unfolding split_remote_target
split_remote_target-IsInTree nfc equal_fold value parent name h =
    let (path, (parsed, rest)) =
      bind_ok (parse_device_path nfc equal_fold value) _ (parent, name) h in
    elim (Option-cases (cut_last path)) [
      | inl e ↦
          let bad : ◌≡◌ {A = Result DevicePathError (RemotePath × Bytes)} (err not_below_root)
              (ok (parent, name)) =
            rw e at rest in
          ground arith
      | inr (parts, e) ↦
          let kept = rw e at rest in
          let (found, (above, last)) =
            bind_ok (as_error bad_path (parse_remote_path nfc parts.0)) _ (parent, name) kept in
          let same : ◌≡◌ {A = RemotePath × Bytes} (found, parts.1) (parent, name) =
            ok-injective last in
          let is_parent : found ≡ parent = ap (λ q. q.0) same in
          let is_name : parts.1 ≡ name = ap (λ q. q.1) same in
          let behind = cut_last-NoSlash path parts e in
          let tree =
            parse_remote_path-IsInTree nfc parts.0 found
              (as_error_ok nfc equal_fold bad_path _ found above) in
          (
            path,
            (
              parts.0,
              (
                parsed,
                (
                  parse_device_path-IsInTree nfc equal_fold value path parsed,
                  (
                    rw is_parent at tree.1,
                    (
                      sym is_parent ∙ tree.0,
                      (
                        ap (λ n. parts.0 ++ (47 ∷ n)) (sym is_name) ∙ cut_last-spells path parts e,
                        rw is_name at behind,
                      ),
                    ),
                  ),
                ),
              ),
            ),
          )
    ]
