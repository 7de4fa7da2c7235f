-- ===== src/RemotePath.antt =====
-- remote_path.go: paths of the device's document tree. NFC normalization (golang.org/x/text) is a parameter.
use dpwire.Prelude.{
  ◌≡◌, ◌≢◌, refl, sym, ap, ◌∙◌, All, bytes_eq_iff, Bool, true, false, not, ◌||◌, List, [], ◌∷◌,
  Bytes, codes, bytes_eq, has_prefix, has_suffix, contains_any, all, arith, if◌then◌else◌, Option,
  some, none, Result, ok, err,
}
use dpwire.Unicode.{valid_string, contains_control}
use dpwire.Segments.{split, join, join-split, NoSlash, split-NoSlash}

pub data PathError : Type 0 where
  not_utf8 control_character backslash malformed wrong_root bad_segment : PathError

-- A parsed path is a string; the zero value is the empty one.
abbrev pub RemotePath : Type 0
RemotePath = Bytes

-- `segment == "" || segment == "." || segment == ".."`
unfoldable pub is_bad_segment : Bytes → Bool
is_bad_segment s = bytes_eq s [] || (bytes_eq s (codes ".") || bytes_eq s (codes ".."))

unfoldable pub starts_at_root : List Bytes → Bool
starts_at_root [] = false
starts_at_root (s ∷ ss) = bytes_eq s (codes "Document")

-- What ParseRemotePath tests of the normalized value.
unfoldable pub check_segments : Bytes → Result PathError RemotePath
check_segments value =
    if bytes_eq value [] || (has_prefix value (codes "/") || has_suffix value (codes "/"))
    then err malformed
    else if not (starts_at_root (split value))
    then err wrong_root
    else if not (all (λ s. not (is_bad_segment s)) (split value))
    then err bad_segment
    else ok value

unfoldable pub parse_remote_path : (Bytes → Bytes) → Bytes → Result PathError RemotePath
parse_remote_path nfc value =
    if not (valid_string value)
    then err not_utf8
    else if contains_control value
    then err control_character
    else if contains_any value (codes "\\")
    then err backslash
    else check_segments (nfc value)

-- MarshalText, where `none` is the error for the zero path.
unfoldable pub marshal_text : RemotePath → Option Bytes
marshal_text p = if bytes_eq p [] then none else some p

-- The name of one step down the tree.
pub record IsStep (s : Bytes) : Type 0 where
  pub named : s ≢ []
  pub not_here : s ≢ codes "."
  pub not_above : s ≢ codes ".."
  pub one_step : NoSlash s

-- A path inside the tree: `Document`, and names of steps with a slash before each.
pub record IsInTree (p : RemotePath) : Type 0 where
  pub below : List Bytes
  pub spells : p ≡ join (codes "Document" ∷ below)
  pub steps : All IsStep below

good-IsStep : (s : Bytes) → is_bad_segment s ≡ false → NoSlash s → IsStep s
unfolding is_bad_segment
good-IsStep s h n = record {
  named = λ e. ground (arith, (bytes_eq_iff s []).1 e);
  not_here = λ e. ground (arith, (bytes_eq_iff s (codes ".")).1 e);
  not_above = λ e. ground (arith, (bytes_eq_iff s (codes "..")).1 e);
  one_step = n;
}

good-Steps :
    (ss : List Bytes) → all (λ s. not (is_bad_segment s)) ss ≡ true → All NoSlash ss → All IsStep ss
good-Steps [] h n = tt
good-Steps (s ∷ ss) h n = (good-IsStep s (ground arith) n.0, good-Steps ss (ground arith) n.1)

segments-IsInTree :
    (p : RemotePath) (ss : List Bytes)
    → join ss ≡ p
    → starts_at_root ss ≡ true
    → all (λ s. not (is_bad_segment s)) ss ≡ true
    → All NoSlash ss
    → IsInTree p
unfolding starts_at_root
segments-IsInTree p [] e root steps n = ground arith
segments-IsInTree p (s ∷ ss) e root steps n = record {
  below = ss;
  spells = sym e ∙ ap (λ x. join (x ∷ ss)) ((bytes_eq_iff s (codes "Document")).0 root);
  steps = good-Steps ss (ground arith) n.1;
}

check_segments-IsInTree : (v p : Bytes) → check_segments v ≡ ok p → (p ≡ v) × IsInTree p
unfolding check_segments
check_segments-IsInTree v p h =
    let same : v ≡ p = ground arith in
    let root : starts_at_root (split v) ≡ true = ground arith in
    let steps : all (λ s. not (is_bad_segment s)) (split v) ≡ true = ground arith in
    (sym same, segments-IsInTree p (split v) (join-split v ∙ same) root steps (split-NoSlash v))

check_segments-ne-nil : (v p : Bytes) → check_segments v ≡ ok p → bytes_eq v [] ≡ false
unfolding check_segments
check_segments-ne-nil v p h = ground arith

-- A path that ParseRemotePath accepts is the normal form of the input. It is `Document` and then names with
-- a slash before each, and no such name is empty, `.` or `..`, or has a slash in it.
pub parse_remote_path-IsInTree :
    (nfc : Bytes → Bytes) (v p : Bytes) → parse_remote_path nfc v ≡ ok p → (p ≡ nfc v) × IsInTree p
unfolding parse_remote_path
parse_remote_path-IsInTree nfc v p h = check_segments-IsInTree (nfc v) p (ground arith)

-- Unicode's normal form C: normalizing again changes nothing, and neither an invalid encoding, nor a
-- control character, nor a backslash appears by normalizing.
pub record IsNormalizer (nfc : Bytes → Bytes) : Type 0 where
  pub idempotent : (v : Bytes) → nfc (nfc v) ≡ nfc v
  pub keeps_utf8 : (v : Bytes) → valid_string v ≡ true → valid_string (nfc v) ≡ true
  pub keeps_controls :
      (v : Bytes)
      → valid_string v ≡ true
      → contains_control v ≡ false
      → contains_control (nfc v) ≡ false
  pub keeps_backslashes :
      (v : Bytes)
      → valid_string v ≡ true
      → contains_any v (codes "\\") ≡ false
      → contains_any (nfc v) (codes "\\") ≡ false

-- Parsing the text of a parsed path gives the path back, so that MarshalText and UnmarshalText round trip.
pub marshal_text-parse_remote_path :
    (nfc : Bytes → Bytes)
    → IsNormalizer nfc
    → (v p : Bytes) → parse_remote_path nfc v ≡ ok p
    → (marshal_text p ≡ some p) × (parse_remote_path nfc p ≡ ok p)
unfolding parse_remote_path marshal_text
marshal_text-parse_remote_path nfc n v p h =
    let utf8 : valid_string v ≡ true = ground arith in
    let clean : contains_control v ≡ false = ground arith in
    let forward : contains_any v (codes "\\") ≡ false = ground arith in
    let inside : check_segments (nfc v) ≡ ok p = ground arith in
    let same : p ≡ nfc v = (check_segments-IsInTree (nfc v) p inside).0 in
    let again : check_segments (nfc v) ≡ ok (nfc v) = rw same at inside in
    let printed : marshal_text (nfc v) ≡ some (nfc v) =
      rw (marshal_text, check_segments-ne-nil (nfc v) p inside) refl in
    let parsed : parse_remote_path nfc (nfc v) ≡ ok (nfc v) =
      rw
        (
          parse_remote_path,
          n.keeps_utf8 v utf8,
          n.keeps_controls v utf8 clean,
          n.keeps_backslashes v utf8 forward,
          n.idempotent v,
        )
        again in
    rw same (printed, parsed)
