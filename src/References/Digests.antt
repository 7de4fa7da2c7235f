-- ===== src/References/Digests.antt =====
-- profiles/object_references.go: references, which shortens each digest to what its neighbours in the
-- sorted order leave ambiguous.
use dpwire.Prelude.{
  ℕ, ◌+◌, max, Option, none, some, List, [], ◌∷◌, ◌++◌, Bytes, codes, ltb, ◌==◌, take,
  if◌then◌else◌,
}
use dpwire.Prelude.Dict.{Dict, insert}
use dpwire.Device.State.{bytes_lt}
use dpwire.References.File.{ObjectReference, ReferenceRecord}

abbrev pub minimum_hex_digits : ℕ
minimum_hex_digits = 6

-- The digits of a SHA-256 digest: `sha256.Size * 2`.
abbrev pub digest_digits : ℕ
digest_digits = 64

pub record DigestRecord : Type 0 where
  pub entry : ReferenceRecord
  pub digest : Bytes

unfoldable pub common_prefix_length : Bytes → Bytes → ℕ
common_prefix_length [] right = 0
common_prefix_length (l ∷ ls) [] = 0
common_prefix_length (l ∷ ls) (r ∷ rs) =
    let rest = common_prefix_length ls rs in if l == r then rest + 1 else 0

unfoldable pub insert_by_digest : DigestRecord → List DigestRecord → List DigestRecord
insert_by_digest d [] = d ∷ []
insert_by_digest d (e ∷ es) =
    let rest = insert_by_digest d es in if bytes_lt e.digest d.digest then e ∷ rest else d ∷ e ∷ es

unfoldable pub ordered : (Bytes → Bytes) → List ReferenceRecord → List DigestRecord
ordered digest [] = []
ordered digest (r ∷ rs) =
    insert_by_digest (record { entry = r; digest = digest r.device_id }) (ordered digest rs)

abbrev pub beyond : Bytes → Option Bytes → ℕ
beyond digest none = minimum_hex_digits
beyond digest (some other) = common_prefix_length digest other + 1

-- The digits that tell a digest from the one before it and the one after it.
unfoldable pub digits_needed : Option Bytes → Bytes → Option Bytes → ℕ
digits_needed before digest after =
    let digits = max (max minimum_hex_digits (beyond digest before)) (beyond digest after) in
    if ltb digest_digits digits then digest_digits else digits

abbrev pub digest_of : List DigestRecord → Option Bytes
digest_of [] = none
digest_of (d ∷ ds) = some d.digest

unfoldable pub shorten : Option Bytes → DigestRecord → Option Bytes → ObjectReference
shorten before d after = record {
  number = d.entry.number;
  hex = codes "0x" ++ take (digits_needed before d.digest after) d.digest;
  device_id = d.entry.device_id;
  type = d.entry.type;
}

-- The map by device ID, filled in the order of the digests.
collect : Option Bytes → List DigestRecord → Dict ObjectReference → Dict ObjectReference
collect before [] m = m
collect before (d ∷ ds) m =
    collect (some d.digest) ds (insert d.entry.device_id (shorten before d (digest_of ds)) m)

-- `digest` is the hexadecimal SHA-256 digest of an ID.
unfoldable pub references : (Bytes → Bytes) → List ReferenceRecord → Dict ObjectReference
unfolding collect shorten
references digest records = collect none (ordered digest records) []
