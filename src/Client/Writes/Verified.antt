-- ===== src/Client/Writes/Verified.antt =====
-- What a write that returns an entry has seen.
use dpwire.Prelude.{
  ◌≡◌, ◌≢◌, sym, ap, ◌∙◌, true, false, not, ◌&&◌, [], Bytes, codes, bytes_eq, bytes_eq_iff, inl,
  inr, Bool-cases, Result, ok, err, ok-injective, arith,
}
use mathlib.Core.Path.{ap₂}
use dpwire.Entries.{Entry, validate_id}
use dpwire.Client.Errors.{ClientError}
use dpwire.Client.Calls.{Call, ◌>>>=◌, Wire, Platform, valid_argument, get_document, get_folder}
use dpwire.Prelude.{effect_ok}
use dpwire.Client.Writes.{
  parent_change, name_change, verify_update, send_update, update_folder, update_document,
}

-- The device showed `entry` in the end, with the parent and the name that were asked for.
pub record IsUpdated {W : Type 0} (nfc : Bytes → Bytes) (lookup : Call W Entry)
    (parent_id new_name : Bytes) (entry : Entry) (end : W) : Type 0 where
  before : W
  shown : lookup before ≡ (ok entry, end)
  parent : parent_id ≢ [] → entry.parent_folder_id ≡ parent_id
  name : new_name ≢ [] → entry.name ≡ nfc new_name

agrees :
    (wanted seen value : Bytes)
    → (not (bytes_eq wanted []) && not (bytes_eq seen value)) ≡ false
    → wanted ≢ []
    → seen ≡ value
agrees wanted seen value h asked = elim (Bool-cases (bytes_eq wanted [])) [
  | inl e ↦ absurd (asked ((bytes_eq_iff wanted []).0 e))
  | inr e ↦ ground (arith, bytes_eq_iff seen value)
]

module _ {W : Type 0} (platform : Platform) (wire : Wire W) where
  verify_update-Asked :
      (key parent_id new_name : Bytes) (seen entry : Entry) (w end : W)
      → verify_update platform wire key parent_id new_name seen w ≡ (ok entry, end)
      → (seen ≡ entry)
        × ((w ≡ end)
            × ((parent_id ≢ [] → seen.parent_folder_id ≡ parent_id)
                × (new_name ≢ [] → seen.name ≡ platform.nfc new_name)))
  unfolding verify_update
  verify_update-Asked key parent_id new_name seen entry w end h =
      let other_parent =
        not (bytes_eq parent_id []) && not (bytes_eq seen.parent_folder_id parent_id) in
      let other_name =
        not (bytes_eq new_name []) && not (bytes_eq seen.name (platform.nfc new_name)) in
      elim (Bool-cases other_parent) [
        | inl e ↦
            let bad : ◌≡◌ {A = Result ClientError Entry} (err _) (ok entry) =
              ap (λ r. r.0) (rw (verify_update, e) at h) in
            ground arith
        | inr same_parent ↦ elim (Bool-cases other_name) [
          | inl e ↦
              let bad : ◌≡◌ {A = Result ClientError Entry} (err _) (ok entry) =
                ap (λ r. r.0) (rw (verify_update, same_parent, e) at h) in
              ground arith
          | inr same_name ↦
              let done : ◌≡◌ {A = Result ClientError Entry × W} (ok seen, w) (ok entry, end) =
                rw (verify_update, same_parent, same_name) at h in
              (
                ok-injective (ap (λ r. r.0) done),
                (
                  ap (λ r. r.1) done,
                  (
                    agrees parent_id seen.parent_folder_id parent_id same_parent,
                    agrees new_name seen.name (platform.nfc new_name) same_name,
                  ),
                ),
              )
        ]
      ]

  verified-IsUpdated :
      (lookup : Call W Entry) (key parent_id new_name : Bytes) (entry : Entry) (w end : W)
      → (lookup >>>= λ seen. verify_update platform wire key parent_id new_name seen) w
        ≡ (ok entry, end)
      → IsUpdated platform.nfc lookup parent_id new_name entry end
  verified-IsUpdated lookup key parent_id new_name entry w end h =
      let (seen, (later, (shown, tested))) =
        effect_ok lookup (verify_update platform wire key parent_id new_name) w entry end h in
      let (same, (last, (parent, name))) =
        verify_update-Asked key parent_id new_name seen entry later end tested in
      record {
        before = w;
        shown = shown ∙ ap₂ (λ e s. (ok e, s)) same last;
        parent = λ asked. ap (λ e. e.parent_folder_id) (sym same) ∙ parent asked;
        name = λ asked. ap (λ e. e.name) (sym same) ∙ name asked;
      }

-- A document update that returns an entry returns what the device showed last, with the parent folder that
-- was asked for, if one was, and the normal form of the name that was asked for, if one was.
pub update_document-IsUpdated :
    {W : Type 0} (platform : Platform) (wire : Wire W) (id parent_id new_name : Bytes)
    (entry : Entry) (w end : W)
    → update_document platform wire id parent_id new_name w ≡ (ok entry, end)
    → IsUpdated platform.nfc (get_document platform wire id) parent_id new_name entry end
unfolding update_document
update_document-IsUpdated platform wire id parent_id new_name entry w end h =
    let (a, (w1, (e1, h1))) = effect_ok (valid_argument (validate_id id)) _ w entry end h in
    let (b, (w2, (e2, h2))) = effect_ok (parent_change platform wire parent_id) _ w1 entry end h1 in
    let (c, (w3, (e3, h3))) =
      effect_ok (name_change platform wire (codes "file_name") true new_name) _ w2 entry end h2 in
    let (d, (w4, (e4, h4))) = effect_ok (send_update platform wire _ _) _ w3 entry end h3 in
    verified-IsUpdated platform wire (get_document platform wire id) (codes "file_name") parent_id
      new_name entry w4 end h4

-- A folder update that returns an entry returns what the device showed last, with the parent folder that
-- was asked for, if one was, and the normal form of the name that was asked for, if one was.
pub update_folder-IsUpdated :
    {W : Type 0} (platform : Platform) (wire : Wire W) (id parent_id new_name : Bytes)
    (entry : Entry) (w end : W)
    → update_folder platform wire id parent_id new_name w ≡ (ok entry, end)
    → IsUpdated platform.nfc (get_folder platform wire id) parent_id new_name entry end
unfolding update_folder
update_folder-IsUpdated platform wire id parent_id new_name entry w end h =
    let (a, (w1, (e1, h1))) = effect_ok (valid_argument (validate_id id)) _ w entry end h in
    let (b, (w2, (e2, h2))) = effect_ok (parent_change platform wire parent_id) _ w1 entry end h1 in
    let (c, (w3, (e3, h3))) =
      effect_ok (name_change platform wire (codes "folder_name") false new_name) _ w2 entry end
        h2 in
    let (d, (w4, (e4, h4))) = effect_ok (send_update platform wire _ _) _ w3 entry end h3 in
    verified-IsUpdated platform wire (get_folder platform wire id) (codes "folder_name") parent_id
      new_name entry w4 end h4
