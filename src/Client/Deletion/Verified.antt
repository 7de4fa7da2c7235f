-- ===== src/Client/Deletion/Verified.antt =====
-- What a deletion that returns no error has seen.
use dpwire.Prelude.{
  ◌≡◌, refl, ap, inl, inr, [], ◌∷◌, ◌++◌, Bytes, codes, bytes_eq, ◌==◌, some, Option-cases, Result,
  ok, err, Bool-cases, ==_iff, bytes_eq_iff, ◌≢◌, arith,
}
use mathlib.Core.Path.{ap₂, ◌∙◌}
use dpwire.Entries.{Entry, validate_id}
use dpwire.Client.Errors.{ApiError, ClientError, missing_revision}
use dpwire.Client.Calls.{
  Call, Wire, Platform, http_delete, publicly, publicly_ok, valid_argument, valid_argument_ok,
  api_error_of, get_document,
}
use dpwire.Prelude.{effect_ok}
use dpwire.Client.Deletion.{verify_deleted, lookup_deleted, delete}

-- A lookup that the device answers with status 404.
pub record IsAbsent {W : Type 0} (lookup : Call W Entry) (before end : W) : Type 0 where
  error : ClientError
  api : ApiError
  looked_up : lookup before ≡ (err error, end)
  cause : api_error_of error ≡ some api
  not_found : api.status_code ≡ 404

verify_deleted-NotFound :
    (kind id : Bytes) (answer : Result ClientError Entry)
    → verify_deleted kind id answer ≡ ok tt
    → (e : ClientError) × ((api : ApiError) × ((answer ≡ err e)
          × ((api_error_of e ≡ some api) × (api.status_code ≡ 404))))
unfolding verify_deleted
verify_deleted-NotFound kind id (ok entry) h = ground arith
verify_deleted-NotFound kind id (err e) h = elim (Option-cases (api_error_of e)) [
  | inl absent ↦
      let bad : ◌≡◌ {A = Result ClientError (Unit {0})} (err _) (ok tt) =
        rw (verify_deleted, absent) at h in
      ground arith
  | inr (api, found) ↦ elim (Bool-cases (api.status_code == 404)) [
    | inl same ↦ (e, (api, (refl, (found, (==_iff api.status_code 404).0 same))))
    | inr other ↦
        let bad : ◌≡◌ {A = Result ClientError (Unit {0})} (err _) (ok tt) =
          rw (verify_deleted, found, other) at h in
        ground arith
  ]
]

lookup_deleted-IsAbsent :
    {W : Type 0} (kind id : Bytes) (lookup : Call W Entry) (w end : W)
    → lookup_deleted kind id lookup w ≡ (ok tt, end)
    → IsAbsent lookup w end
unfolding lookup_deleted
lookup_deleted-IsAbsent kind id lookup w end h =
    let (e, (api, (missing, (cause, status)))) =
      verify_deleted-NotFound kind id (lookup w).0 (ap (λ r. r.0) h) in
    record {
      error = e;
      api = api;
      looked_up = ap₂ (λ r s. (r, s)) missing (ap (λ r. r.1) h);
      cause = cause;
      not_found = status;
    }

-- Delete returns no error only if the target revision was given, the device accepted the request to delete the
-- document at that revision, and, asked for the document in the state that this request left, answered with
-- status 404; nothing is requested after that lookup.
pub delete-IsAbsent :
    {W : Type 0} (platform : Platform) (wire : Wire W) (id target_revision : Bytes) (w end : W)
    → delete platform wire id target_revision w ≡ (ok tt, end)
    → (target_revision ≢ [])
      × ((requested : W) × ((wire.send http_delete
                (codes "/documents/" ++ platform.path_escape id)
                ((codes "target_revision", target_revision) ∷ [])
                w
              ≡ (ok tt, requested))
            × IsAbsent (get_document platform wire id) requested end))
unfolding delete
delete-IsAbsent platform wire id target_revision w end h =
    let (u, (checked, (valid, rest))) = effect_ok (valid_argument (validate_id id)) _ w tt end h in
    elim (Bool-cases (bytes_eq target_revision [])) [
      | inl empty ↦
          let bad : ◌≡◌ {A = Result ClientError (Unit {0})} (err missing_revision) (ok tt) =
            ap (λ r. r.0) (rw empty at rest) in
          ground arith
      | inr given ↦
          let (v, (sent, (requested, looked))) =
            effect_ok (publicly (wire.send _ _ _)) _ checked tt end (rw given at rest) in
          let same = (valid_argument_ok (validate_id id) w u checked valid).1 in
          let request =
            wire.send http_delete (codes "/documents/" ++ platform.path_escape id)
              ((codes "target_revision", target_revision) ∷ []) in
          let asked = publicly_ok request checked v sent requested in
          (
            λ e. ground (arith, (bytes_eq_iff target_revision []).1 e),
            (
              sent,
              (
                ap request same ∙ asked,
                lookup_deleted-IsAbsent (codes "document") id _ sent end looked,
              ),
            ),
          )
    ]
