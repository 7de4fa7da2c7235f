-- ===== src/Client/Uploads/Verified.antt =====
-- What an upload that returns no error has seen.
use dpwire.Prelude.{
  ◌≡◌, ◌≢◌, refl, sym, ap, ◌∙◌, true, false, not, ◌||◌, inl, inr, [], ◌++◌, codes, Bytes, bytes_eq,
  bytes_eq_iff, length, Option, none, some, if◌then◌else◌, Bool-cases, ||-false, Result, ok, err,
  ok-injective, arith,
}
use mathlib.Core.Path.{ap₂}
use dpwire.Decimal.{format_nat}
use dpwire.Entries.{Entry, validate_id, validate_entry_name}
use dpwire.Client.Errors.{ClientError, missing_revision}
use dpwire.Client.Calls.{
  Call, ◌>>>=◌, Wire, Platform, get_document, publicly, publicly_ok, valid_argument,
  valid_argument_ok,
}
use dpwire.Prelude.{effect_ok}
use dpwire.Client.Uploads.{
  Source, PreparedPdf, UploadReply, ReplyBody, unread, too_long, undecoded, decoded_body,
  check_reply, check_body, UploadResult, PutPdf, prepare_pdf, lifted, upload, verify_replaced,
  replace,
}

-- The device answered the upload that it is complete, and then, asked in the state `before` that the upload
-- left, showed `entry` with the size of the content and the revision of that answer, which is returned.
pub record IsStored {W : Type 0} (lookup : Call W Entry) (content : Bytes) (reply : UploadReply)
    (entry : Entry) (result : UploadResult) (before end : W) : Type 0 where
  complete : reply.complete ≡ codes "yes"
  named : reply.revision ≢ []
  shown : lookup before ≡ (ok entry, end)
  size : entry.size ≡ format_nat (length content)
  revision : entry.revision ≡ reply.revision
  returned : result.revision ≡ reply.revision

check_reply_ok :
    (prepared : PreparedPdf) (reply : UploadReply) (result : UploadResult)
    → check_reply prepared reply ≡ ok result
    → (reply.complete ≡ codes "yes") × ((reply.revision ≢ []) × (result.revision ≡ reply.revision))
unfolding check_reply
check_reply_ok prepared reply result h = (
  ground (arith, h, bytes_eq_iff reply.complete (codes "yes")),
  (λ e. ground (arith, h, (bytes_eq_iff reply.revision []).1 e), ground (arith, h)),
)

-- The body of an accepted answer is decoded and passes the tests.
check_body_ok :
    (prepared : PreparedPdf) (body : ReplyBody) (result : UploadResult)
    → check_body prepared body ≡ ok result
    → (reply : UploadReply) × ((body ≡ decoded_body reply)
        × (check_reply prepared reply ≡ ok result))
unfolding check_body
check_body_ok prepared unread result h = ground arith
check_body_ok prepared too_long result h = ground arith
check_body_ok prepared undecoded result h = ground arith
check_body_ok prepared (decoded_body reply) result h = (reply, (refl, h))

module _ {W : Type 0} (platform : Platform) (wire : Wire W) (put_pdf : PutPdf W)
    (sha256_hex : Bytes → Bytes) where
  prepare_pdf-size :
      (source : Source) (prepared : PreparedPdf)
      → prepare_pdf sha256_hex (some source) ≡ ok prepared
      → (prepared.size ≡ length source.content) × (prepared.reader ≡ source.content)
  unfolding prepare_pdf
  prepare_pdf-size source prepared h = (ground arith, ground arith)

  -- The request of an upload that has succeeded, and its answer.
  upload-Answered :
      (id filename target : Bytes) (prepared : PreparedPdf) (result : UploadResult) (w later : W)
      → target ≢ []
      → upload platform wire put_pdf sha256_hex id filename prepared target w ≡ (ok result, later)
      → (name : Bytes) × ((reply : UploadReply) × ((validate_entry_name platform.nfc filename true
              ≡ ok name)
            × ((put_pdf
                    (codes "/documents/" ++ platform.path_escape id ++ codes "/file")
                    (some target)
                    name
                    prepared.reader
                    w
                  ≡ (ok (decoded_body reply), later))
                × (check_reply prepared reply ≡ ok result))))
  unfolding upload lifted
  upload-Answered id filename target prepared result w later given h =
      let (u, (w1, (e1, h1))) = effect_ok (valid_argument (validate_id id)) _ w result later h in
      let (name, (w2, (e2, h2))) =
        effect_ok (valid_argument (validate_entry_name platform.nfc filename true)) _ w1 result
          later h1 in
      let (body, (w3, (e3, h3))) = effect_ok (publicly (put_pdf _ _ _ _)) _ w2 result later h2 in
      let same = (valid_argument_ok _ w u w1 e1).1 ∙ (valid_argument_ok _ w1 name w2 e2).1 in
      let (reply, (is_reply, checked)) = check_body_ok prepared body result (ap (λ r. r.0) h3) in
      let named : bytes_eq target [] ≡ false = ground (arith, bytes_eq_iff target []) in
      let request = λ (t : Option Bytes).
        put_pdf (codes "/documents/" ++ platform.path_escape id ++ codes "/file") t name
          prepared.reader in
      let asked =
        publicly_ok (request (if bytes_eq target [] then none else some target)) w2 body w3 e3 in
      (
        name,
        (
          reply,
          (
            (valid_argument_ok _ w1 name w2 e2).0,
            (
              ap (request (some target)) same
                  ∙ sym (ap (λ b. request (if b then none else some target) w2) named)
                  ∙ asked
                  ∙ ap₂ (λ x s. (ok x, s)) is_reply (ap (λ r. r.1) h3),
              checked,
            ),
          ),
        ),
      )

  verify_replaced-Asked :
      (prepared : PreparedPdf) (result : UploadResult) (seen : Entry) (out : Entry × UploadResult)
      (w end : W)
      → verify_replaced platform wire put_pdf sha256_hex prepared result seen w ≡ (ok out, end)
      → (seen ≡ out.0)
        × ((result ≡ out.1)
            × ((w ≡ end)
                × ((seen.size ≡ format_nat prepared.size) × (seen.revision ≡ result.revision))))
  unfolding verify_replaced
  verify_replaced-Asked prepared result seen out w end h =
      let other =
        not (bytes_eq seen.size (format_nat prepared.size))
        || not (bytes_eq seen.revision result.revision) in
      elim (Bool-cases other) [
        | inl e ↦
            let bad : ◌≡◌ {A = Result ClientError (Entry × UploadResult)} (err _) (ok out) =
              ap (λ r. r.0) (rw (verify_replaced, e) at h) in
            ground arith
        | inr agreed ↦
            let done : ◌≡◌ {A = Result ClientError (Entry × UploadResult) × W}
                (ok (seen, result), w) (ok out, end) =
              rw (verify_replaced, agreed) at h in
            let same = ok-injective (ap (λ r. r.0) done) in
            let both =
              ||-false (not (bytes_eq seen.size (format_nat prepared.size)))
                (not (bytes_eq seen.revision result.revision)) agreed in
            (
              ap (λ o. o.0) same,
              (
                ap (λ o. o.1) same,
                (
                  ap (λ r. r.1) done,
                  (
                    ground (arith, both.0, bytes_eq_iff seen.size (format_nat prepared.size)),
                    ground (arith, both.1, bytes_eq_iff seen.revision result.revision),
                  ),
                ),
              ),
            )
      ]

  replaced-IsStored :
      (source : Source) (prepared : PreparedPdf) (reply : UploadReply) (result : UploadResult)
      (lookup : Call W Entry) (out : Entry × UploadResult) (w end : W)
      → prepared.size ≡ length source.content
      → check_reply prepared reply ≡ ok result
      → (lookup >>>= λ seen. verify_replaced platform wire put_pdf sha256_hex prepared result seen)
          w
        ≡ (ok out, end)
      → IsStored lookup source.content reply out.0 out.1 w end
  replaced-IsStored source prepared reply result lookup out w end measured checked h =
      let (seen, (later, (shown, tested))) =
        effect_ok lookup (verify_replaced platform wire put_pdf sha256_hex prepared result) w out
          end h in
      let (same, (answer, (last, (size, revision)))) =
        verify_replaced-Asked prepared result seen out later end tested in
      let (complete, (named, returned)) = check_reply_ok prepared reply result checked in
      record {
        complete = complete;
        named = named;
        shown = shown ∙ ap₂ (λ x s. (ok x, s)) same last;
        size = ap (λ x. x.size) (sym same) ∙ size ∙ ap format_nat measured;
        revision = ap (λ x. x.revision) (sym same) ∙ revision ∙ returned;
        returned = ap (λ x. x.revision) (sym answer) ∙ returned;
      }

-- Replace returns an entry and a result only if a target revision was given and the device accepted the upload
-- of the whole content with that revision and the normalized name, and answered that it is complete. Asked for
-- the document in the state that the upload left, the device then showed the entry, with the size of the
-- content and the revision of the upload's answer; the result has that revision too.
pub replace-IsStored :
    {W : Type 0} (platform : Platform) (wire : Wire W) (put_pdf : PutPdf W)
    (sha256_hex : Bytes → Bytes) (id filename target_revision : Bytes) (source : Source)
    (out : Entry × UploadResult) (w end : W)
    → replace platform wire put_pdf sha256_hex id filename target_revision (some source) w
      ≡ (ok out, end)
    → (target_revision ≢ [])
      × ((name : Bytes) × ((reply : UploadReply) × ((stored : W) × ((validate_entry_name
                    platform.nfc filename true
                  ≡ ok name)
                × ((put_pdf
                        (codes "/documents/" ++ platform.path_escape id ++ codes "/file")
                        (some target_revision)
                        name
                        source.content
                        w
                      ≡ (ok (decoded_body reply), stored))
                    × IsStored
                        (get_document platform wire id)
                        source.content
                        reply
                        out.0
                        out.1
                        stored
                        end)))))
unfolding replace lifted
replace-IsStored platform wire put_pdf sha256_hex id filename target_revision source out w end h =
    elim (Bool-cases (bytes_eq target_revision [])) [
      | inl empty ↦
          let bad : ◌≡◌ {A = Result ClientError (Entry × UploadResult)} (err missing_revision)
              (ok out) =
            ap (λ r. r.0) (rw (replace, empty) at h) in
          ground arith
      | inr given ↦
          let (prepared, (w1, (e1, h1))) =
            effect_ok (lifted (prepare_pdf sha256_hex (some source))) _ w out end
              (rw (replace, given) at h) in
          let (result, (w2, (e2, h2))) =
            effect_ok (upload platform wire put_pdf sha256_hex id filename prepared target_revision)
              _ w1 out end h1 in
          let is_given : target_revision ≢ [] =
            λ e. ground (arith, (bytes_eq_iff target_revision []).1 e) in
          let ready =
            prepare_pdf-size platform wire put_pdf sha256_hex source prepared (ap (λ r. r.0) e1) in
          let (name, (reply, (is_name, (asked, checked)))) =
            upload-Answered platform wire put_pdf sha256_hex id filename target_revision prepared
              result w1 w2 is_given e2 in
          let request =
            put_pdf (codes "/documents/" ++ platform.path_escape id ++ codes "/file")
              (some target_revision) name in
          (
            is_given,
            (
              name,
              (
                reply,
                (
                  w2,
                  (
                    is_name,
                    (
                      ap₂ request (sym ready.1) (ap (λ r. r.1) e1) ∙ asked,
                      replaced-IsStored platform wire put_pdf sha256_hex source prepared reply
                          result (get_document platform wire id) out w2 end ready.0 checked h2,
                    ),
                  ),
                ),
              ),
            ),
          )
    ]
