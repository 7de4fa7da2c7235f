-- ===== src/Client/Uploads.antt =====
-- write.go: uploading the content of a PDF, and the two calls that verify it. The source is its content with
-- what its seeks and reads answer; the multipart body and the JSON of the answer are a parameter. What a Go
-- call returns beside an error is left out.
pub mod Verified
use dpwire.Prelude.{
  ℕ, Bool, true, false, not, ◌&&◌, ◌||◌, ◌==◌, ◌^◌, List, [], ◌∷◌, Bytes, codes, bytes_eq, ◌++◌,
  if◌then◌else◌, ltb, length, take, Option, none, some, Result, ok, err,
}
use dpwire.Decimal.{ℤ, pos, negsuc, atoi, itoa, format_nat}
use dpwire.Entries.{Entry, validate_id, validate_entry_name}
use dpwire.Client.Errors.{
  WireError, ClientError, verification, partial_failure, missing_revision, wire_failure,
}
use dpwire.Client.Calls.{
  Call, return, fail, ◌>>>=◌, Wire, Platform, publicly, valid_argument, get_document,
}
use dpwire.Client.Writes.{partially, create_metadata}

-- An io.ReadSeeker: whether its three seeks and its two reads succeed.
pub record Source : Type 0 where
  pub content : Bytes
  pub first_seek : Bool
  pub magic_read : Bool
  pub second_seek : Bool
  pub copied : Bool
  pub third_seek : Bool

pub record PreparedPdf : Type 0 where
  pub reader : Bytes
  pub size : ℕ
  pub hash : Bytes

abbrev pub max_document_size : ℕ
max_document_size = 2 ^ 30

-- `none` stands for a nil source.
unfoldable pub prepare_pdf : (Bytes → Bytes) → Option Source → Result ClientError PreparedPdf
prepare_pdf sha256_hex none = err (wire_failure (codes "dpwire: nil PDF source"))
prepare_pdf sha256_hex (some source) =
    if not source.first_seek
    then err (wire_failure (codes "dpwire: seek PDF"))
    else if not source.magic_read || not (bytes_eq (take 5 source.content) (codes "%PDF-"))
    then err (wire_failure (codes "dpwire: source is not a PDF"))
    else if not source.second_seek || not source.copied
    then err (wire_failure (codes "dpwire: read PDF"))
    else if ltb max_document_size (length source.content)
    then err (wire_failure (codes "dpwire: PDF exceeds limit"))
    else if not source.third_seek
    then err (wire_failure (codes "dpwire: seek PDF"))
    else ok (record {
      reader = source.content;
      size = length source.content;
      hash = sha256_hex source.content;
    })

-- The fields of the answer.
pub record UploadReply : Type 0 where
  pub received : Bytes
  pub current : Bytes
  pub complete : Bytes
  pub revision : Bytes

-- The answer's body: read and decoded, or not.
pub data ReplyBody : Type 0 where
  unread too_long undecoded : ReplyBody
  decoded_body : UploadReply → ReplyBody

pub record UploadResult : Type 0 where
  pub received_bytes : ℤ
  pub current_bytes : ℤ
  pub completed : Bool
  pub revision : Bytes
  pub sha256 : Bytes

-- `value == int64(size)`
is_size : ℤ → ℕ → Bool
is_size (pos n) size = n == size
is_size (negsuc n) size = false

-- The part of upload behind `json.Unmarshal`.
unfoldable pub check_reply : PreparedPdf → UploadReply → Result ClientError UploadResult
unfolding is_size
check_reply prepared reply =
    let received = atoi reply.received in
    let current = atoi reply.current in
    if not received.good
    then err (wire_failure (codes "dpwire: invalid received_bytes"))
    else if not current.good
    then err (wire_failure (codes "dpwire: invalid current_bytes"))
    else if not (bytes_eq reply.complete (codes "yes"))
        || (not (is_size received.value prepared.size)
            || (not (is_size current.value prepared.size) || bytes_eq reply.revision []))
    then err (
        verification (codes "upload result")
          (format_nat prepared.size
            ++ codes "/"
            ++ format_nat prepared.size
            ++ codes "/yes/revision")
          (itoa received.value
            ++ codes "/"
            ++ itoa current.value
            ++ codes "/"
            ++ reply.complete
            ++ codes "/"
            ++ reply.revision))
    else ok (record {
      received_bytes = received.value;
      current_bytes = current.value;
      completed = true;
      revision = reply.revision;
      sha256 = prepared.hash;
    })

unfoldable pub check_body : PreparedPdf → ReplyBody → Result ClientError UploadResult
check_body prepared unread = err (wire_failure (codes "dpwire: read upload response"))
check_body prepared too_long = err (wire_failure (codes "dpwire: upload response exceeds limit"))
check_body prepared undecoded = err (wire_failure (codes "dpwire: decode upload response"))
check_body prepared (decoded_body reply) = check_reply prepared reply

lifted : {W A : Type 0} → Result ClientError A → Call W A
lifted r w = (r, w)

-- DoMedia with the multipart body: the endpoint, the target revision, the file's name and its content.
abbrev pub PutPdf : Type 0 → Type 0
PutPdf W = Bytes → Option Bytes → Bytes → Bytes → W → Result WireError ReplyBody × W

module _ {W : Type 0} (platform : Platform) (wire : Wire W) (put_pdf : PutPdf W)
    (sha256_hex : Bytes → Bytes) where
  unfoldable pub upload : Bytes → Bytes → PreparedPdf → Bytes → Call W UploadResult
  unfolding lifted
  upload id filename prepared target_revision = valid_argument (validate_id id) >>>= λ u.
      valid_argument (validate_entry_name platform.nfc filename true) >>>= λ name.
      publicly (
        put_pdf (codes "/documents/" ++ platform.path_escape id ++ codes "/file")
          (if bytes_eq target_revision [] then none else some target_revision) name prepared.reader)
      >>>= λ body. lifted (check_body prepared body)

  -- The tests of CreateAndUpload on the entry that the device shows afterwards.
  unfoldable pub verify_uploaded :
      PreparedPdf → UploadResult → Entry → Call W (Entry × UploadResult)
  verify_uploaded prepared result verified =
      if not (bytes_eq verified.size (format_nat prepared.size))
      then fail (verification (codes "file_size") (format_nat prepared.size) verified.size)
      else if bytes_eq result.revision [] || not (bytes_eq verified.revision result.revision)
      then fail (verification (codes "file_revision") result.revision verified.revision)
      else return (verified, result)

  unfoldable pub create_and_upload : Bytes → Bytes → Option Source → Call W (Entry × UploadResult)
  unfolding lifted partially
  create_and_upload parent_id filename source =
      lifted (prepare_pdf sha256_hex source) >>>= λ prepared.
      create_metadata platform wire parent_id filename >>>= λ entry.
      (λ w. partially (codes "create-and-upload") entry.id (upload entry.id filename prepared [] w))
      >>>= λ result w. partially (codes "post-upload verification") entry.id (
          (get_document platform wire entry.id >>>= λ verified.
          verify_uploaded prepared result verified)
            w)

  unfoldable pub verify_replaced :
      PreparedPdf → UploadResult → Entry → Call W (Entry × UploadResult)
  verify_replaced prepared result entry =
      if not (bytes_eq entry.size (format_nat prepared.size))
        || not (bytes_eq entry.revision result.revision)
      then fail (
          verification (codes "replacement metadata")
            (format_nat prepared.size ++ codes "/" ++ result.revision)
            (entry.size ++ codes "/" ++ entry.revision))
      else return (entry, result)

  unfoldable pub replace : Bytes → Bytes → Bytes → Option Source → Call W (Entry × UploadResult)
  unfolding lifted
  replace id filename target_revision source =
      if bytes_eq target_revision []
      then fail missing_revision
      else lifted (prepare_pdf sha256_hex source) >>>= λ prepared.
          upload id filename prepared target_revision >>>= λ result.
          get_document platform wire id >>>= λ entry. verify_replaced prepared result entry
