-- ===== src/Emulator/Requests.antt =====
-- dptest/emulator.go: a request, as the handler reads it, and what it answers; decodeRequest and
-- readMultipartPDF.
use dpwire.Prelude.{
  ℕ, ◌^◌, Bool, true, false, not, List, [], ◌∷◌, Bytes, codes, bytes_eq, length, ltb, if◌then◌else◌,
  Option, none, some, Result, ok, err,
}
use dpwire.Device.State.{State, Document, StateError}
use dpwire.Emulator.Listing.{Page}
use dpwire.Emulator.Auth.{Response, AuthRequest, reply, failure, write_state_error}

-- A part of a multipart body: its form name and what reading it gives; `none` is an error of the reader.
pub record Part : Type 0 where
  pub form_name : Bytes
  pub content : Option Bytes

-- `http.Request`. The values of its URL query and of its JSON body stand as functions; `now` and `random` are
-- what the clock and the random source give while it is served.
pub record Request : Type 0 where
  pub method : Bytes
  pub path : Bytes
  pub query : Bytes → Option Bytes
  -- the values of the Cookie headers
  pub cookies : List Bytes
  pub accept : Bytes
  -- the body as an object of no other string fields than those named, empty where one is missing
  pub json : List Bytes → Option (Bytes → Bytes)
  pub auth_json : Option AuthRequest
  -- the parts of a multipart body
  pub parts : Option (List Part)
  pub now : Bytes
  pub random : Option Bytes

pub data Answer : Type 0 where
  object : Response → Answer
  one_entry : Document → Answer
  entry_page : Page Document → Answer
  pdf_file : Bytes → Bytes → Answer
  fault_body : ℕ → Bytes → Answer

abbrev pub no_content : Answer
no_content = object (reply 204 [])

-- `r.URL.Query().Get(key)`
abbrev pub or_empty : Option Bytes → Bytes
or_empty none = []
or_empty (some value) = value

abbrev pub query_value : Request → Bytes → Bytes
query_value r key = or_empty (r.query key)

abbrev pub is_present : Option Bytes → Bool
is_present none = false
is_present (some value) = true

-- The field names of a JSON object; decodeRequest refuses any other.
unfoldable pub with_fields :
    Request → List Bytes → State → ((Bytes → Bytes) → Answer × State) → Answer × State
with_fields r names s handle = elim (r.json names) [
  | none ↦ (object (failure 400 (codes "40001") (codes "invalid request")), s)
  | some fields ↦ handle fields
]

-- `if err != nil { writeStateError(w, err); return }`
unfoldable pub answered_by :
    {A : Type 0} → (A → Answer) → Result StateError A × State → Answer × State
answered_by f (ok a, s) = (f a, s)
answered_by f (err e, s) = (object (write_state_error e), s)

abbrev file_part_required : Response
file_part_required = failure 400 (codes "40010") (codes "file part required")

-- Nothing may follow the file: the next part is `io.EOF`.
end_of_parts : Bytes → List Part → Result Response Bytes
end_of_parts content [] = ok content
end_of_parts content (part ∷ parts) =
    err (failure 400 (codes "40011") (codes "unexpected multipart part"))

read_part : Part → List Part → Result Response Bytes
unfolding end_of_parts
read_part part parts =
    if not (bytes_eq part.form_name (codes "file"))
    then err file_part_required
    else elim part.content [
      | none ↦ err (failure 413 (codes "50701") (codes "file too large"))
      | some content ↦
          if ltb (2 ^ 30) (length content)
          then err (failure 413 (codes "50701") (codes "file too large"))
          else end_of_parts content parts
    ]

unfoldable pub read_multipart_pdf : Option (List Part) → Result Response Bytes
unfolding read_part
read_multipart_pdf none = err (failure 400 (codes "40010") (codes "multipart file required"))
read_multipart_pdf (some []) = err file_part_required
read_multipart_pdf (some (part ∷ parts)) = read_part part parts
