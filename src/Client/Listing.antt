-- ===== src/Client/Listing.antt =====
-- listEntries of entries.go: one logical listing, page by page. The request is the parameter `get_page`, on
-- a state `W` of everything outside the client.
pub mod Complete
use dpwire.Prelude.{
  ℕ, zero, suc, ◌+◌, Bool, true, false, not, ◌||◌, List, [], ◌∷◌, ◌++◌, Bytes, codes, bytes_eq,
  contains_any, length, any, ltb, leb, if◌then◌else◌, Option, none, some, Result, ok, err, ◌>>=◌,
}
use dpwire.Decimal.{ℤ, pos, negsuc, format_nat}
use dpwire.Entries.{WireEntry, WireEntryList, Entry, EntryError, decode_entry}
use dpwire.Client.Errors.{
  WireError, ClientError, public_error, bad_entry, invalid_page_size, invalid_field, list_stopped,
}

pub record ListOptions : Type 0 where
  pub page_size : ℤ
  pub fields : List Bytes

-- The query of one request; an absent key is `none`.
pub record PageQuery : Type 0 where
  pub offset : Bytes
  pub limit : Bytes
  pub entry_type : Option Bytes
  pub fields : Option Bytes

-- `pageSize`, with the default for zero.
unfoldable pub checked_page_size : ℤ → Option ℕ
checked_page_size (negsuc n) = none
checked_page_size (pos zero) = some 100
checked_page_size (pos (suc n)) = if ltb 1000 (suc n) then none else some (suc n)

-- `field == "" || strings.ContainsAny(field, ",\r\n\x00")`
unfoldable pub is_bad_field : Bytes → Bool
is_bad_field f = bytes_eq f [] || contains_any f (44 ∷ 13 ∷ 10 ∷ 0 ∷ [])

-- `strings.Join(fields, ",")`
join_fields : List Bytes → Bytes
join_fields [] = []
join_fields (f ∷ []) = f
join_fields (f ∷ (g ∷ fs)) = f ++ (44 ∷ join_fields (g ∷ fs))

unfoldable pub page_query : ℕ → ℕ → Bytes → List Bytes → PageQuery
unfolding join_fields
page_query offset size entry_type fields = record {
  offset = format_nat offset;
  limit = format_nat size;
  entry_type = if bytes_eq entry_type [] then none else some entry_type;
  fields = if leb (length fields) 0 then none else some (join_fields fields);
}

-- `len(entries) >= page.Count`
unfoldable pub reaches : ℕ → ℤ → Bool
reaches n (pos count) = leb count n
reaches n (negsuc count) = true

pub data PageOutcome : Type 0 where
  finished : Result ClientError (List Entry) → PageOutcome
  continues : List Entry → PageOutcome

module _ (nfc : Bytes → Bytes) (is_rfc3339 : Bytes → Bool) (strict : Bool) where
  unfoldable pub decode_all : List WireEntry → Result EntryError (List Entry)
  decode_all [] = ok []
  decode_all (raw ∷ raws) =
      let rest = decode_all raws in
      decode_entry nfc is_rfc3339 raw strict >>= λ e. rest >>= λ es. ok (e ∷ es)

  -- The rest of the loop's body, with the entries read so far.
  unfoldable pub page_outcome : List Entry → WireEntryList → PageOutcome
  page_outcome entries page = elim (decode_all page.entries) [
    | err e ↦ finished (err (bad_entry e))
    | ok decoded ↦
        if reaches (length (entries ++ decoded)) page.count
        then finished (ok (entries ++ decoded))
        else if leb (length page.entries) 0
        then finished (err (list_stopped (length (entries ++ decoded)) page.count))
        else continues (entries ++ decoded)
  ]

  module _ {W : Type 0} (get_page : PageQuery → W → Result WireError WireEntryList × W)
      (query : ℕ → PageQuery) where
    -- The loop, on fuel: the device decides how many pages there are.
    unfoldable pub list_from : ℕ → ℕ → List Entry → W → Option (Result ClientError (List Entry) × W)
    list_from zero offset entries w = none
    list_from (suc fuel) offset entries w =
        let (answer, later) = get_page (query offset) w in
        elim answer [
          | err e ↦ some (err (public_error e), later)
          | ok page ↦ elim (page_outcome entries page) [
            | finished r ↦ some (r, later)
            | continues more ↦ list_from fuel (offset + length page.entries) more later
          ]
        ]

  module _ {W : Type 0} (get_page : PageQuery → W → Result WireError WireEntryList × W) where
    unfoldable pub list_entries :
        ℕ → Bytes → ListOptions → W → Option (Result ClientError (List Entry) × W)
    list_entries fuel entry_type options w = elim (checked_page_size options.page_size) [
      | none ↦ some (err invalid_page_size, w)
      | some size ↦
          if any is_bad_field options.fields
          then some (err invalid_field, w)
          else list_from get_page (λ offset. page_query offset size entry_type options.fields) fuel
              0 [] w
    ]
