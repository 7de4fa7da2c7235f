-- ===== src/Client/Listing/Complete.antt =====
-- The client's listing of the simulator's pages.
use dpwire.Prelude.{
  ℕ, zero, suc, ◌+◌, ◌-◌, ◌≤◌, ◌<◌, ◌≡◌, refl, sym, ap, ◌∙◌, Bool, true, false, List, [], ◌∷◌,
  Bytes, codes, any, length, take, drop, min, length-take, length-drop, take-add, take-all,
  Bool-cases, leb→le, leb, inl, inr, some, Result, ok, err, bind_ok, ok-injective, arith,
}
use dpwire.Decimal.{ℤ, pos, negsuc, max_int64}
use dpwire.Entries.{WireEntry, WireEntryList, Entry, EntryError, decode_entry}
use dpwire.Client.Errors.{WireError, http_error, other_error}
use dpwire.Client.Listing.{
  ListOptions, PageQuery, page_query, checked_page_size, is_bad_field, reaches, decode_all,
  page_outcome, finished, continues, list_from, list_entries,
}
use dpwire.Emulator.Listing.{Page, page, bad_query, panics, write_entry_list}
use dpwire.Emulator.Listing.Pages.{write_entry_list-format_nat}

checked_page_size-range :
    (z : ℤ) (size : ℕ) → checked_page_size z ≡ some size → (0 < size) × (size ≤ 1000)
unfolding checked_page_size
checked_page_size-range (negsuc n) size h = ground arith
checked_page_size-range (pos zero) size h = ground arith
checked_page_size-range (pos (suc n)) size h = ground arith

-- What the transport makes of the handler's answer; the connection of a handler that panics is closed.
unfoldable pub received : Page WireEntry → Result WireError WireEntryList
received (page count hash entries) =
    ok (record { count = pos count; hash = hash; entries = entries })
received bad_query =
    err (http_error (record { status_code = 400; code = codes "40002"; message = [] }))
received panics = err (other_error (codes "EOF"))

-- A device whose listing is `xs`, and stays it.
unfoldable pub served :
    {W : Type 0}
    → (List WireEntry → Bytes)
    → List WireEntry
    → PageQuery
    → W
    → Result WireError WireEntryList × W
served hash xs query w = (received (write_entry_list hash query.offset query.limit xs), w)

module _ (nfc : Bytes → Bytes) (is_rfc3339 : Bytes → Bool) (strict : Bool) where
  decode : List WireEntry → Result EntryError (List Entry)
  decode xs = decode_all nfc is_rfc3339 strict xs

  decode_all-cons :
      (x : WireEntry) (xs : List WireEntry) (es : List Entry)
      → decode (x ∷ xs) ≡ ok es
      → (e : Entry) × ((rest : List Entry) × ((decode_entry nfc is_rfc3339 x strict ≡ ok e)
            × ((decode xs ≡ ok rest) × (es ≡ e ∷ rest))))
  unfolding decode decode_all
  decode_all-cons x xs es h =
      let (e, (head, after)) = bind_ok (decode_entry nfc is_rfc3339 x strict) _ es h in
      let (rest, (tail, made)) = bind_ok (decode_all nfc is_rfc3339 strict xs) _ es after in
      (e, (rest, (head, (tail, sym (ok-injective made)))))

  decode_all-nil : (es : List Entry) → decode [] ≡ ok es → es ≡ []
  unfolding decode decode_all
  decode_all-nil es h = sym (ok-injective h)

  length-decode_all :
      (xs : List WireEntry) (es : List Entry) → decode xs ≡ ok es → length es ≡ length xs
  length-decode_all [] es h = ap length (decode_all-nil es h)
  length-decode_all (x ∷ xs) es h =
      let (e, (rest, (head, (tail, made)))) = decode_all-cons x xs es h in
      ap length made ∙ ap suc (length-decode_all xs rest tail)

  decode_all-take :
      (m : ℕ) (xs : List WireEntry) (es : List Entry)
      → decode xs ≡ ok es
      → decode (take m xs) ≡ ok (take m es)
  unfolding decode decode_all
  decode_all-take zero xs es h = refl
  decode_all-take (suc m) [] es h = rw (decode_all-nil es h) refl
  decode_all-take (suc m) (x ∷ xs) es h =
      let (e, (rest, (head, (tail, made)))) = decode_all-cons x xs es h in
      rw (made, head, decode_all-take m xs rest tail) refl

  decode_all-drop :
      (m : ℕ) (xs : List WireEntry) (es : List Entry)
      → decode xs ≡ ok es
      → decode (drop m xs) ≡ ok (drop m es)
  decode_all-drop zero xs es h = h
  decode_all-drop (suc m) [] es h = rw (decode_all-nil es h) (h ∙ ap ok (decode_all-nil es h))
  decode_all-drop (suc m) (x ∷ xs) es h =
      let (e, (rest, (head, (tail, made)))) = decode_all-cons x xs es h in
      rw made (decode_all-drop m xs rest tail)

  module _ (xs : List WireEntry) (es : List Entry) (decoded : decode xs ≡ ok es)
      (hash : List WireEntry → Bytes) where
    block : ℕ → ℕ → WireEntryList
    block offset m = record {
      count = pos (length xs);
      hash = hash xs;
      entries = take m (drop offset xs);
    }

    sizes : length es ≡ length xs
    sizes = length-decode_all xs es decoded

    block_entries :
        (offset m : ℕ)
        → decode_all nfc is_rfc3339 strict (take m (drop offset xs)) ≡ ok (take m (drop offset es))
    unfolding decode
    block_entries offset m =
        decode_all-take m (drop offset xs) (drop offset es) (decode_all-drop offset xs es decoded)

    page_outcome-last :
        (offset m : ℕ)
        → offset + m ≡ length xs
        → page_outcome nfc is_rfc3339 strict (take offset es) (block offset m) ≡ finished (ok es)
    unfolding page_outcome reaches block
    page_outcome-last offset m e =
        let whole : take (offset + m) es ≡ es =
          take-all (offset + m) es (omega (arith, sizes, e)) in
        let enough : leb (length xs) (length es) ≡ true = ground (arith, sizes) in
        rw (page_outcome, block_entries offset m, take-add offset m es, whole, enough) refl

    page_outcome-more :
        (offset m : ℕ)
        → offset + m < length xs
        → 0 < m
        → page_outcome nfc is_rfc3339 strict (take offset es) (block offset m)
          ≡ continues (take (offset + m) es)
    unfolding page_outcome reaches block
    page_outcome-more offset m lt positive =
        let part : length (take (offset + m) es) ≡ offset + m =
          omega (arith, length-take (offset + m) es, sizes, lt) in
        let missing : leb (length xs) (length (take (offset + m) es)) ≡ false =
          ground (arith, part, lt) in
        let full : length (take m (drop offset xs)) ≡ m =
          omega (arith, length-take m (drop offset xs), length-drop offset xs, lt) in
        let some_entries : leb (length (take m (drop offset xs))) 0 ≡ false =
          ground (arith, full, positive) in
        rw (page_outcome, block_entries offset m, take-add offset m es, missing, some_entries) refl

    module _ {W : Type 0} (w : W) (fits : length xs + 1000 ≤ max_int64) (size : ℕ)
        (positive : 0 < size) (small : size ≤ 1000) (entry_type : Bytes) (fields : List Bytes) where
      query : ℕ → PageQuery
      query offset = page_query offset size entry_type fields

      served_block :
          (offset : ℕ)
          → offset ≤ length xs
          → received (write_entry_list hash (query offset).offset (query offset).limit xs)
            ≡ ok (block offset (min (offset + size) (length xs) - offset))
      unfolding received query page_query block
      served_block offset within =
          rw (write_entry_list-format_nat hash xs offset size within positive small fits) refl

      list_from-served :
          (fuel offset : ℕ)
          → offset ≤ length xs
          → length xs < fuel + offset
          → list_from nfc is_rfc3339 strict (served hash xs) query fuel offset (take offset es) w
            ≡ some (ok es, w)
      unfolding list_from served block
      list_from-served zero offset within enough = absurd (omega (arith, within, enough))
      list_from-served (suc fuel) offset within enough =
          let m = min (offset + size) (length xs) - offset in
          elim (Bool-cases (leb (length xs) (offset + size))) [
            | inl last ↦
                let le : length xs ≤ offset + size = leb→le _ _ last in
                let end : offset + m ≡ length xs = omega (arith, le, within) in
                rw (list_from, served_block offset within, page_outcome-last offset m end) refl
            | inr further ↦
                let lt : offset + size < length xs = ground (arith, further) in
                let less : offset + m < length xs = omega (arith, lt) in
                let some_taken : 0 < m = omega (arith, lt, positive) in
                let step : offset + length (take m (drop offset xs)) ≡ offset + m =
                  omega (arith, length-take m (drop offset xs), length-drop offset xs, less) in
                rw
                  (
                    list_from,
                    served_block offset within,
                    page_outcome-more offset m less some_taken,
                    step,
                  )
                  (list_from-served fuel (offset + m) (omega (arith, less))
                    (omega (arith, enough, some_taken)))
          ]

-- Listing a device that answers with the simulator's pages of one list reads the whole list, in order and
-- each entry once, whatever the page size from 1 to 1000: for a list whose entries the client accepts and
-- that is not within 1000 of the largest int, one round more than it has entries is enough, and the result
-- is the decoded list.
pub list_entries-served :
    (nfc : Bytes → Bytes) (is_rfc3339 : Bytes → Bool) (strict : Bool) {W : Type 0} (w : W)
    (xs : List WireEntry) (es : List Entry) (hash : List WireEntry → Bytes) (entry_type : Bytes)
    (options : ListOptions) (size fuel : ℕ)
    → decode_all nfc is_rfc3339 strict xs ≡ ok es
    → length xs + 1000 ≤ max_int64
    → checked_page_size options.page_size ≡ some size
    → any is_bad_field options.fields ≡ false
    → length xs < fuel
    → list_entries nfc is_rfc3339 strict (served hash xs) fuel entry_type options w
      ≡ some (ok es, w)
unfolding list_entries query decode
list_entries-served nfc is_rfc3339 strict w xs es hash entry_type options size fuel decoded fits
      chosen fields enough =
    let range = checked_page_size-range options.page_size size chosen in
    rw (list_entries, chosen, fields)
      (list_from-served nfc is_rfc3339 strict xs es decoded hash w fits size range.0 range.1
        entry_type options.fields fuel 0 (omega arith) (omega (arith, enough)))
