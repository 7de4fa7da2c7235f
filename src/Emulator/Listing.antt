-- ===== src/Emulator/Listing.antt =====
-- writeEntryList and queryInteger of dptest/emulator.go: one page of a listing.
pub mod Pages
use dpwire.Prelude.{
  ℕ, ◌+◌, ◌-◌, Bool, true, false, ◌||◌, List, [], ◌∷◌, Bytes, length, take, drop, min, ltb,
  if◌then◌else◌, Option, none, some,
}
use dpwire.Decimal.{ℤ, pos, negsuc, Parsed, atoi, max_int64}

-- What the handler answers: a page with the number and the hash of all the entries, status 400 with code 40002, or nothing since slicing panics.
pub data Page (A : Type 0) : Type 0 where
  page : ℕ → Bytes → List A → Page A
  bad_query : Page A
  panics : Page A

-- `none` is the error.
unfoldable pub query_integer : Bytes → ℤ → Option ℤ
query_integer [] fallback = some fallback
query_integer (c ∷ cs) fallback =
    let parsed = atoi (c ∷ cs) in if parsed.good then some parsed.value else none

-- `entry_list_hash` is the hexadecimal SHA-256 digest of the entries' JSON.
module _ {A : Type 0} (entry_list_hash : List A → Bytes) where
  -- `entries[offset:end]`, where `end` is the int64 sum: past the largest int it is negative.
  unfoldable pub slice_page : List A → ℕ → ℕ → Page A
  slice_page entries offset limit =
      let start = min offset (length entries) in
      if ltb max_int64 (offset + limit)
      then panics
      else page (length entries) (entry_list_hash entries)
          (take (min (offset + limit) (length entries) - start) (drop start entries))

  limit_page : List A → ℕ → Option ℤ → Page A
  limit_page entries offset none = bad_query
  limit_page entries offset (some (negsuc n)) = bad_query
  limit_page entries offset (some (pos limit)) =
      if ltb limit 1 || ltb 1000 limit then bad_query else slice_page entries offset limit

  offset_page : List A → Bytes → Option ℤ → Page A
  unfolding limit_page
  offset_page entries limit none = bad_query
  offset_page entries limit (some (negsuc n)) = bad_query
  offset_page entries limit (some (pos offset)) =
      limit_page entries offset (query_integer limit (pos 100))

  unfoldable pub write_entry_list : Bytes → Bytes → List A → Page A
  unfolding offset_page limit_page
  write_entry_list offset limit entries = offset_page entries limit (query_integer offset (pos 0))
