-- ===== src/Emulator/Listing/Pages.antt =====
-- The page that answers a query with a given offset and limit.
use dpwire.Prelude.{
  ℕ, ◌+◌, ◌-◌, ◌≤◌, ◌<◌, ◌≡◌, ◌≢◌, refl, true, false, List, [], ◌∷◌, Bytes, length, take, drop, min,
  ltb, some, arith,
}
use dpwire.Decimal.{ℤ, pos, atoi, max_int64, format_nat}
use dpwire.Decimal.RoundTrip.{atoi-format_nat, format_nat-ne-nil}
use dpwire.Emulator.Listing.{
  page, query_integer, slice_page, limit_page, offset_page, write_entry_list,
}

query_integer-atoi :
    (s : Bytes) (fallback : ℤ) (n : ℕ)
    → s ≢ []
    → atoi s ≡ record { value = pos n; good = true }
    → query_integer s fallback ≡ some (pos n)
unfolding query_integer
query_integer-atoi [] fallback n h e = absurd (h refl)
query_integer-atoi (c ∷ cs) fallback n h e = rw e refl

query_integer-format_nat :
    (n : ℕ) (fallback : ℤ) → n ≤ max_int64 → query_integer (format_nat n) fallback ≡ some (pos n)
query_integer-format_nat n fallback h =
    query_integer-atoi (format_nat n) fallback n (format_nat-ne-nil n) (atoi-format_nat n h)

pub write_entry_list-format_nat :
    {A : Type 0} (hash : List A → Bytes) (xs : List A) (offset limit : ℕ)
    → offset ≤ length xs
    → 0 < limit
    → limit ≤ 1000
    → length xs + 1000 ≤ max_int64
    → write_entry_list hash (format_nat offset) (format_nat limit) xs
      ≡ page
          (length xs)
          (hash xs)
          (take (min (offset + limit) (length xs) - offset) (drop offset xs))
unfolding write_entry_list offset_page limit_page slice_page
write_entry_list-format_nat hash xs offset limit within pos_limit small fits =
    let big : ltb 1000 limit ≡ false = ground arith in
    let little : ltb limit 1 ≡ false = ground arith in
    let sum : ltb max_int64 (offset + limit) ≡ false = ground arith in
    let start : min offset (length xs) ≡ offset = omega (arith, within) in
    rw
      (
        query_integer-format_nat offset (pos 0) (omega (arith, within, fits)),
        query_integer-format_nat limit (pos 100) (omega (arith, small)),
        big,
        little,
        sum,
        start,
      )
      refl
