-- ===== src/Registration/Messages/Uuid.antt =====
-- The form of a client identifier.
use dpwire.Prelude.{
  ℕ, ◌+◌, ◌/◌, ◌%◌, ◌≤◌, ◌≡◌, refl, ap, [], ◌∷◌, Bytes, length, take, drop, ltb, false, ok, arith,
}
use dpwire.Registration.Exchange.{read_full}
use dpwire.Registration.Messages.{hex_digit, hex_encode, change_at, stamped, dashed, random_uuid}

version_digit : (c : ℕ) → hex_digit ((c % 16 + 64) / 16) ≡ 52
unfolding hex_digit
version_digit c = let four : (c % 16 + 64) / 16 ≡ 4 = omega arith in rw four refl

-- One of 8, 9, a and b.
variant_digit :
    (c : ℕ) → (n : ℕ) × ((n ≤ 3) × (hex_digit ((c % 64 + 128) / 16) ≡ hex_digit (8 + n)))
variant_digit c = ((c % 64) / 16, (omega arith, ap hex_digit (omega arith)))

random_uuid_reads :
    (v0 v1 v2 v3 v4 v5 v6 v7 v8 v9 v10 v11 v12 v13 v14 v15 : ℕ) (rest : Bytes)
    → random_uuid
        (v0 ∷ v1 ∷ v2 ∷ v3 ∷ v4 ∷ v5 ∷ v6 ∷ v7 ∷ v8 ∷ v9 ∷ v10 ∷ v11 ∷ v12 ∷ v13 ∷ v14 ∷ v15 ∷ rest)
      ≡ ok (
        dashed (
            hex_encode (
              stamped (
                v0 ∷ v1 ∷ v2 ∷ v3 ∷ v4 ∷ v5 ∷ v6 ∷ v7 ∷ v8 ∷ v9 ∷ v10 ∷ v11 ∷ v12 ∷ v13 ∷ v14 ∷ v15
                ∷ []))),
        rest,
      )
unfolding random_uuid read_full
random_uuid_reads v0 v1 v2 v3 v4 v5 v6 v7 v8 v9 v10 v11 v12 v13 v14 v15 rest =
    let enough : ltb
          (length (
            v0 ∷ v1 ∷ v2 ∷ v3 ∷ v4 ∷ v5 ∷ v6 ∷ v7 ∷ v8 ∷ v9 ∷ v10 ∷ v11 ∷ v12 ∷ v13 ∷ v14 ∷ v15
            ∷ rest))
          16
        ≡ false =
      ground arith in
    rw (random_uuid, read_full, enough) refl

-- Of any sixteen random bytes, randomUUID makes a text of 36 characters with dashes at the places 8, 13, 18
-- and 23, the version 4 at place 14 and a variant digit 8, 9, a or b at place 19; it takes those bytes only.
pub random_uuid_version :
    (v0 v1 v2 v3 v4 v5 v6 v7 v8 v9 v10 v11 v12 v13 v14 v15 : ℕ) (rest : Bytes)
    → (id : Bytes) × ((variant : ℕ) × ((random_uuid (
              v0 ∷ v1 ∷ v2 ∷ v3 ∷ v4 ∷ v5 ∷ v6 ∷ v7 ∷ v8 ∷ v9 ∷ v10 ∷ v11 ∷ v12 ∷ v13 ∷ v14 ∷ v15
              ∷ rest)
            ≡ ok (id, rest))
          × ((length id ≡ 36)
              × ((take 1 (drop 8 id) ≡ 45 ∷ [])
                  × ((take 1 (drop 13 id) ≡ 45 ∷ [])
                      × ((take 1 (drop 18 id) ≡ 45 ∷ [])
                          × ((take 1 (drop 23 id) ≡ 45 ∷ [])
                              × ((take 1 (drop 14 id) ≡ 52 ∷ [])
                                  × ((variant ≤ 3)
                                      × (take 1 (drop 19 id)
                                          ≡ hex_digit (8 + variant) ∷ []))))))))))
unfolding random_uuid read_full stamped change_at hex_encode dashed
random_uuid_version v0 v1 v2 v3 v4 v5 v6 v7 v8 v9 v10 v11 v12 v13 v14 v15 rest =
    let (variant, (small, digit)) = variant_digit v8 in
    (
      dashed (
          hex_encode (
            stamped (
              v0 ∷ v1 ∷ v2 ∷ v3 ∷ v4 ∷ v5 ∷ v6 ∷ v7 ∷ v8 ∷ v9 ∷ v10 ∷ v11 ∷ v12 ∷ v13 ∷ v14 ∷ v15
              ∷ []))),
      (
        variant,
        (
          random_uuid_reads v0 v1 v2 v3 v4 v5 v6 v7 v8 v9 v10 v11 v12 v13 v14 v15 rest,
          (
            refl,
            (
              refl,
              (
                refl,
                (
                  refl,
                  (refl, (ap (λ x. x ∷ []) (version_digit v6), (small, ap (λ x. x ∷ []) digit))),
                ),
              ),
            ),
          ),
        ),
      ),
    )
