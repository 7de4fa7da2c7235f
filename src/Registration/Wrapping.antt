-- ===== src/Registration/Wrapping.antt =====
-- internal/wire/registration/crypto.go: wrapping a value for the device under the two derived keys. AES in
-- CBC mode and HMAC-SHA-256 are parameters; `random` is what `io.ReadFull` reads for the IV, or nothing
-- where it fails.
use dpwire.Prelude.{
  ◌+◌, ◌-◌, ◌%◌, ◌≤◌, ◌≡◌, refl, ap, ◌∙◌, true, false, not, ◌||◌, List, [], ◌∷◌, ◌++◌, Option, none,
  some, Bytes, bytes_eq, bytes_eq_refl, length, take, drop, arith, ltb, ◌==◌, if◌then◌else◌, Result,
  ok, err, ◌>>=◌, length-append, length-take, take-append_at, drop-append_at,
}
use mathlib.Core.Path.{ap₂}
use dpwire.Crypto.Words.{AreBytes, AreBytes-append}
use dpwire.Crypto.Aeskw.{is_key}
use dpwire.Crypto.Aeskw.Blocks.{AreBytes-take}
use dpwire.Registration.Padding.{
  pkcs7_pad, pkcs7_unpad, pkcs7_unpad-pkcs7_pad, length-pkcs7_pad, pkcs7_pad-AreBytes,
}

pub data WrapError : Type 0 where
  invalid_key random_failed invalid_wrapped_length invalid_wrapped_padding mac_mismatch : WrapError

concat : List Bytes → Bytes
concat [] = []
concat (v ∷ vs) = v ++ concat vs

-- `hashMAC(key, values...)`: the writes add up to one message.
unfoldable pub hash_mac : (Bytes → Bytes → Bytes) → Bytes → List Bytes → Bytes
unfolding concat
hash_mac hmac key values = hmac key (concat values)

unfoldable pub wrap :
    (Bytes → Bytes → Bytes)
    → (Bytes → Bytes → Bytes → Bytes)
    → Bytes
    → Bytes
    → Bytes
    → Option Bytes
    → Result WrapError Bytes
wrap hmac cbc_encrypt payload auth_key wrap_key random =
    if not (is_key wrap_key) then err invalid_key else elim random [
      | none ↦ err random_failed
      | some iv ↦ ok (
          cbc_encrypt wrap_key iv
            (pkcs7_pad (payload ++ take 8 (hash_mac hmac auth_key (payload ∷ []))) 16)
          ++ iv)
    ]

unfoldable pub check_mac : (Bytes → Bytes → Bytes) → Bytes → Bytes → Result WrapError Bytes
check_mac hmac auth_key plain =
    let value = take (length plain - 8) plain in
    if ltb (length plain) 8
    then err invalid_wrapped_padding
    else if not
        (bytes_eq (drop (length plain - 8) plain) (take 8 (hash_mac hmac auth_key (value ∷ []))))
    then err mac_mismatch
    else ok value

unfoldable pub unwrap :
    (Bytes → Bytes → Bytes)
    → (Bytes → Bytes → Bytes → Bytes)
    → Bytes
    → Bytes
    → Bytes
    → Result WrapError Bytes
unwrap hmac cbc_decrypt wrapped auth_key wrap_key =
    let cut = length wrapped - 16 in
    if ltb (length wrapped) 32 || not (length wrapped % 16 == 0)
    then err invalid_wrapped_length
    else if not (is_key wrap_key)
    then err invalid_key
    else elim (pkcs7_unpad (cbc_decrypt wrap_key (drop cut wrapped) (take cut wrapped)) 16) [
      | err e ↦ err invalid_wrapped_padding
      | ok plain ↦ check_mac hmac auth_key plain
    ]

-- The standard library's CBC mode: it keeps the length of whole blocks, and decryption undoes encryption.
pub record CbcCipher : Type 0 where
  pub encrypt : Bytes → Bytes → Bytes → Bytes
  pub decrypt : Bytes → Bytes → Bytes → Bytes
  pub length-encrypt : (k iv b : Bytes) → length b % 16 ≡ 0 → length (encrypt k iv b) ≡ length b
  pub decrypt-encrypt :
      (k iv b : Bytes)
      → length iv ≡ 16
      → length b % 16 ≡ 0
      → AreBytes b
      → decrypt k iv (encrypt k iv b) ≡ b

-- A MAC of at least eight bytes.
pub record Mac : Type 0 where
  pub hmac : Bytes → Bytes → Bytes
  pub hmac-long : (k m : Bytes) → 8 ≤ length (hmac k m)
  pub hmac-AreBytes : (k m : Bytes) → AreBytes (hmac k m)

module _ (m : Mac) (c : CbcCipher) (payload auth_key wrap_key iv : Bytes) (iv_size : length iv ≡ 16)
    (bytes : AreBytes payload) (key : is_key wrap_key ≡ true) where
  tag : Bytes
  tag = take 8 (hash_mac m.hmac auth_key (payload ∷ []))

  tag_size : length tag ≡ 8
  unfolding tag hash_mac concat
  tag_size =
      omega (
        arith,
        length-take 8 (m.hmac auth_key (payload ++ [])),
        m.hmac-long auth_key (payload ++ []),
      )

  tag_bytes : AreBytes tag
  unfolding tag hash_mac concat
  tag_bytes = AreBytes-take 8 _ (m.hmac-AreBytes auth_key (payload ++ []))

  padded : Bytes
  padded = pkcs7_pad (payload ++ tag) 16

  sealed : Bytes
  sealed = c.encrypt wrap_key iv padded ++ iv

  wrap-sealed : wrap m.hmac c.encrypt payload auth_key wrap_key (some iv) ≡ ok sealed
  unfolding wrap sealed padded tag
  wrap-sealed = rw key refl

  padded_size : (length padded % 16 ≡ 0) × (16 ≤ length padded)
  unfolding padded
  padded_size = (
    omega (arith, length-pkcs7_pad (payload ++ tag)),
    omega (arith, length-pkcs7_pad (payload ++ tag)),
  )

  body_size : length (c.encrypt wrap_key iv padded) ≡ length padded
  body_size = c.length-encrypt wrap_key iv padded padded_size.0

  sealed_size : length sealed ≡ length padded + 16
  unfolding sealed
  sealed_size = omega (arith, length-append (c.encrypt wrap_key iv padded) iv, body_size, iv_size)

  sealed_length : length sealed ≡ length payload + 8 + (16 - (length payload + 8) % 16) + 16
  unfolding padded
  sealed_length =
      let whole : length (payload ++ tag) ≡ length payload + 8 =
        omega (arith, length-append payload tag, tag_size) in
      omega (arith, sealed_size, length-pkcs7_pad (payload ++ tag), whole)

  opened :
      c.decrypt wrap_key (drop (length sealed - 16) sealed) (take (length sealed - 16) sealed)
      ≡ padded
  unfolding sealed padded
  opened =
      let cut : length (c.encrypt wrap_key iv padded) ≡ length sealed - 16 =
        omega (arith, sealed_size, body_size) in
      ap₂ (λ x y. c.decrypt wrap_key x y)
        (drop-append_at (length sealed - 16) (c.encrypt wrap_key iv padded) iv cut)
        (take-append_at (length sealed - 16) (c.encrypt wrap_key iv padded) iv cut)
      ∙ c.decrypt-encrypt wrap_key iv padded iv_size padded_size.0
          (pkcs7_pad-AreBytes (payload ++ tag) (AreBytes-append payload tag bytes tag_bytes))

  tag_agrees :
      (if not (bytes_eq tag (take 8 (hash_mac m.hmac auth_key (payload ∷ []))))
        then err mac_mismatch
        else ok payload)
      ≡ ok payload
  unfolding tag
  tag_agrees = rw (bytes_eq_refl tag) refl

  checked : check_mac m.hmac auth_key (payload ++ tag) ≡ ok payload
  unfolding check_mac
  checked =
      let whole : length (payload ++ tag) ≡ length payload + 8 =
        omega (arith, length-append payload tag, tag_size) in
      let cut : length payload ≡ length (payload ++ tag) - 8 = omega (arith, whole) in
      let enough : ltb (length (payload ++ tag)) 8 ≡ false = ground (arith, whole) in
      rw
        (
          enough,
          ← cut,
          take-append_at (length payload) payload tag refl,
          drop-append_at (length payload) payload tag refl,
        )
        tag_agrees

  unwrap-sealed : unwrap m.hmac c.decrypt sealed auth_key wrap_key ≡ ok payload
  unfolding unwrap padded
  unwrap-sealed =
      let enough : ltb (length sealed) 32 ≡ false = ground (arith, sealed_size, padded_size.1) in
      let whole : (length sealed % 16 == 0) ≡ true = ground (arith, sealed_size, padded_size.0) in
      rw (enough, whole, key, opened, pkcs7_unpad-pkcs7_pad (payload ++ tag)) checked

-- Whatever CBC cipher and MAC stand for AES and HMAC-SHA-256, unwrapping a wrapped value with the same two
-- keys gives the value back, for every value, every 16-byte IV and every wrapping key of 16, 24 or 32 bytes;
-- in particular neither call fails.
pub unwrap-wrap_registration :
    (m : Mac) (c : CbcCipher) (payload auth_key wrap_key iv : Bytes)
    → length iv ≡ 16
    → AreBytes payload
    → is_key wrap_key ≡ true
    → (wrap m.hmac c.encrypt payload auth_key wrap_key (some iv) >>= λ wrapped.
        unwrap m.hmac c.decrypt wrapped auth_key wrap_key)
      ≡ ok payload
unwrap-wrap_registration m c payload auth_key wrap_key iv size bytes key =
    ap (λ r. r >>= λ wrapped. unwrap m.hmac c.decrypt wrapped auth_key wrap_key)
      (wrap-sealed m c payload auth_key wrap_key iv size bytes key)
    ∙ unwrap-sealed m c payload auth_key wrap_key iv size bytes key

-- What `wrap` returns: a value that `unwrap` accepts, its length, and that it consists of bytes where the
-- cipher gives bytes.
pub wrap_opens :
    (m : Mac) (c : CbcCipher) (payload auth_key wrap_key iv : Bytes)
    → length iv ≡ 16
    → AreBytes payload
    → is_key wrap_key ≡ true
    → ((k b : Bytes) → AreBytes b → AreBytes (c.encrypt k iv b))
    → AreBytes iv
    → (wrapped : Bytes) × ((wrap m.hmac c.encrypt payload auth_key wrap_key (some iv) ≡ ok wrapped)
        × ((unwrap m.hmac c.decrypt wrapped auth_key wrap_key ≡ ok payload)
            × (AreBytes wrapped
                × (length wrapped ≡ length payload + 8 + (16 - (length payload + 8) % 16) + 16))))
unfolding sealed padded
wrap_opens m c payload auth_key wrap_key iv size bytes key gives iv_bytes = (
  sealed m c payload auth_key wrap_key iv size bytes key,
  (
    wrap-sealed m c payload auth_key wrap_key iv size bytes key,
    (
      unwrap-sealed m c payload auth_key wrap_key iv size bytes key,
      (
        AreBytes-append _ iv
            (gives wrap_key _ (
              pkcs7_pad-AreBytes (payload ++ tag m c payload auth_key wrap_key iv size bytes key) (
                AreBytes-append payload _ bytes
                  (tag_bytes m c payload auth_key wrap_key iv size bytes key))))
            iv_bytes,
        sealed_length m c payload auth_key wrap_key iv size bytes key,
      ),
    ),
  ),
)
