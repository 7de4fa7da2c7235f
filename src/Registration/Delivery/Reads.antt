-- ===== src/Registration/Delivery/Reads.antt =====
-- What one registration takes from the two readers of randomness, and what it asks of the device's
-- certificate and of the client's new key.
use dpwire.Prelude.{
  ℕ, zero, suc, ◌+◌, ◌*◌, ◌/◌, ◌%◌, ◌<◌, ◌≤◌, ◌≡◌, refl, ap, true, [], ◌∷◌, ◌++◌, Bytes, codes,
  length, take, drop, some, ok, arith, length-append, length-take, length-drop,
}
use dpwire.Device.State.{PublicKey}
use dpwire.Crypto.Words.{AreBytes, AreBytes-append}
use dpwire.Crypto.Aeskw.Blocks.{AreBytes-take, AreBytes-drop}
use dpwire.Registration.Exchange.{new_dh}
use dpwire.Registration.Exchange.Agreement.{IsPrivate}
use dpwire.Registration.Laws.{IsRead}
use dpwire.Registration.Messages.{
  Primitives, PemBlock, GeneratedKey, validate_certificate_pem, random_uuid, hex_digit, hex_encode,
  change_at, stamped, dashed,
}

pub record DeviceReads (p : Primitives) (random : Bytes) : Type 0 where
  pub nonce1 : Bytes
  pub mac : Bytes
  pub es : Bytes
  pub iv : Bytes
  pub private_key : ℕ
  pub d1 : Bytes
  pub d2 : Bytes
  pub d3 : Bytes
  pub d4 : Bytes
  pub d5 : Bytes
  pub nonce1_read : IsRead 16 random nonce1 d1
  pub mac_read : IsRead 6 d1 mac d2
  pub es_read : IsRead 16 d2 es d3
  pub key_drawn : new_dh d3 ≡ ok (private_key, d4)
  pub key_IsPrivate : IsPrivate p.prime private_key
  pub iv_read : IsRead 16 d4 iv d5

pub record ClientReads (p : Primitives) (random : Bytes) : Type 0 where
  pub private_key : ℕ
  pub nonce2 : Bytes
  pub rs : Bytes
  pub iv : Bytes
  pub generated : GeneratedKey
  pub uuid : Bytes
  pub last_iv : Bytes
  pub c1 : Bytes
  pub c2 : Bytes
  pub c3 : Bytes
  pub c4 : Bytes
  pub c5 : Bytes
  pub c6 : Bytes
  pub c7 : Bytes
  pub key_drawn : new_dh random ≡ ok (private_key, c1)
  pub key_IsPrivate : IsPrivate p.prime private_key
  pub nonce2_read : IsRead 16 c1 nonce2 c2
  pub rs_read : IsRead 16 c2 rs c3
  pub iv_read : IsRead 16 c3 iv c4
  pub key_generated : p.generate_key c4 ≡ some (generated, c5)
  pub uuid_read : IsRead 16 c5 uuid c6
  pub last_iv_read : IsRead 16 c6 last_iv c7

-- A device certificate that the client accepts and that fits its limit.
pub record IsCertificate (p : Primitives) (certificate : Bytes) : Type 0 where
  pub bytes : AreBytes certificate
  pub some_bytes : 0 < length certificate
  pub fits : length certificate ≤ 500000
  pub accepted : validate_certificate_pem p certificate ≡ ok tt

-- A PEM text that holds one RSA key of 2048 bits with exponent 65537, and nothing else.
pub record IsPublicPem (p : Primitives) (text : Bytes) (key : PublicKey) : Type 0 where
  pub bytes : AreBytes text
  pub some_bytes : 0 < length text
  pub fits : length text ≤ 500000
  pub block : PemBlock × Bytes
  pub decoded : p.pem_decode text ≡ some block
  pub typed : block.0.block_type ≡ codes "PUBLIC KEY"
  pub nothing_else : p.is_blank block.1 ≡ true
  pub parsed : p.parse_public_key block.0.contents ≡ some key
  pub size : p.bit_length key.modulus ≡ 2048
  pub exponent : key.exponent ≡ 65537

change_at-AreBytes :
    (i : ℕ) (f : ℕ → ℕ) (v : Bytes)
    → ((c : ℕ) → c < 256 → f c < 256)
    → AreBytes v
    → AreBytes (change_at i f v)
unfolding change_at
change_at-AreBytes i f [] h b = tt
change_at-AreBytes zero f (c ∷ cs) h b = (h c b.0, b.1)
change_at-AreBytes (suc i) f (c ∷ cs) h b = (b.0, change_at-AreBytes i f cs h b.1)

length-change_at : (i : ℕ) (f : ℕ → ℕ) (v : Bytes) → length (change_at i f v) ≡ length v
unfolding change_at
length-change_at i f [] = refl
length-change_at zero f (c ∷ cs) = refl
length-change_at (suc i) f (c ∷ cs) = ap suc (length-change_at i f cs)

hex_digit-lt : (n : ℕ) → n < 16 → hex_digit n < 256
unfolding hex_digit
hex_digit-lt n h = ground (arith, h)

hex_encode-AreBytes : (v : Bytes) → AreBytes v → AreBytes (hex_encode v)
unfolding hex_encode
hex_encode-AreBytes [] b = tt
hex_encode-AreBytes (c ∷ cs) b = (
  hex_digit-lt (c / 16) (omega (arith, b.0)),
  (hex_digit-lt (c % 16) (omega arith), hex_encode-AreBytes cs b.1),
)

length-hex_encode : (v : Bytes) → length (hex_encode v) ≡ 2 * length v
unfolding hex_encode
length-hex_encode [] = refl
length-hex_encode (c ∷ cs) = omega (arith, length-hex_encode cs)

dashed-AreBytes : (h : Bytes) → AreBytes h → AreBytes (dashed h)
unfolding dashed
dashed-AreBytes h b =
    let part = λ (i : ℕ). AreBytes-take 4 (drop i h) (AreBytes-drop i h b) in
    AreBytes-append _ _ (AreBytes-take 8 h b) (
      omega arith,
      AreBytes-append _ _ (part 8) (
        omega arith,
        AreBytes-append _ _ (part 12)
            (omega arith, AreBytes-append _ _ (part 16) (omega arith, AreBytes-drop 20 h b)),
      ),
    )

length-dashed : (h : Bytes) → length h ≡ 32 → length (dashed h) ≡ 36
unfolding dashed
length-dashed h size = omega (
  arith,
  size,
  length-append (take 8 h) (
      45
      ∷ (take 4 (drop 8 h)
          ++ (45 ∷ (take 4 (drop 12 h) ++ (45 ∷ (take 4 (drop 16 h) ++ (45 ∷ drop 20 h))))))),
  length-append (take 4 (drop 8 h))
      (45 ∷ (take 4 (drop 12 h) ++ (45 ∷ (take 4 (drop 16 h) ++ (45 ∷ drop 20 h))))),
  length-append (take 4 (drop 12 h)) (45 ∷ (take 4 (drop 16 h) ++ (45 ∷ drop 20 h))),
  length-append (take 4 (drop 16 h)) (45 ∷ drop 20 h),
  length-take 8 h,
  length-take 4 (drop 8 h),
  length-take 4 (drop 12 h),
  length-take 4 (drop 16 h),
  length-drop 8 h,
  length-drop 12 h,
  length-drop 16 h,
  length-drop 20 h,
)

pub random_uuid-IsRead :
    (random value rest : Bytes)
    → IsRead 16 random value rest
    → (client_id : Bytes) × ((random_uuid random ≡ ok (client_id, rest))
        × ((length client_id ≡ 36) × AreBytes client_id))
unfolding random_uuid stamped
random_uuid-IsRead random value rest r = (
  dashed (hex_encode (stamped value)),
  (
    rw (random_uuid, r.read) refl,
    (
      length-dashed (hex_encode (stamped value)) (
          omega (
            arith,
            length-hex_encode (stamped value),
            length-change_at 8 (λ c. c % 64 + 128) (change_at 6 (λ c. c % 16 + 64) value),
            length-change_at 6 (λ c. c % 16 + 64) value,
            r.size,
          )),
      dashed-AreBytes (hex_encode (stamped value)) (
          hex_encode-AreBytes (stamped value) (
            change_at-AreBytes 8 (λ c. c % 64 + 128) _ (λ c h. omega arith)
              (change_at-AreBytes 6 (λ c. c % 16 + 64) value (λ c h. omega arith) r.bytes))),
    ),
  ),
)
