-- ===== src/Registration/Emulator/Phases/Lengths.antt =====
-- The lengths of what is read and of what is wrapped.
use dpwire.Prelude.{
  Option-cases, ℕ, ◌≡◌, ap, ◌<◌, Bool, true, not, [], ◌∷◌, ◌++◌, Bytes, take, drop, ltb, length,
  ◌==◌, Option, none, some, Result, ok, err, bind_ok, ok-injective, Bool-cases, inl, inr, arith,
  length-append, length-take,
}
use dpwire.Registration.Exchange.{read_full}
use dpwire.Registration.Wrapping.{wrap, hash_mac, WrapError, invalid_key, random_failed}
use dpwire.Crypto.Aeskw.{is_key}
use dpwire.Registration.Padding.{pkcs7_pad}
use dpwire.Registration.Messages.{Primitives}
use dpwire.Registration.Session.{wrap_reading}

-- A value that was read has the length that was asked for.
size_in : Option (Bytes × Bytes) → ℕ
size_in none = 0
size_in (some v) = length v.0

length-read_full :
    (n : ℕ) (random : Bytes) (v : Bytes × Bytes) → read_full n random ≡ some v → length v.0 ≡ n
unfolding read_full size_in
length-read_full n random v h = elim (Bool-cases (ltb (length random) n)) [
  | inl short ↦
      let bad : ◌≡◌ {A = Option (Bytes × Bytes)} none (some v) = rw (read_full, short) at h in
      ground arith
  | inr enough ↦
      let same : ◌≡◌ {A = Option (Bytes × Bytes)} (some (take n random, drop n random)) (some v) =
        rw (read_full, enough) at h in
      let sizes : length (take n random) ≡ length v.0 = ap size_in same in
      ground (arith, length-take n random, sizes)
]

-- A wrapped value ends in its IV, so it is not empty.
length-wrap :
    (p : Primitives) (payload auth_key wrap_key iv wrapped : Bytes)
    → 0 < length iv
    → wrap p.hmac p.cbc_encrypt payload auth_key wrap_key (some iv) ≡ ok wrapped
    → 0 < length wrapped
unfolding wrap
length-wrap p payload auth_key wrap_key iv wrapped long h = elim (Bool-cases (is_key wrap_key)) [
  | inl key ↦
      let tag = take 8 (hash_mac p.hmac auth_key (payload ∷ [])) in
      let body = p.cbc_encrypt wrap_key iv (pkcs7_pad (payload ++ tag) 16) in
      let same : ◌≡◌ {A = Result WrapError Bytes} (ok (body ++ iv)) (ok wrapped) =
        rw (wrap, key) at h in
      let sizes : length (body ++ iv) ≡ length wrapped = ap length (ok-injective same) in
      omega (arith, sizes, length-append body iv, long)
  | inr other ↦
      let bad : ◌≡◌ {A = Result WrapError Bytes} (err invalid_key) (ok wrapped) =
        rw (wrap, other) at h in
      ground arith
]

wrap_without_iv :
    (p : Primitives) (payload auth_key wrap_key wrapped : Bytes)
    → wrap p.hmac p.cbc_encrypt payload auth_key wrap_key none ≡ ok wrapped
    → (b : Bool) → b ≡ true
unfolding wrap
wrap_without_iv p payload auth_key wrap_key wrapped h b = elim (Bool-cases (is_key wrap_key)) [
  | inl key ↦
      let bad : ◌≡◌ {A = Result WrapError Bytes} (err random_failed) (ok wrapped) =
        rw (wrap, key) at h in
      ground arith
  | inr other ↦
      let bad : ◌≡◌ {A = Result WrapError Bytes} (err invalid_key) (ok wrapped) =
        rw (wrap, other) at h in
      ground arith
]

pub length-wrap_reading :
    (p : Primitives) (payload auth_key wrap_key random : Bytes) (sealed : Bytes × Bytes)
    → wrap_reading p payload auth_key wrap_key random ≡ ok sealed
    → not (length sealed.0 == 0) ≡ true
unfolding wrap_reading wrap
length-wrap_reading p payload auth_key wrap_key random sealed h =
    elim (Option-cases (read_full 16 random)) [
      | inl missing ↦
          let kept = rw (wrap_reading, missing) at h in
          let (wrapped, (h1, h2)) =
            bind_ok (wrap p.hmac p.cbc_encrypt payload auth_key wrap_key none) _ sealed kept in
          wrap_without_iv p payload auth_key wrap_key wrapped h1 _
      | inr (read, found) ↦
          let kept = rw (wrap_reading, found) at h in
          let (wrapped, (h1, h2)) =
            bind_ok (wrap p.hmac p.cbc_encrypt payload auth_key wrap_key (some read.0)) _ sealed
              kept in
          let same : wrapped ≡ sealed.0 = ap (λ v. v.0) (ok-injective h2) in
          let iv_size = length-read_full 16 random read found in
          let long =
            length-wrap p payload auth_key wrap_key read.0 wrapped (omega (arith, iv_size)) h1 in
          ground (arith, long, ap length same)
    ]
