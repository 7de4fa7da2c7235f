-- ===== src/Registration/Padding.antt =====
-- internal/wire/registration/crypto.go: PKCS #7 padding.
use dpwire.Prelude.{
  ℕ, zero, suc, ◌+◌, ◌-◌, ◌%◌, ◌≤◌, ◌<◌, ◌≡◌, refl, sym, ap, ◌∙◌, true, false, not, ◌||◌, [], ◌∷◌,
  ◌++◌, Bytes, length, take, drop, replicate, all, arith, ltb, ◌==◌, if◌then◌else◌, Result, ok, err,
  length-append, length-replicate, length-drop, length-take, take-append-drop, take-append,
  drop-append, drop-append_at, drop-drop, &&-true, ==_iff,
}
use mathlib.Core.Path.{ap₂}
use dpwire.Crypto.Words.{AreBytes, AreBytes-append}

pub data PaddingError : Type 0 where
  invalid_padding : PaddingError

-- `size - len(value)%size`
abbrev pub padding_for : Bytes → ℕ → ℕ
padding_for value size = size - length value % size

unfoldable pub pkcs7_pad : Bytes → ℕ → Bytes
pkcs7_pad value size = value ++ replicate (padding_for value size) (padding_for value size % 256)

-- The first byte of a slice; the caller has tested that there is one.
first_byte : Bytes → ℕ
first_byte [] = 0
first_byte (c ∷ cs) = c

unfoldable pub pkcs7_unpad : Bytes → ℕ → Result PaddingError Bytes
unfolding first_byte
pkcs7_unpad value size =
    let padding = first_byte (drop (length value - 1) value) in
    if length value == 0 || not (length value % size == 0)
    then err invalid_padding
    else if padding == 0 || (ltb size padding || ltb (length value) padding)
    then err invalid_padding
    else if not (all (λ item. item == padding) (drop (length value - padding) value))
    then err invalid_padding
    else ok (take (length value - padding) value)

-- `value[len(value)-1]` of a padded value.
first-replicate : (k p : ℕ) → first_byte (drop k (replicate (suc k) p)) ≡ p
unfolding first_byte
first-replicate zero p = refl
first-replicate (suc k) p = first-replicate k p

last_padded :
    (v : Bytes) (k p : ℕ)
    → 0 < k
    → first_byte (drop (length (v ++ replicate k p) - 1) (v ++ replicate k p)) ≡ p
last_padded v zero p pos = absurd (omega (arith, pos))
last_padded v (suc k) p pos =
    let place : length (v ++ replicate (suc k) p) - 1 ≡ length v + k =
      omega (arith, length-append v (replicate (suc k) p), length-replicate (suc k) p) in
    ap first_byte (
      ap (λ n. drop n (v ++ replicate (suc k) p)) place
      ∙ drop-drop (length v) k (v ++ replicate (suc k) p)
      ∙ ap (drop k) (drop-append_at (length v) v (replicate (suc k) p) refl))
    ∙ first-replicate k p

all-replicate : (k p : ℕ) → all (λ item. item == p) (replicate k p) ≡ true
all-replicate zero p = refl
all-replicate (suc k) p = rw ((==_iff p p).1 refl, all-replicate k p) refl

all_equal : (p : ℕ) (xs : Bytes) → all (λ item. item == p) xs ≡ true → xs ≡ replicate (length xs) p
all_equal p [] h = refl
all_equal p (x ∷ xs) h =
    let both = &&-true (x == p) (all (λ item. item == p) xs) h in
    ap₂ (λ a as_. a ∷ as_) ((==_iff x p).0 both.0) (all_equal p xs both.1)

padded_IsAccepted :
    (v : Bytes) (p : ℕ)
    → 0 < p
    → p ≤ 16
    → (length v + p) % 16 ≡ 0
    → pkcs7_unpad (v ++ replicate p p) 16 ≡ ok v
unfolding pkcs7_unpad
padded_IsAccepted v p pos le whole =
    let size : length (v ++ replicate p p) ≡ length v + p =
      length-append v (replicate p p) ∙ ap (λ n. length v + n) (length-replicate p p) in
    let back : length (v ++ replicate p p) - p ≡ length v = omega (arith, size) in
    let some_bytes : (length (v ++ replicate p p) == 0) ≡ false = ground (arith, size) in
    let blocks : (length (v ++ replicate p p) % 16 == 0) ≡ true = ground (arith, size) in
    let some_padding : (p == 0) ≡ false = ground arith in
    let at_most : ltb 16 p ≡ false = ground arith in
    let within : ltb (length (v ++ replicate p p)) p ≡ false = ground (arith, size) in
    rw
      (
        last_padded v p p pos,
        some_bytes,
        blocks,
        some_padding,
        at_most,
        within,
        back,
        drop-append (v) (replicate p p),
        all-replicate p p,
        take-append v (replicate p p),
      )
      refl

-- Unpadding a padded value gives the value back, with the AES block size.
pub pkcs7_unpad-pkcs7_pad : (v : Bytes) → pkcs7_unpad (pkcs7_pad v 16) 16 ≡ ok v
unfolding pkcs7_pad
pkcs7_unpad-pkcs7_pad v =
    let small : (16 - length v % 16) % 256 ≡ 16 - length v % 16 = omega arith in
    ap (λ p. pkcs7_unpad (v ++ replicate (16 - length v % 16) p) 16) small
    ∙ padded_IsAccepted v (16 - length v % 16) (omega arith) (omega arith) (omega arith)

-- The tests that a value passes, with the value's last byte `p`.
record Accepted (v w : Bytes) (p : ℕ) : Type 0 where
  blocks : length v % 16 ≡ 0
  some_padding : 0 < p
  at_most : p ≤ 16
  within : p ≤ length v
  equal : all (λ item. item == p) (drop (length v - p) v) ≡ true
  value : take (length v - p) v ≡ w

accepted :
    (v w : Bytes) → pkcs7_unpad v 16 ≡ ok w → Accepted v w (first_byte (drop (length v - 1) v))
unfolding pkcs7_unpad
accepted v w h = record {
  blocks = ground arith;
  some_padding = ground arith;
  at_most = ground arith;
  within = ground arith;
  equal = ground arith;
  value = ground arith;
}

Accepted-Padded : (v w : Bytes) (p : ℕ) → Accepted v w p → pkcs7_pad w 16 ≡ v
unfolding pkcs7_pad
Accepted-Padded v w p a =
    let kept : length w ≡ length v - p =
      ap length (sym a.value) ∙ omega (arith, length-take (length v - p) v, a.within) in
    let padding : 16 - length w % 16 ≡ p =
      omega (arith, kept, a.blocks, a.some_padding, a.at_most, a.within) in
    let byte : p % 256 ≡ p = omega (arith, a.at_most) in
    let rest : length (drop (length v - p) v) ≡ p =
      omega (arith, length-drop (length v - p) v, a.within) in
    let tail : drop (length v - p) v ≡ replicate p p =
      all_equal p (drop (length v - p) v) a.equal ∙ ap (λ n. replicate n p) rest in
    ap (λ k. w ++ replicate k (k % 256)) padding
    ∙ ap (λ c. w ++ replicate p c) byte
    ∙ ap₂ (λ x y. x ++ y) (sym a.value) (sym tail)
    ∙ take-append-drop (length v - p) v

-- What unpadding accepts is the padding of what it returns, with the AES block size: no value has a second
-- padded form.
pub pkcs7_pad-pkcs7_unpad : (v w : Bytes) → pkcs7_unpad v 16 ≡ ok w → pkcs7_pad w 16 ≡ v
pkcs7_pad-pkcs7_unpad v w h = Accepted-Padded v w _ (accepted v w h)

pub length-pkcs7_pad : (v : Bytes) → length (pkcs7_pad v 16) ≡ length v + (16 - length v % 16)
unfolding pkcs7_pad
length-pkcs7_pad v =
    let p = 16 - length v % 16 in
    omega (arith, length-append v (replicate p (p % 256)), length-replicate p (p % 256))

replicate-AreBytes : (k p : ℕ) → p < 256 → AreBytes (replicate k p)
replicate-AreBytes zero p h = tt
replicate-AreBytes (suc k) p h = (h, replicate-AreBytes k p h)

pub pkcs7_pad-AreBytes : (v : Bytes) → AreBytes v → AreBytes (pkcs7_pad v 16)
unfolding pkcs7_pad
pkcs7_pad-AreBytes v h = AreBytes-append v _ h (replicate-AreBytes _ _ (omega arith))
