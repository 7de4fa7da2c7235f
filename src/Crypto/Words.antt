-- ===== src/Crypto/Words.antt =====
-- `binary.BigEndian`: words as bytes.
use dpwire.Prelude.{
  ℕ, zero, suc, ◌+◌, ◌*◌, ◌/◌, ◌%◌, ◌^◌, ◌<◌, ◌≡◌, refl, ap, ◌∙◌, [], ◌∷◌, ◌++◌, Bytes, length, All,
  arith, length-append, append-nil, append_assoc,
}
use mathlib.Core.Path.{ap₂}
use native.Mathlib.Nat.{pow-suc, add-zero}

abbrev pub AreBytes : Bytes → Type 0
AreBytes = All (λ c. c < 256)

-- `binary.BigEndian.Uint64(b)` behind the bytes read so far.
unfoldable pub word_from : ℕ → Bytes → ℕ
word_from n [] = n
word_from n (c ∷ cs) = word_from (n * 256 + c) cs

unfoldable pub uint64 : Bytes → ℕ
unfolding word_from
uint64 b = word_from 0 b

-- The last `k` bytes of a word.
unfoldable pub word_bytes : ℕ → ℕ → Bytes
word_bytes zero x = []
word_bytes (suc k) x = word_bytes k (x / 256) ++ x % 256 ∷ []

-- `binary.BigEndian.PutUint64(b, x)`
unfoldable pub put_uint64 : ℕ → Bytes
unfolding word_bytes
put_uint64 x = word_bytes 8 x

word_from-concat :
    (n : ℕ) (xs : Bytes) (c : ℕ) → word_from n (xs ++ c ∷ []) ≡ word_from n xs * 256 + c
unfolding word_from
word_from-concat n [] c = refl
word_from-concat n (x ∷ xs) c = word_from-concat (n * 256 + x) xs c

word_from-word_bytes : (k x : ℕ) → x < 256 ^ k → word_from 0 (word_bytes k x) ≡ x
unfolding word_bytes word_from
word_from-word_bytes zero x h = omega arith
word_from-word_bytes (suc k) x h = omega (
  arith,
  word_from-concat 0 (word_bytes k (x / 256)) (x % 256),
  word_from-word_bytes k (x / 256) (omega (arith, pow-suc 256 k)),
)

length-word_bytes : (k x : ℕ) → length (word_bytes k x) ≡ k
unfolding word_bytes
length-word_bytes zero x = refl
length-word_bytes (suc k) x =
    omega
      (arith, length-append (word_bytes k (x / 256)) (x % 256 ∷ []), length-word_bytes k (x / 256))

pub AreBytes-append : (xs ys : Bytes) → AreBytes xs → AreBytes ys → AreBytes (xs ++ ys)
AreBytes-append [] ys h k = k
AreBytes-append (x ∷ xs) ys h k = (h.0, AreBytes-append xs ys h.1 k)

word_bytes-AreBytes : (k x : ℕ) → AreBytes (word_bytes k x)
unfolding word_bytes
word_bytes-AreBytes zero x = tt
word_bytes-AreBytes (suc k) x =
    AreBytes-append (word_bytes k (x / 256)) _ (word_bytes-AreBytes k (x / 256)) (omega arith)

pub put_uint64-AreBytes : (x : ℕ) → AreBytes (put_uint64 x)
unfolding put_uint64
put_uint64-AreBytes x = word_bytes-AreBytes 8 x

pub length-put_uint64 : (x : ℕ) → length (put_uint64 x) ≡ 8
unfolding put_uint64
length-put_uint64 x = length-word_bytes 8 x

pub uint64-put_uint64 : (x : ℕ) → x < 2 ^ 64 → uint64 (put_uint64 x) ≡ x
unfolding uint64 put_uint64
uint64-put_uint64 x h = word_from-word_bytes 8 x (omega arith)

word_bytes_at : (k m x : ℕ) → k ≡ m → word_bytes k x ≡ word_bytes m x
word_bytes_at k m x e = ap (λ j. word_bytes j x) e

word_from-lt :
    (k n : ℕ) (b : Bytes) → AreBytes b → n < 256 ^ k → word_from n b < 256 ^ (k + length b)
unfolding word_from
word_from-lt k n [] h lt = rw add-zero lt
word_from-lt k n (c ∷ cs) h lt =
    let same : suc k + length cs ≡ k + suc (length cs) = omega arith in
    rw (ap (λ (j : ℕ). 256 ^ j) same) at
      (word_from-lt (suc k) (n * 256 + c) cs h.1 (omega (arith, pow-suc 256 k, h.0)))

pub uint64-lt : (b : Bytes) → length b ≡ 8 → AreBytes b → uint64 b < 2 ^ 64
unfolding uint64
uint64-lt b l h = rw l at (word_from-lt 0 0 b h (omega arith))

-- Reading `b` behind `n`, and writing as many bytes again.
word_bytes-word_from :
    (n : ℕ) (b : Bytes)
    → AreBytes b
    → (k : ℕ) → word_bytes (length b + k) (word_from n b) ≡ word_bytes k n ++ b
unfolding word_from word_bytes
word_bytes-word_from n [] h k = rw append-nil (word_bytes_at (0 + k) k n (omega arith))
word_bytes-word_from n (c ∷ cs) h k =
    let high : (n * 256 + c) / 256 ≡ n = omega (arith, h.0) in
    let low : (n * 256 + c) % 256 ≡ c = omega (arith, h.0) in
    word_bytes_at (suc (length cs) + k) (length cs + suc k) (word_from (n * 256 + c) cs)
      (omega arith)
    ∙ word_bytes-word_from (n * 256 + c) cs h.1 (suc k)
    ∙ ap₂ (λ a d. (word_bytes k a ++ d ∷ []) ++ cs) high low
    ∙ append_assoc (word_bytes k n) (c ∷ []) cs

pub put_uint64-uint64 : (b : Bytes) → length b ≡ 8 → AreBytes b → put_uint64 (uint64 b) ≡ b
unfolding uint64 put_uint64
put_uint64-uint64 b l h =
    word_bytes_at 8 (length b + 0) (word_from 0 b) (omega (arith, l)) ∙ word_bytes-word_from 0 b h 0

-- big.Int: `SetBytes(b)`, and `FillBytes` into `k` bytes.
unfoldable pub set_bytes : Bytes → ℕ
unfolding word_from
set_bytes b = word_from 0 b

unfoldable pub fill_bytes : ℕ → ℕ → Bytes
unfolding word_bytes
fill_bytes k x = word_bytes k x

pub set_bytes-fill_bytes : (k x : ℕ) → x < 256 ^ k → set_bytes (fill_bytes k x) ≡ x
unfolding set_bytes fill_bytes
set_bytes-fill_bytes k x h = word_from-word_bytes k x h

-- A sign byte in front changes nothing.
pub set_bytes-zero : (b : Bytes) → set_bytes (0 ∷ b) ≡ set_bytes b
unfolding set_bytes word_from
set_bytes-zero b =
    let none_before : 0 * 256 + 0 ≡ 0 = omega arith in ap (λ n. word_from n b) none_before

pub length-fill_bytes : (k x : ℕ) → length (fill_bytes k x) ≡ k
unfolding fill_bytes
length-fill_bytes k x = length-word_bytes k x

pub fill_bytes-AreBytes : (k x : ℕ) → AreBytes (fill_bytes k x)
unfolding fill_bytes
fill_bytes-AreBytes k x = word_bytes-AreBytes k x
