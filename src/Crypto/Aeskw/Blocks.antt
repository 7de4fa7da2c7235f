-- ===== src/Crypto/Aeskw/Blocks.antt =====
-- Eight-byte blocks of a byte slice: reading one, writing one.
use dpwire.Prelude.{
  ℕ, zero, suc, ◌-◌, ◌*◌, ◌≤◌, ◌<◌, ◌≡◌, sym, ap, ◌∙◌, [], ◌∷◌, ◌++◌, Bytes, length, take, drop,
  arith, length-append, length-take, length-drop, take-append-drop, take-append_at, drop-append_at,
  append_assoc,
}
use mathlib.Core.Path.{ap₂}
use dpwire.Crypto.Words.{AreBytes, AreBytes-append}
use dpwire.Crypto.Aeskw.{block_at, set_block}

abbrev pub IsBlock : Bytes → Type 0
IsBlock b = (length b ≡ 16) × AreBytes b

-- A block cipher: under any key, decryption undoes encryption.
pub record BlockCipher : Type 0 where
  pub encrypt : Bytes → Bytes → Bytes
  pub decrypt : Bytes → Bytes → Bytes
  pub encrypt-IsBlock : (k b : Bytes) → IsBlock b → IsBlock (encrypt k b)
  pub decrypt-encrypt : (k b : Bytes) → IsBlock b → decrypt k (encrypt k b) ≡ b

-- Bytes and their parts.
pub AreBytes-take : (k : ℕ) (b : Bytes) → AreBytes b → AreBytes (take k b)
AreBytes-take zero b h = tt
AreBytes-take (suc k) [] h = tt
AreBytes-take (suc k) (c ∷ cs) h = (h.0, AreBytes-take k cs h.1)

pub AreBytes-drop : (k : ℕ) (b : Bytes) → AreBytes b → AreBytes (drop k b)
AreBytes-drop zero b h = h
AreBytes-drop (suc k) [] h = tt
AreBytes-drop (suc k) (c ∷ cs) h = AreBytes-drop k cs h.1

-- A slice in the middle: `r` is `before ++ block ++ behind`.
pub record Cut (r : Bytes) (i : ℕ) : Type 0 where
  pub before : Bytes
  pub block : Bytes
  pub behind : Bytes
  pub spells : r ≡ before ++ (block ++ behind)
  pub start : length before ≡ (i - 1) * 8
  pub full : length block ≡ 8

pub cut_at : (r : Bytes) (i : ℕ) → 0 < i → i * 8 ≤ length r → Cut r i
cut_at r i pos fits = record {
  before = take ((i - 1) * 8) r;
  block = take 8 (drop ((i - 1) * 8) r);
  behind = drop 8 (drop ((i - 1) * 8) r);
  spells = sym (
      ap (◌++◌ (take ((i - 1) * 8) r)) (take-append-drop 8 (drop ((i - 1) * 8) r))
      ∙ take-append-drop ((i - 1) * 8) r);
  start = omega (arith, length-take ((i - 1) * 8) r);
  full = omega (arith, length-take 8 (drop ((i - 1) * 8) r), length-drop ((i - 1) * 8) r);
}

-- Writing a block over the middle, and reading it back.
pub cut_block : (r : Bytes) (i : ℕ) (c : Cut r i) → block_at r i ≡ c.block
unfolding block_at
cut_block r i c =
    ap (λ x. take 8 (drop ((i - 1) * 8) x)) c.spells
    ∙ ap (take 8) (drop-append_at ((i - 1) * 8) c.before (c.block ++ c.behind) c.start)
    ∙ take-append_at 8 c.block c.behind c.full

cut_set :
    (r : Bytes) (i : ℕ) (v : Bytes)
    → 0 < i
    → (c : Cut r i) → set_block r i v ≡ c.before ++ (v ++ c.behind)
unfolding set_block
cut_set r i v pos c =
    let whole : r ≡ (c.before ++ c.block) ++ c.behind =
      c.spells ∙ sym (append_assoc c.before c.block c.behind) in
    let reach : length (c.before ++ c.block) ≡ i * 8 =
      omega (arith, length-append c.before c.block, c.start, c.full) in
    ap₂ (λ x y. x ++ (v ++ y))
      (ap (take ((i - 1) * 8)) c.spells ∙ take-append_at ((i - 1) * 8) c.before _ c.start)
      (ap (drop (i * 8)) whole ∙ drop-append_at (i * 8) (c.before ++ c.block) c.behind reach)

module _ (r : Bytes) (i : ℕ) (pos : 0 < i) (c : Cut r i) (v : Bytes) (full : length v ≡ 8) where
  set_cut : Cut (set_block r i v) i
  set_cut = record {
    before = c.before;
    block = v;
    behind = c.behind;
    spells = cut_set r i v pos c;
    start = c.start;
    full = full;
  }

  pub block_at-set_block : block_at (set_block r i v) i ≡ v
  unfolding set_cut
  block_at-set_block = cut_block (set_block r i v) i set_cut

  pub set_block-set_block : set_block (set_block r i v) i (block_at r i) ≡ r
  unfolding set_cut
  set_block-set_block =
      cut_set (set_block r i v) i (block_at r i) pos set_cut
      ∙ ap (λ x. c.before ++ (x ++ c.behind)) (cut_block r i c)
      ∙ sym c.spells

  pub length-set_block : length (set_block r i v) ≡ length r
  length-set_block = omega (
    arith,
    ap length (cut_set r i v pos c),
    ap length c.spells,
    length-append c.before (v ++ c.behind),
    length-append v c.behind,
    length-append c.before (c.block ++ c.behind),
    length-append c.block c.behind,
    c.full,
    full,
  )

pub set_block-AreBytes :
    (r : Bytes) (i : ℕ) (v : Bytes) → AreBytes r → AreBytes v → AreBytes (set_block r i v)
unfolding set_block
set_block-AreBytes r i v h g =
    AreBytes-append _ _ (AreBytes-take _ r h) (AreBytes-append v _ g (AreBytes-drop _ r h))
