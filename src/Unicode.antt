-- ===== src/Unicode.antt =====
-- `utf8.ValidString`, and `unicode.IsControl` over the runes of a string.
use dpwire.Prelude.{
  ℕ, zero, suc, Bool, true, false, ◌&&◌, ◌||◌, [], ◌∷◌, Bytes, ltb, leb, ◌==◌, if◌then◌else◌,
}

abbrev pub between : ℕ → ℕ → ℕ → Bool
between lo hi c = leb lo c && leb c hi

-- What may follow: `more` continuation bytes, the next of them in a range. Invalid text is `none`.
pub data Pending : Type 0 where
  start : Pending
  need : ℕ → ℕ → ℕ → Pending
  bad : Pending

lead : ℕ → Pending
lead c =
    if ltb c 0x80
    then start
    else if between 0xc2 0xdf c
    then need 0 0x80 0xbf
    else if c == 0xe0
    then need 1 0xa0 0xbf
    else if c == 0xed
    then need 1 0x80 0x9f
    else if between 0xe1 0xef c
    then need 1 0x80 0xbf
    else if c == 0xf0
    then need 2 0x90 0xbf
    else if between 0xf1 0xf3 c
    then need 2 0x80 0xbf
    else if c == 0xf4
    then need 2 0x80 0x8f
    else bad

after : ℕ → Pending
after zero = start
after (suc more) = need more 0x80 0xbf

next : Pending → ℕ → Pending
next start c = lead c
next (need more lo hi) c = if between lo hi c then after more else bad
next bad c = bad

valid_from : Pending → Bytes → Bool
valid_from start [] = true
valid_from (need more lo hi) [] = false
valid_from bad [] = false
valid_from p (c ∷ cs) = valid_from (next p c) cs

unfoldable pub valid_string : Bytes → Bool
unfolding valid_from next lead after
valid_string s = valid_from start s

-- U+0080 to U+009F are 0xC2 and a byte up to 0x9F; 0xC2 always begins a rune.
c1_follows : Bytes → Bool
c1_follows [] = false
c1_follows (d ∷ ds) = between 0x80 0x9f d

control_at : ℕ → Bytes → Bool
unfolding c1_follows
control_at c cs = ltb c 0x20 || c == 0x7f || (c == 0xc2 && c1_follows cs)

-- containsControl of remote_path.go
unfoldable pub contains_control : Bytes → Bool
unfolding control_at
contains_control [] = false
contains_control (c ∷ cs) = control_at c cs || contains_control cs
