-- ===== src/Segments.antt =====
-- `strings.Split(s, "/")` and its inverse, for remote_path.go, entries.go and cmd/dp.
use dpwire.Prelude.{
  ℕ, ◌≡◌, ◌≢◌, refl, sym, ap, ◌∙◌, inl, inr, List, [], ◌∷◌, ◌++◌, Bytes, ◌==◌, ==_iff,
  if◌then◌else◌, arith, Bool-cases, All,
}

abbrev pub slash : ℕ
slash = 47

put_first : ℕ → List Bytes → List Bytes
put_first c [] = (c ∷ []) ∷ []
put_first c (s ∷ ss) = (c ∷ s) ∷ ss

unfoldable pub split : Bytes → List Bytes
unfolding put_first
split [] = [] ∷ []
split (c ∷ cs) = let rest = split cs in if c == slash then [] ∷ rest else put_first c rest

-- `strings.Join(segments, "/")`
unfoldable pub join : List Bytes → Bytes
join [] = []
join (s ∷ []) = s
join (s ∷ (t ∷ ts)) = s ++ (slash ∷ join (t ∷ ts))

join-put_first : (c : ℕ) (ss : List Bytes) → join (put_first c ss) ≡ c ∷ join ss
unfolding put_first join
join-put_first c [] = refl
join-put_first c (s ∷ []) = refl
join-put_first c (s ∷ (t ∷ ts)) = refl

join_after_slash : (ss : List Bytes) → ss ≢ [] → join ([] ∷ ss) ≡ slash ∷ join ss
unfolding join
join_after_slash [] h = absurd (h refl)
join_after_slash (s ∷ ss) h = refl

put_first-ne-nil : (c : ℕ) (ss : List Bytes) → put_first c ss ≢ []
unfolding put_first
put_first-ne-nil c [] h = ground arith
put_first-ne-nil c (s ∷ ss) h = ground arith

pub split-ne-nil : (s : Bytes) → split s ≢ []
unfolding split
split-ne-nil [] h = ground arith
split-ne-nil (c ∷ cs) h = elim (Bool-cases (c == slash)) [
  | inl e ↦ ground (arith, rw (split, e) at h)
  | inr e ↦ put_first-ne-nil c (split cs) (rw (split, e) at h)
]

abbrev pub NoSlash : Bytes → Type 0
NoSlash s = All (λ c. c ≢ slash) s

put_first-NoSlash :
    (c : ℕ) (ss : List Bytes) → c ≢ slash → All NoSlash ss → All NoSlash (put_first c ss)
unfolding put_first
put_first-NoSlash c [] h hs = ((h, tt), tt)
put_first-NoSlash c (s ∷ ss) h hs = ((h, hs.0), hs.1)

-- No segment has a slash.
pub split-NoSlash : (s : Bytes) → All NoSlash (split s)
unfolding split
split-NoSlash [] = (tt, tt)
split-NoSlash (c ∷ cs) = elim (Bool-cases (c == slash)) [
  | inl e ↦ rw (split, e) (tt, split-NoSlash cs)
  | inr e ↦
      rw (split, e)
        (put_first-NoSlash c (split cs) (λ h. ground (arith, (==_iff c slash).1 h))
          (split-NoSlash cs))
]

-- Joining the segments of a string gives the string back.
pub join-split : (s : Bytes) → join (split s) ≡ s
unfolding split join
join-split [] = refl
join-split (c ∷ cs) = elim (Bool-cases (c == slash)) [
  | inl e ↦
      rw (split, e)
        (join_after_slash (split cs) (split-ne-nil cs)
          ∙ ap (λ r. slash ∷ r) (join-split cs)
          ∙ ap (λ d. d ∷ cs) (sym ((==_iff c slash).0 e)))
  | inr e ↦ rw (split, e) (join-put_first c (split cs) ∙ ap (◌∷◌ c) (join-split cs))
]
