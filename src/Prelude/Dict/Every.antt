-- ===== src/Prelude/Dict/Every.antt =====
-- A predicate of every entry of a map.
use mathlib.Core.Path.{◌≡◌, subst₂}
use mathlib.Core.Logic.{inl, inr}
use mathlib.Core.Bool.{Bool}
use mathlib.Core.List.{[], ◌∷◌}
use mathlib.Core.Option.{some}
use native.Mathlib.Omega.{arith}
use dpwire.Prelude.Text.{Bytes, bytes_eq, bytes_eq_iff}
use dpwire.Prelude.Tests.{Bool-cases}
use dpwire.Prelude.Dict.{Dict, lookup, insert, erase, map_values, delete_where}

module _ {ℓ κ} {V : Type ℓ} where
  abbrev pub Every : (Bytes → V → Type κ) → Dict V → Type κ
  Every P [] = Unit
  Every P ((k, v) ∷ m) = P k v × Every P m

module _ {ℓ κ} {V : Type ℓ} (P : Bytes → V → Type κ) where
  pub Every-lookup : (k : Bytes) (v : V) (m : Dict V) → Every P m → lookup k m ≡ some v → P k v
  unfolding lookup
  Every-lookup k v [] h e = cc
  Every-lookup k v ((j, w) ∷ m) h e = elim (Bool-cases (bytes_eq j k)) [
    | inl same ↦ let value : w ≡ v = ground arith in subst₂ P ((bytes_eq_iff j k).0 same) value h.0
    | inr other ↦ Every-lookup k v m h.1 (rw other at e)
  ]

  pub Every-insert : (k : Bytes) (v : V) (m : Dict V) → P k v → Every P m → Every P (insert k v m)
  unfolding insert
  Every-insert k v [] p h = (p, tt)
  Every-insert k v ((j, w) ∷ m) p h = ground (arith, Every-insert k v m p h.1)

  pub Every-erase : (k : Bytes) (m : Dict V) → Every P m → Every P (erase k m)
  unfolding erase
  Every-erase k [] h = tt
  Every-erase k ((j, w) ∷ m) h = ground (arith, Every-erase k m h.1)

  pub Every-map_values :
      (f : V → V) (m : Dict V)
      → ((k : Bytes) (v : V) → P k v → P k (f v))
      → Every P m
      → Every P (map_values f m)
  unfolding map_values
  Every-map_values f [] step h = tt
  Every-map_values f ((j, w) ∷ m) step h = (step j w h.0, Every-map_values f m step h.1)

  pub Every-delete_where : (p : V → Bool) (m : Dict V) → Every P m → Every P (delete_where p m)
  unfolding delete_where
  Every-delete_where p [] h = tt
  Every-delete_where p ((j, w) ∷ m) h = ground (arith, Every-delete_where p m h.1)

module _ {ℓ κ ι} {V : Type ℓ} {P : Bytes → V → Type κ} {Q : Bytes → V → Type ι} where
  pub Every-imp : (m : Dict V) → ((k : Bytes) (v : V) → P k v → Q k v) → Every P m → Every Q m
  Every-imp [] step h = tt
  Every-imp ((j, w) ∷ m) step h = (step j w h.0, Every-imp m step h.1)
