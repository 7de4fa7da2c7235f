-- ===== src/Prelude/Dict/Keys.antt =====
-- Maps in which every key has one entry.
use mathlib.Core.Path.{◌≡◌, ap, ◌∙◌}
use mathlib.Core.Option
use mathlib.Core.Bool.{Bool}
use mathlib.Core.List.{[], ◌∷◌}
use mathlib.Core.Option.{Option, none, some}
use native.Mathlib.Omega.{arith}
use dpwire.Prelude.Tests.{if◌then◌else◌}
use dpwire.Prelude.Text.{Bytes, bytes_eq_iff}
use dpwire.Prelude.Dict.{
  Dict, lookup, insert, erase, map_values, delete_where, lookup-insert, lookup-erase,
  lookup-map_values,
}

module _ {ℓ} {V : Type ℓ} where
  abbrev pub UniqueKeys : Dict V → Type ℓ
  UniqueKeys [] = Unit
  UniqueKeys ((k, v) ∷ m) = (lookup k m ≡ none) × UniqueKeys m

  pub insert-UniqueKeys :
      (k : Bytes) (v : V) (m : Dict V) → UniqueKeys m → UniqueKeys (insert k v m)
  unfolding insert lookup
  insert-UniqueKeys k v [] h = ground arith
  insert-UniqueKeys k v ((j, w) ∷ m) h = ground (
    arith,
    bytes_eq_iff j k,
    bytes_eq_iff k j,
    lookup-insert k j v m,
    insert-UniqueKeys k v m h.1,
  )

  pub erase-UniqueKeys : (k : Bytes) (m : Dict V) → UniqueKeys m → UniqueKeys (erase k m)
  unfolding erase
  erase-UniqueKeys k [] h = tt
  erase-UniqueKeys k ((j, w) ∷ m) h = ground (arith, lookup-erase k j m, erase-UniqueKeys k m h.1)

  pub map_values-UniqueKeys : (f : V → V) (m : Dict V) → UniqueKeys m → UniqueKeys (map_values f m)
  unfolding map_values
  map_values-UniqueKeys f [] h = tt
  map_values-UniqueKeys f ((j, w) ∷ m) h =
      (lookup-map_values f j m ∙ ap (Option.map f) h.0, map_values-UniqueKeys f m h.1)

  -- What is left under a key after a deletion by a test on values.
  abbrev pub kept : (V → Bool) → Option V → Option V
  kept p none = none
  kept p (some v) = if p v then none else some v

  pub lookup-delete_where :
      (p : V → Bool) (k : Bytes) (m : Dict V)
      → UniqueKeys m
      → lookup k (delete_where p m) ≡ kept p (lookup k m)
  unfolding lookup delete_where
  lookup-delete_where p k [] h = ground arith
  lookup-delete_where p k ((j, w) ∷ m) h =
      ground (arith, bytes_eq_iff j k, lookup-delete_where p k m h.1)

  pub delete_where-UniqueKeys :
      (p : V → Bool) (m : Dict V) → UniqueKeys m → UniqueKeys (delete_where p m)
  unfolding delete_where
  delete_where-UniqueKeys p [] h = tt
  delete_where-UniqueKeys p ((j, w) ∷ m) h =
      ground (arith, lookup-delete_where p j m h.1, delete_where-UniqueKeys p m h.1)
