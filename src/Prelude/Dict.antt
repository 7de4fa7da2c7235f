-- ===== src/Prelude/Dict.antt =====
-- Go's maps with string keys, as association lists. `insert` writes in place or appends.
pub mod Every
pub mod Keys
use mathlib.Core.Path.{◌≡◌, refl}
use mathlib.Core.Bool.{Bool, false, ◌||◌}
use mathlib.Core.List.{List, [], ◌∷◌}
use mathlib.Core.Option
use mathlib.Core.Option.{Option, none, some}
use native.Mathlib.Omega.{arith}
use dpwire.Prelude.Tests.{if◌then◌else◌}
use dpwire.Prelude.Text.{Bytes, bytes_eq, bytes_eq_iff}

abbrev pub Dict {ℓ} : Type ℓ → Type ℓ
Dict V = List (Bytes × V)

module _ {ℓ} {V : Type ℓ} where
  -- `v, ok := m[k]`
  unfoldable pub lookup : Bytes → Dict V → Option V
  lookup k [] = none
  lookup k ((j, v) ∷ m) = if bytes_eq j k then some v else lookup k m

  -- `m[k] = v`
  unfoldable pub insert : Bytes → V → Dict V → Dict V
  insert k v [] = (k, v) ∷ []
  insert k v ((j, w) ∷ m) = if bytes_eq j k then (k, v) ∷ m else (j, w) ∷ insert k v m

  -- `delete(m, k)`
  unfoldable pub erase : Bytes → Dict V → Dict V
  erase k [] = []
  erase k ((j, w) ∷ m) = let rest = erase k m in if bytes_eq j k then rest else (j, w) ∷ rest

  -- `for k, v := range m { if p { return true } }; return false`
  unfoldable pub any_entry : (Bytes → V → Bool) → Dict V → Bool
  any_entry p [] = false
  any_entry p ((j, w) ∷ m) = p j w || any_entry p m

  -- `for k, v := range m { m[k] = f(v) }`
  unfoldable pub map_values : (V → V) → Dict V → Dict V
  map_values f [] = []
  map_values f ((j, w) ∷ m) = (j, f w) ∷ map_values f m

  -- `for k, v := range m { if p { delete(m, k) } }`
  unfoldable pub delete_where : (V → Bool) → Dict V → Dict V
  delete_where p [] = []
  delete_where p ((j, w) ∷ m) = let rest = delete_where p m in if p w then rest else (j, w) ∷ rest

  pub lookup-insert :
      (k j : Bytes) (v : V) (m : Dict V)
      → lookup j (insert k v m) ≡ (if bytes_eq k j then some v else lookup j m)
  unfolding lookup insert
  lookup-insert k j v [] = refl
  lookup-insert k j v ((i, w) ∷ m) =
      ground (arith, bytes_eq_iff k j, bytes_eq_iff i k, bytes_eq_iff i j, lookup-insert k j v m)

  pub lookup-erase :
      (k j : Bytes) (m : Dict V)
      → lookup j (erase k m) ≡ (if bytes_eq k j then none else lookup j m)
  unfolding lookup erase
  lookup-erase k j [] = ground arith
  lookup-erase k j ((i, w) ∷ m) =
      ground (arith, bytes_eq_iff k j, bytes_eq_iff i k, bytes_eq_iff i j, lookup-erase k j m)

  pub lookup-map_values :
      (f : V → V) (k : Bytes) (m : Dict V) → lookup k (map_values f m) ≡ Option.map f (lookup k m)
  unfolding lookup map_values
  lookup-map_values f k [] = refl
  lookup-map_values f k ((i, w) ∷ m) = ground (arith, lookup-map_values f k m)

  -- An entry under a key is found by a search over all entries.
  pub any_entry-lookup :
      (p : Bytes → V → Bool) (k : Bytes) (v : V) (m : Dict V)
      → any_entry p m ≡ false
      → lookup k m ≡ some v
      → p k v ≡ false
  unfolding any_entry lookup
  any_entry-lookup p k v [] h e = ground arith
  any_entry-lookup p k v ((i, w) ∷ m) h e =
      ground (arith, bytes_eq_iff i k, any_entry-lookup p k v m)
