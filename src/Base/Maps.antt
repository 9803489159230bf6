-- ===== src/Base/Maps.antt =====
-- Go's `map[string]V`, as the list of its entries. The order of the entries is the order in which
-- this map happens to be ranged over; `range` of the network's interface may change it.
use Prim.Native.String.{String}
use mathlib.Core.Path.{◌≡◌, refl, ap}
use mathlib.Core.Option.{Option, none, some}
use mathlib.Core.List.{List, [], ◌∷◌}
use native.Mathlib.Omega.{arith}
use text.Mathlib.Text.{◌==◌}
use text.Mathlib.TextEquality.{eq_iff}
use jasons_game.Base.Tests.{if◌then◌else◌, Bool-cases}
use mathlib.Core.Logic.{inl, inr}

module _ {ℓ} {V : Type ℓ} where
  -- m[k]
  abbrev pub lookup : String → List (String × V) → Option V
  lookup k [] = none
  lookup k ((j, v) ∷ m) = if j == k then some v else lookup k m

  -- m[k] = v
  abbrev pub insert : String → V → List (String × V) → List (String × V)
  insert k v [] = (k, v) ∷ []
  insert k v ((j, w) ∷ m) = if j == k then (k, v) ∷ m else (j, w) ∷ insert k v m

  -- delete(m, k)
  abbrev pub remove_key : String → List (String × V) → List (String × V)
  remove_key k [] = []
  remove_key k ((j, v) ∷ m) = let rest = remove_key k m in if j == k then rest else (j, v) ∷ rest

  pub lookup-insert :
      (k j : String) (v : V) (m : List (String × V))
      → lookup j (insert k v m) ≡ (if k == j then some v else lookup j m)
  lookup-insert k j v [] = refl
  lookup-insert k j v ((i, w) ∷ m) =
      ground (arith, eq_iff k j, eq_iff i k, eq_iff i j, lookup-insert k j v m)

  pub lookup-remove_key :
      (k j : String) (m : List (String × V))
      → lookup j (remove_key k m) ≡ (if k == j then none else lookup j m)
  lookup-remove_key k j [] = ground arith
  lookup-remove_key k j ((i, w) ∷ m) =
      ground (arith, eq_iff k j, eq_iff i k, eq_iff i j, lookup-remove_key k j m)

  -- No key stands twice.
  abbrev pub IsMap : List (String × V) → Type ℓ
  IsMap [] = Unit
  IsMap ((k, v) ∷ m) = (lookup k m ≡ none) × IsMap m

  pub insert-IsMap : (k : String) (v : V) (m : List (String × V)) → IsMap m → IsMap (insert k v m)
  insert-IsMap k v [] h = (refl, tt)
  insert-IsMap k v ((j, w) ∷ m) h = elim (Bool-cases (j == k)) [
    | inl e ↦ rw e (ground (arith, eq_iff j k, ap (λ i. lookup i m) ((eq_iff j k).0 e)))
    | inr e ↦
        rw e (ground (arith, eq_iff k j, eq_iff j k, lookup-insert k j v m), insert-IsMap k v m h.1)
  ]

  pub remove_key-IsMap : (k : String) (m : List (String × V)) → IsMap m → IsMap (remove_key k m)
  remove_key-IsMap k [] h = tt
  remove_key-IsMap k ((j, w) ∷ m) h = elim (Bool-cases (j == k)) [
    | inl e ↦ rw e (remove_key-IsMap k m h.1)
    | inr e ↦ rw e (ground (arith, lookup-remove_key k j m), remove_key-IsMap k m h.1)
  ]
