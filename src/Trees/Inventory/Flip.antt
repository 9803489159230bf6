-- ===== src/Trees/Inventory/Flip.antt =====
-- Swapping keys and values of a map: what the two loops of the inventory build.
use jasons_game.Base.{
  String, ◌≡◌, refl, ◌∙◌, ap, ◌⊎◌, inl, inr, true, some, List, [], ◌∷◌, arith, lookup, insert,
  IsMap, lookup-insert, insert-IsMap, eq_iff, eq_refl, is_some, String-cases, Option-cases,
}
use jasons_game.Network.{ok, of_strings, entries}
use jasons_game.Trees.Inventory.{collect, reverse_objects}

abbrev pub Map : Type 0
Map = List (String × String)

pub collect-of_strings :
    (names objects : Map)
    → collect (entries (of_strings names)) objects ≡ ok (reverse_objects names objects)
unfolding collect reverse_objects
collect-of_strings [] objects = refl
collect-of_strings ((k, v) ∷ names) objects = collect-of_strings names (insert v k objects)

pub reverse_objects-IsMap : (m acc : Map) → IsMap acc → IsMap (reverse_objects m acc)
unfolding reverse_objects
reverse_objects-IsMap [] acc h = h
reverse_objects-IsMap ((k, v) ∷ m) acc h =
    reverse_objects-IsMap m (insert v k acc) (insert-IsMap v k acc h)

-- What the swapped map holds stands in the map, or stood in the accumulator.
reverse_objects_sound :
    (m acc : Map) (k v : String)
    → IsMap m
    → lookup v (reverse_objects m acc) ≡ some k
    → (lookup k m ≡ some v) ⊎ (lookup v acc ≡ some k)
unfolding reverse_objects
reverse_objects_sound [] acc k v u h = inr h
reverse_objects_sound ((k0, v0) ∷ m) acc k v u h = ground (
  arith,
  reverse_objects_sound m (insert v0 k0 acc) k v u.1 h,
  lookup-insert v0 v k0 acc,
  eq_iff k0 k,
  eq_iff v0 v,
  eq_refl k,
)

reverse_objects-keeps :
    (m acc : Map) (v : String)
    → is_some (lookup v acc) ≡ true
    → is_some (lookup v (reverse_objects m acc)) ≡ true
unfolding reverse_objects
reverse_objects-keeps [] acc v h = h
reverse_objects-keeps ((k0, v0) ∷ m) acc v h =
    reverse_objects-keeps m (insert v0 k0 acc) v (ground (arith, lookup-insert v0 v k0 acc))

-- Every value of the map is a key of the swapped map.
reverse_objects_complete :
    (m acc : Map) (k v : String)
    → lookup k m ≡ some v
    → is_some (lookup v (reverse_objects m acc)) ≡ true
unfolding reverse_objects
reverse_objects_complete [] acc k v h = cc
reverse_objects_complete ((k0, v0) ∷ m) acc k v h = elim (String-cases k0 k) [
  | inl e ↦
      reverse_objects-keeps m (insert v0 k0 acc) v
        (ground (arith, lookup-insert v0 v k0 acc, eq_iff v0 v, eq_iff k0 k))
  | inr ne ↦ reverse_objects_complete m (insert v0 k0 acc) k v (ground arith)
]

-- The map that the loops build from an empty one, and what it holds.
abbrev pub swapped : Map → Map
swapped m = reverse_objects m []

pub swapped_sound :
    (m : Map) (k v : String) → IsMap m → lookup v (swapped m) ≡ some k → lookup k m ≡ some v
swapped_sound m k v u h = ground (arith, reverse_objects_sound m [] k v u h)

pub swapped_complete :
    (m : Map) (k v : String) → lookup k m ≡ some v → is_some (lookup v (swapped m)) ≡ true
swapped_complete m k v h = reverse_objects_complete m [] k v h

-- No two keys have one value.
abbrev pub IsInjective : Map → Type 0
IsInjective m = (k j v : String) → lookup k m ≡ some v → lookup j m ≡ some v → k ≡ j

pub swapped-IsInjective : (m : Map) → IsMap m → IsInjective (swapped m)
swapped-IsInjective m u k j v h h' =
    ground (arith, swapped_sound m v k u h, swapped_sound m v j u h')

-- Of a map with distinct values nothing is lost.
pub lookup-swapped :
    (m : Map) (k v : String)
    → IsMap m
    → IsInjective m
    → lookup k m ≡ some v
    → lookup v (swapped m) ≡ some k
lookup-swapped m k v u i h = elim (Option-cases (lookup v (swapped m))) [
  | inl e ↦ ground (arith, swapped_complete m k v h)
  | inr (j, e) ↦ e ∙ ap some (i j k v (swapped_sound m j v u e) h)
]
