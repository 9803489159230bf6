-- ===== src/Importer/Flatmap.antt =====
-- importer/flatmap: the values of a nested map under the paths to them, and the keys of such a map.

use Prim.Native.Char.{code}
use Prim.Native.String.{char_at}
use jasons_game.Base.{
  ℕ, zero, suc, ◌/◌, ◌%◌, String, Bool, true, false, ◌||◌, ◌<>◌, ◌==◌, starts_with, List, [], ◌∷◌,
  some, none, insert, has, ltb, eqb, if◌then◌else◌,
}
use jasons_game.Network.{
  Value, Values, Fields, null, text, bool, number, list, object, link, nil, cons, end, field, Res,
  ok, panic,
}
use jasons_game.Game.Commands.{after_prefix}
use jasons_game.Game.Interactions.Sealed.{then_of}

abbrev pub FlatMap : Type 0
FlatMap = List (String × String)

-- fmt's %d; a number has fewer digits than its value and one
unfoldable pub decimal_digits : ℕ → ℕ → String → String
decimal_digits zero n rest = rest
decimal_digits (suc fuel) n rest =
    let next = String.◌∷◌ (char_at "0123456789" (n % 10)) rest in
    let longer = decimal_digits fuel (n / 10) next in if ltb n 10 then next else longer

unfoldable pub decimal : ℕ → String
unfolding decimal_digits
decimal n = decimal_digits (suc n) n ""

unfoldable mutual
  pub flatten_value : String → Value → FlatMap → Res FlatMap
  flatten_value prefix null result = panic
  flatten_value prefix (text s) result = ok (insert prefix s result)
  flatten_value prefix (bool true) result = ok (insert prefix "true" result)
  flatten_value prefix (bool false) result = ok (insert prefix "false" result)
  flatten_value prefix (number n) result = ok (insert prefix (decimal n) result)
  flatten_value prefix (list vs) result = flatten_slice (prefix <> "/") 0 vs result
  flatten_value prefix (object m) result = flatten_map (prefix <> "/") m result
  flatten_value prefix (link c) result = panic

  pub flatten_slice : String → ℕ → Values → FlatMap → Res FlatMap
  flatten_slice prefix i nil result = ok result
  flatten_slice prefix i (cons v vs) result =
      then_of (flatten_value (prefix <> decimal i) v result) (flatten_slice prefix (suc i) vs)

  pub flatten_map : String → Fields → FlatMap → Res FlatMap
  flatten_map prefix end result = ok result
  flatten_map prefix (field k v rest) result =
      then_of (flatten_value (prefix <> k) v result) (flatten_map prefix rest)

-- Flatten
unfoldable pub flatten : Fields → Res FlatMap
unfolding flatten_map
flatten thing = flatten_map "" thing []

-- k[:idx] up to the first dot
unfoldable pub before_dot : String → String
before_dot String.[] = ""
before_dot (String.◌∷◌ c s) =
    let rest = before_dot s in if eqb (code c) b'.' then "" else String.◌∷◌ c rest

-- Keys: the top-level keys, each once
unfoldable pub keys_loop : FlatMap → List String → List String
unfolding before_dot
keys_loop [] ks = ks
keys_loop ((k, v) ∷ m) ks = keys_loop m (if has (before_dot k) ks then ks else before_dot k ∷ ks)

unfoldable pub keys : FlatMap → List String
unfolding keys_loop
keys m = keys_loop m []

unfoldable pub contains : FlatMap → String → Bool
unfolding keys
contains m key = has key (keys m)

unfoldable pub starts_with_dot : String → Bool
starts_with_dot String.[] = false
starts_with_dot (String.◌∷◌ c s) = eqb (code c) b'.'

-- `k == prefix`, or the prefix and a dot after it
unfoldable pub is_under : String → String → Bool
unfolding starts_with_dot
is_under prefix k = elim (after_prefix prefix k) [
  | none ↦ false
  | some rest ↦ rest == "" || starts_with_dot rest
]

unfoldable pub delete : String → FlatMap → FlatMap
unfolding is_under
delete prefix [] = []
delete prefix ((k, v) ∷ m) =
    let rest = delete prefix m in if is_under prefix k then rest else (k, v) ∷ rest

unfoldable pub put_prefixed : String → FlatMap → FlatMap → FlatMap
put_prefixed prefix [] m = m
put_prefixed prefix ((k, v) ∷ m2) m =
    put_prefixed prefix m2 (if starts_with k prefix then insert k v m else m)

unfoldable pub merge_keys : List String → FlatMap → FlatMap → FlatMap
unfolding delete put_prefixed
merge_keys [] m2 m = m
merge_keys (prefix ∷ rest) m2 m = merge_keys rest m2 (put_prefixed prefix m2 (delete prefix m))

unfoldable pub merge : FlatMap → FlatMap → FlatMap
unfolding merge_keys keys
merge m m2 = merge_keys (keys m2) m2 m
