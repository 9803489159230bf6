-- ===== src/Courts/Autumn/Combinations.antt =====
-- courts/autumn/element.go: the map from sets of elements to the element that they make. A key is
-- the sorted list of the ids, of which `fmt.Sprint` makes a text; different lists have different
-- texts, so that the lists are the keys here.
pub mod Found
use jasons_game.Base.{
  ℕ, Bool, true, false, ◌&&◌, Option, none, some, List, [], ◌∷◌, leb, eqb, if◌then◌else◌,
}

-- Go's int, of which the ids of elements use a small part
pub data ℤ : Type 0 where
  pos : ℕ → ℤ
  negsuc : ℕ → ℤ

abbrev pub le : ℤ → ℤ → Bool
le (pos a) (pos b) = leb a b
le (pos a) (negsuc b) = false
le (negsuc a) (pos b) = true
le (negsuc a) (negsuc b) = leb b a

abbrev pub same_id : ℤ → ℤ → Bool
same_id (pos a) (pos b) = eqb a b
same_id (pos a) (negsuc b) = false
same_id (negsuc a) (pos b) = false
same_id (negsuc a) (negsuc b) = eqb a b

abbrev pub same_ids : List ℤ → List ℤ → Bool
same_ids [] [] = true
same_ids [] (b ∷ ys) = false
same_ids (a ∷ xs) [] = false
same_ids (a ∷ xs) (b ∷ ys) = same_id a b && same_ids xs ys

abbrev pub insert_id : ℤ → List ℤ → List ℤ
insert_id a [] = a ∷ []
insert_id a (b ∷ ys) = let rest = insert_id a ys in if le a b then a ∷ b ∷ ys else b ∷ rest

-- a sorted copy
unfoldable pub key_from_slice : List ℤ → List ℤ
key_from_slice [] = []
key_from_slice (a ∷ xs) = insert_id a (key_from_slice xs)

pub record ElementCombination : Type 0 where
  pub from : List ℤ
  pub to : ℤ

abbrev pub CombinationMap : Type 0
CombinationMap = List (List ℤ × ℤ)

-- m[key]
abbrev pub value_at : CombinationMap → List ℤ → Option ℤ
value_at [] key = none
value_at ((k, v) ∷ m) key = if same_ids k key then some v else value_at m key

-- m[key] = v
abbrev pub put_value : CombinationMap → List ℤ → ℤ → CombinationMap
put_value [] key v = (key, v) ∷ []
put_value ((k, u) ∷ m) key v =
    let rest = put_value m key v in if same_ids k key then (key, v) ∷ m else (k, u) ∷ rest

unfoldable pub find : CombinationMap → List ℤ → Option ℤ
find m ids = value_at m (key_from_slice ids)

unfoldable pub fill : List ElementCombination → CombinationMap → CombinationMap
fill [] m = m
fill (c ∷ combinations) m = fill combinations (put_value m (key_from_slice c.from) c.to)
