-- ===== src/Courts/Autumn/Combiner.antt =====
-- courts/autumn/element_combiner_handler.go: the elements and combinations that the combiner is
-- configured with, and the texts of its answers.
pub mod Configured
use Prim.Native.String
use Prim.Native.String.{char_at}
use Prim.Native.Char.{Char, code}
use jasons_game.Base.{
  ℕ, zero, suc, ◌-◌, ◌/◌, ◌%◌, String, Bool, true, false, not, ◌&&◌, ◌||◌, Option, none, some, List,
  [], ◌∷◌, ◌<>◌, ltb, leb, eqb, length, if◌then◌else◌,
}
use jasons_game.Network.{
  Res, ok, err, panic, Error, message, wrap, unsupported_message_type, already_exists, external,
}
use jasons_game.Courts.Autumn.Combinations.{
  ℤ, pos, negsuc, same_id, ElementCombination, CombinationMap, find, fill,
}
use jasons_game.Courts.Autumn.Elements.{Element}

abbrev pub combination_object_name : String
combination_object_name = "bowl"

abbrev pub combination_success_msg : String
combination_success_msg = "Your offering has been accepted, a new element is now yours."

abbrev pub combination_blocked_failure_msg : String
combination_blocked_failure_msg =
    "The Fae are especially susceptible to silver therefore transmuting elements into silver can not be allowed.\nYour offering has not been deemed worthy."

unfoldable pub base_err : String → String
base_err s = "error combining: " <> s <> " - try again"

-- `%d`
unfoldable pub decimal : ℕ → ℕ → String → String
decimal zero n rest = rest
decimal (suc fuel) n rest =
    let next = String.◌∷◌ (char_at "0123456789" (n % 10)) rest in
    let longer = decimal fuel (n / 10) next in if ltb n 10 then next else longer

unfoldable pub combination_num_failure : ℕ → String
combination_num_failure n =
    "A proper offering must include " <> decimal (suc n) n "" <> " elements."

unfoldable pub is_separator : ℕ → Bool
is_separator c = not (
    (leb 48 c && leb c 57)
    || (leb 65 c && leb c 90)
    || eqb c 95
    || (leb 97 c && leb c 122)
    || leb 128 c)

unfoldable pub capital : Char → Char
capital c =
    if leb 97 (code c) && leb (code c) 122
    then char_at "ABCDEFGHIJKLMNOPQRSTUVWXYZ" (code c - 97)
    else c

-- strings.Title, on ASCII; the flag says that a separator stands before the text
unfoldable pub title : Bool → String → String
title after String.[] = ""
title after (String.◌∷◌ c s) =
    String.◌∷◌ (if after then capital c else c) (title (is_separator (code c)) s)

unfoldable pub combination_failure : String → String
combination_failure name =
    "The "
    <> title true name
    <> " gave you nothing for your offering. It must not have been deemed acceptable."

-- map[int]*element
abbrev pub ElementMap : Type 0
ElementMap = List (ℤ × Element)

unfoldable pub element_at : ElementMap → ℤ → Option Element
element_at [] id = none
element_at ((k, e) ∷ m) id = let rest = element_at m id in if same_id k id then some e else rest

unfoldable pub put_element : ElementMap → Element → ElementMap
put_element [] e = (e.id, e) ∷ []
put_element ((k, f) ∷ m) e =
    let rest = put_element m e in if same_id k e.id then (e.id, e) ∷ m else (k, f) ∷ rest

unfoldable pub put_elements : List Element → ElementMap → ElementMap
put_elements [] m = m
put_elements (e ∷ es) m = put_elements es (put_element m e)

-- the loop over the combinations
unfoldable pub least_length : ℕ → List ElementCombination → ℕ
least_length n [] = n
least_length n (c ∷ cs) =
    let shorter = least_length (length c.from) cs in
    let rest = least_length n cs in if ltb (length c.from) n then shorter else rest

pub record CombinerConfig : Type 0 where
  pub name : String
  pub elements : List Element
  pub combinations : List ElementCombination

-- The fields of the handler that do not belong to the network.
pub record ElementCombiner : Type 0 where
  pub name : String
  pub elements : ElementMap
  pub combinations_map : CombinationMap
  pub min_required : ℕ

-- Without combinations the first is out of range. What follows the fields, `setup`, is left out.
unfoldable pub new_element_combiner : CombinerConfig → Res ElementCombiner
new_element_combiner cfg = elim (cfg.combinations) [
  | [] ↦ panic
  | c ∷ cs ↦ ok (record {
    name = cfg.name;
    elements = put_elements cfg.elements [];
    combinations_map = fill (c ∷ cs) [];
    min_required = least_length (length c.from) (c ∷ cs);
  })
]

unfoldable pub element_for : ElementMap → Option ℤ → Option Element
element_for elements none = none
element_for elements (some id) = element_at elements id

unfoldable pub find_combined_element : ElementCombiner → List ℤ → Option Element
unfolding element_for
find_combined_element h ids = element_for h.elements (find h.combinations_map ids)
