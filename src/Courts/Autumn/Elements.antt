-- ===== src/Courts/Autumn/Elements.antt =====
-- courts/autumn/element.go: elements and their names, which hold the id in hexadecimal as strconv
-- writes it and reads it.
pub mod Names
use Prim.Native.String
use Prim.Native.String.{char_at}
use Prim.Native.Char.{Char, code}
use jasons_game.Base.{
  ℕ, zero, suc, ◌+◌, ◌-◌, ◌*◌, ◌/◌, ◌%◌, String, Bool, true, false, ◌&&◌, Option, none, some, ◌<>◌,
  ltb, leb, eqb, if◌then◌else◌,
}
use jasons_game.Game.Commands.{after_prefix}
use jasons_game.Courts.Autumn.Combinations.{ℤ, pos, negsuc}

pub record Element : Type 0 where
  pub id : ℤ
  pub description : String
  pub skip_origin_validation : Bool

abbrev pub element_name_prefix : String
element_name_prefix = "element-"

-- the digits of strconv
abbrev pub digit : ℕ → Char
digit n = char_at "0123456789abcdef" n

-- the digits of a number before a text; a number has fewer digits than its value and one
unfoldable pub hex_digits : ℕ → ℕ → String → String
hex_digits zero n rest = rest
hex_digits (suc fuel) n rest =
    let next = String.◌∷◌ (digit (n % 16)) rest in
    let longer = hex_digits fuel (n / 16) next in if ltb n 16 then next else longer

-- strconv.FormatInt(id, 16)
unfoldable pub format_int : ℤ → String
format_int (pos n) = hex_digits (suc n) n ""
format_int (negsuc n) = "-" <> hex_digits (suc (suc n)) (suc n) ""

unfoldable pub name_of_element : Element → String
name_of_element e = element_name_prefix <> format_int e.id

unfoldable pub digit_value : ℕ → Option ℕ
digit_value c =
    if leb 48 c && leb c 57
    then some (c - 48)
    else if leb 97 c && leb c 102
    then some (c - 87)
    else if leb 65 c && leb c 70
    then some (c - 55)
    else none

-- the value of digits after those of `n`
unfoldable pub digits_value : ℕ → String → Option ℕ
digits_value n String.[] = some n
digits_value n (String.◌∷◌ c s) = elim (digit_value (code c)) [
  | none ↦ none
  | some d ↦ digits_value (n * 16 + d) s
]

-- no digits are an error
unfoldable pub parse_uint : String → Option ℕ
parse_uint String.[] = none
parse_uint (String.◌∷◌ c s) = digits_value 0 (String.◌∷◌ c s)

-- a number of 64 bits, or an error
unfoldable pub as_positive : ℕ → Option ℤ
as_positive n = if ltb n 9223372036854775808 then some (pos n) else none

unfoldable pub as_negative : ℕ → Option ℤ
as_negative zero = some (pos 0)
as_negative (suc n) = if ltb n 9223372036854775808 then some (negsuc n) else none

unfoldable pub bounded : (ℕ → Option ℤ) → Option ℕ → Option ℤ
bounded f none = none
bounded f (some n) = f n

-- strconv.ParseInt(s, 16, 0)
unfoldable pub parse_int : String → Option ℤ
parse_int String.[] = none
parse_int (String.◌∷◌ c s) =
    if eqb (code c) 43
    then bounded as_positive (parse_uint s)
    else if eqb (code c) 45
    then bounded as_negative (parse_uint s)
    else bounded as_positive (parse_uint (String.◌∷◌ c s))

-- strings.TrimPrefix
unfoldable pub trim_prefix : String → String → String
trim_prefix s p = elim (after_prefix p s) [ none ↦ s | some rest ↦ rest ]

-- the id, or 0 where an error is logged
unfoldable pub id_or_zero : Option ℤ → ℤ
id_or_zero none = pos 0
id_or_zero (some id) = id

unfoldable pub element_name_to_id : String → ℤ
element_name_to_id name = id_or_zero (parse_int (trim_prefix name element_name_prefix))
