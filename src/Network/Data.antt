-- ===== src/Network/Data.antt =====
-- The values that `Dag.Resolve` returns as an `interface{}`: what CBOR decodes to.
use jasons_game.Base.{ℕ, String, Bool, Option, none, some, List, [], ◌∷◌, ◌==◌, if◌then◌else◌}

-- `null` is Go's nil, `link` a cid.Cid.
mutual
  pub data Value : Type 0 where
    null : Value
    text : String → Value
    bool : Bool → Value
    number : ℕ → Value
    list : Values → Value
    object : Fields → Value
    link : String → Value

  pub data Values : Type 0 where
    nil : Values
    cons : Value → Values → Values

  pub data Fields : Type 0 where
    end : Fields
    field : String → Value → Fields → Fields

-- The fields of a `map[string]interface{}`, in the order in which they are ranged over.
abbrev pub entries : Fields → List (String × Value)
entries end = []
entries (field k v rest) = (k, v) ∷ entries rest

-- A `map[string]string` as it is stored.
abbrev pub of_strings : List (String × String) → Fields
of_strings [] = end
of_strings ((k, v) ∷ rest) = field k (text v) (of_strings rest)

-- A `[]string` as it is stored.
abbrev pub of_texts : List String → Values
of_texts [] = nil
of_texts (s ∷ rest) = cons (text s) (of_texts rest)

abbrev pub elements : Values → List Value
elements nil = []
elements (cons v rest) = v ∷ elements rest

abbrev pub field_or_null : String → Fields → Value
field_or_null k end = null
field_or_null k (field j v rest) = if j == k then v else field_or_null k rest

-- What stands in a value at a path below it; nil where there is nothing.
abbrev pub walk : List String → Value → Value
walk [] v = v
walk (k ∷ path) (object fields) = walk path (field_or_null k fields)
walk (k ∷ path) null = null
walk (k ∷ path) (text _) = null
walk (k ∷ path) (bool _) = null
walk (k ∷ path) (number _) = null
walk (k ∷ path) (list _) = null
walk (k ∷ path) (link _) = null

-- `v.(string)` with the comma-ok form.
abbrev pub as_text : Value → Option String
as_text (text s) = some s
as_text null = none
as_text (bool _) = none
as_text (number _) = none
as_text (list _) = none
as_text (object _) = none
as_text (link _) = none
