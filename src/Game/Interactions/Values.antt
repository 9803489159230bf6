-- ===== src/Game/Interactions/Values.antt =====
-- game/interactions.go: `SetTreeValueInteraction.SetValue`, which writes a text, or appends it to the
-- texts that stand in the tree already.
pub mod Written
use jasons_game.Base.{String, Bool, true, false, Option, none, some, List, [], ◌∷◌, join}
use jasons_game.Network.{
  Value, Values, nil, cons, null, text, bool, number, list, object, link, Res, ok, err, panic, M,
  pure, lift, wrapping, ◌>>=◌, Network,
}

-- append(currentValueSlice, value)
abbrev pub append_values : Values → Value → Values
append_values nil v = cons v nil
append_values (cons u us) v = cons u (append_values us v)

-- What is written for the value that stands there. The error for a value that is no slice wraps a
-- nil error, which is nil: then nothing is written, and no error is returned.
unfoldable pub appended : Value → String → Option Value
appended null value = some (list (cons (text value) nil))
appended (list us) value = some (list (append_values us (text value)))
appended (text _) value = none
appended (bool _) value = none
appended (number _) value = none
appended (object _) value = none
appended (link _) value = none

module _ (net : Network) where
  open net use {World, Tree, decode_path, resolve, update_chain_tree}

  unfoldable pub value_to_set : Bool → Tree → List String → String → M World (Option Value)
  unfolding appended
  value_to_set false tree path value = pure (some (text value))
  value_to_set true tree path value = do
    current ←
        wrapping "error fetching value"
          (lift (resolve tree ("tree" ∷ "data" ∷ "jasons-game" ∷ path)))
    pure (appended current value)

  unfoldable pub write_value : Tree → List String → Option Value → M World Tree
  write_value tree path none = pure tree
  write_value tree path (some v) =
      wrapping "error updating path" (update_chain_tree tree (join ("jasons-game" ∷ path)) v)

  -- `multiple` and the path are those of the interaction
  unfoldable pub set_value : Bool → String → Tree → String → M World Tree
  set_value multiple path tree value = do
    segments ← wrapping "error casting path" (lift (decode_path path))
    v ← value_to_set multiple tree segments value
    write_value tree segments v
