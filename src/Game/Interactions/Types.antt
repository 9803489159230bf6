-- ===== src/Game/Interactions/Types.antt =====
-- The interactions of game/types.proto, and the three of game/interactions.go that are not stored.
use jasons_game.Base.{String, Bool, true, false, List}

pub data Interaction : Type 0 where
  -- command, response, hidden
  respond : String → String → Bool → Interaction
  -- command, did, hidden
  change_location : String → String → Bool → Interaction
  -- command, name, hidden
  change_named_location : String → String → Bool → Interaction
  -- command, did, hidden
  pick_up_object : String → String → Bool → Interaction
  drop_object : String → String → Bool → Interaction
  -- command, name, description, hidden, with_inscriptions
  create_object : String → String → String → Bool → Bool → Interaction
  -- command, did, path, hidden
  get_tree_value : String → String → String → Bool → Interaction
  -- command, did, path, multiple, hidden
  set_tree_value : String → String → String → Bool → Bool → Interaction
  -- command, interactions_bytes, hidden
  chained : String → List String → Bool → Interaction
  -- command, sealed_interaction_bytes, failure_interaction_bytes, hidden
  cipher : String → String → String → Bool → Interaction
  build_portal_interaction : Interaction
  delete_portal_interaction : Interaction
  look_around_interaction : Interaction

unfoldable pub get_command : Interaction → String
get_command (respond c _ _) = c
get_command (change_location c _ _) = c
get_command (change_named_location c _ _) = c
get_command (pick_up_object c _ _) = c
get_command (drop_object c _ _) = c
get_command (create_object c _ _ _ _) = c
get_command (get_tree_value c _ _ _) = c
get_command (set_tree_value c _ _ _ _) = c
get_command (chained c _ _) = c
get_command (cipher c _ _ _) = c
get_command build_portal_interaction = "build portal to"
get_command delete_portal_interaction = "delete portal"
get_command look_around_interaction = "look around"

unfoldable pub get_hidden : Interaction → Bool
get_hidden (respond _ _ h) = h
get_hidden (change_location _ _ h) = h
get_hidden (change_named_location _ _ h) = h
get_hidden (pick_up_object _ _ h) = h
get_hidden (drop_object _ _ h) = h
get_hidden (create_object _ _ _ h _) = h
get_hidden (get_tree_value _ _ _ h) = h
get_hidden (set_tree_value _ _ _ _ h) = h
get_hidden (chained _ _ h) = h
get_hidden (cipher _ _ _ h) = h
get_hidden build_portal_interaction = true
get_hidden delete_portal_interaction = false
get_hidden look_around_interaction = false
