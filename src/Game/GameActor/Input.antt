-- ===== src/Game/GameActor/Input.antt =====
-- game/game.go: handleUserInput, with the help, and the start of the game.
pub mod Terminates
pub mod Answers
use jasons_game.Base.{
  ℕ, String, Bool, true, false, not, ◌&&◌, ◌<>◌, Option, some, none, List, [], ◌∷◌, ◌++◌, ◌==◌,
  starts_with, is_le, if◌then◌else◌,
}
use Prim.Native.String
use jasons_game.Network.{
  Res, ok, err, panic, Error, message, external, error_string, M, panics, pure, fail, lift, ◌>>=◌,
  ◌>>◌, Network,
}
use jasons_game.Utils.StringSlice.{include}
use jasons_game.Game.Interactions.{Codec}
use jasons_game.Game.Interactions.Sealed.{Sealing}
use jasons_game.Game.Commands.{
  Command, basic_command, interaction_command, name, parse, hidden, help_group, find_command,
}
use jasons_game.Game.GameActor.{Session, Surroundings, this, asking}
use jasons_game.Game.GameActor.Messages.{
  say, send_user_message, indented_list, acknowledge_receipt, send_ui_location,
}
use jasons_game.Game.GameActor.Refresh.{refresh_all_interactions}
use jasons_game.Game.GameActor.Inventories.{
  handle_transfer_object_cmd, handle_create_object_from_args, handle_player_inventory_list,
}
use jasons_game.Game.GameActor.Waiting.{handle_receive_object_cmd}
use jasons_game.Game.GameActor.Places.{
  Shown, handle_tip_zoom, handle_location_inventory_list, handle_create_location,
  handle_connect_location,
}
use jasons_game.Game.GameActor.Interactions.{Fueled, at_once, handle_interaction}

-- the commands of a help group, each text once
unfoldable pub helped : String → List Command → List String → List String
helped args [] to_send = to_send
helped args (c ∷ cs) to_send = helped args cs (
    if not (hidden c) && help_group c == args && not (include to_send (parse c))
    then to_send ++ parse c ∷ []
    else to_send)

-- the order of the help: commands of help come last
unfoldable pub before : String → String → Bool
before a b =
    if starts_with a "help"
    then false
    else if starts_with b "help"
    then true
    else not (is_le (String.compare b a))

-- sort.Slice, which inserts into slices of up to twelve; beyond, the order of the commands of help is
-- not determined by the code
unfoldable pub insert_help : String → List String → List String
insert_help a [] = a ∷ []
insert_help a (b ∷ bs) = let rest = insert_help a bs in if before a b then a ∷ b ∷ bs else b ∷ rest

unfoldable pub sort_help : List String → List String → List String
sort_help [] sorted = sorted
sort_help (a ∷ rest) sorted = sort_help rest (insert_help a sorted)

module _ (net : Network) (O : Type 0) (around : Surroundings (net.World × O)) where
  unfoldable pub send_help : String → List String → M (Session net O) (Unit {0})
  send_help args [] = say net O (
      "Sorry, I am not sure how I can help with '" <> args
      <> "'...\nMaybe you can try looking around, asking for help on the location or help on an object.")
  send_help args (t ∷ ts) =
      send_user_message net O (indented_list ("available commands:" ∷ sort_help (t ∷ ts) []))

  unfoldable pub handle_help : String → M (Session net O) (Unit {0})
  unfolding send_help helped
  handle_help args s = send_help args (helped args s.commands []) s

  -- the location is shown also after an error, which is returned
  unfoldable pub refresh_answer : Res (Unit {0}) → M (Session net O) (Unit {0})
  refresh_answer (ok _) = send_ui_location net O around
  refresh_answer (err e) = do send_ui_location net O around; fail e
  refresh_answer panic = panics

  unfoldable pub handle_refresh : M (Session net O) (Unit {0})
  unfolding refresh_answer
  handle_refresh s = let (r, s') = refresh_all_interactions net O around s in refresh_answer r s'

  module _ (codec : Codec) (sealing : Sealing) (format : Shown)
      (parse_cid : String → Res String) where
    -- the commands that are not interactions and do not wait, by their names; an unknown name is
    -- logged
    unfoldable pub handle_basic : String → String → M (Session net O) (Unit {0})
    unfolding handle_refresh handle_help
    handle_basic command args =
        if command == "exit"
        then say net O "exit is unsupported in the browser"
        else if command == "tip-zoom"
        then handle_tip_zoom net O around args (parse_cid args)
        else if command == "refresh"
        then handle_refresh
        else if command == "create-object"
        then handle_create_object_from_args net O around args
        else if command == "player-inventory-list"
        then handle_player_inventory_list net O around
        else if command == "location-inventory-list"
        then handle_location_inventory_list net O around
        else if command == "create-location"
        then handle_create_location net O around
        else if command == "connect-location"
        then handle_connect_location net O around args
        else if command == "transfer-object"
        then handle_transfer_object_cmd net O around args
        else if command == "help"
        then handle_help args
        else pure tt

    unfoldable pub handle_command : ℕ → Command → String → Fueled net O around codec sealing format
    unfolding handle_basic
    handle_command fuel (basic_command n p h g) args =
        if n == "receive-object"
        then handle_receive_object_cmd net O around args
        else at_once net O around codec sealing format (handle_basic n args)
    handle_command fuel (interaction_command p i g did) args =
        handle_interaction net O around codec sealing format fuel did args i

    -- an error is told to the user
    unfoldable pub told :
        Option (Res (Unit {0}) × Session net O) → Option (Res (Unit {0}) × Session net O)
    told none = none
    told (some (ok _, s)) = some (ok tt, s)
    told (some (err e, s)) = some (say net O ("error with your command: " <> error_string e) s)
    told (some (panic, s)) = some (panic, s)

    unfoldable pub handle_found :
        ℕ → Option Command × String → Fueled net O around codec sealing format
    unfolding handle_command told
    handle_found fuel (none, args) s = some (say net O "I'm sorry I don't understand." s)
    handle_found fuel (some cmd, args) s = told (handle_command fuel cmd args s)

    -- `has_sender` tells whether the input came from an actor
    unfoldable pub handle_user_input : ℕ → Bool → String → Fueled net O around codec sealing format
    unfolding handle_found
    handle_user_input fuel has_sender input s =
        let (_, s') = acknowledge_receipt net O has_sender s in
        handle_found fuel (find_command s'.commands input) s'
