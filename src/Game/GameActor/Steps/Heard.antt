-- ===== src/Game/GameActor/Steps/Heard.antt =====
-- game/game.go: the handlers that tell the user something whenever they succeed.
use jasons_game.Base.{String, Bool, Option, some, none, List, [], ◌∷◌, lookup}
use jasons_game.Network.{Error, Res, ok, err, panic, message, wrap, already_exists, Network}
use jasons_game.Game.InventoryActor.{
  Response, respond_ok, respond_error, no_response, CreateObjectRequest,
}
use jasons_game.Game.GameActor.{Surroundings, Reply, failed, odd, reply}
use jasons_game.Game.GameActor.Matches.{transfer_match, connect_match}
use jasons_game.Game.GameActor.Inventories.{
  list_bag, handle_player_inventory_list, transfer_found, transfer_named, transfer_to,
  handle_transfer_object_cmd, handle_drop_object, created, handle_create_object_request,
  handle_create_object_from_args,
}
use jasons_game.Game.GameActor.Places.{
  Shown, handle_tip_zoom, handle_change_location, handle_change_named_location,
  handle_set_tree_value, handle_get_tree_value, handle_location_inventory_list,
  handle_create_location, connected, connect_to, handle_connect_location,
}
use jasons_game.Game.GameActor.Steps.{if-Runs, runs}
use jasons_game.Game.GameActor.Steps.Refreshing.{set_location-Runs, home_did-Runs}
use jasons_game.Game.GameActor.Steps.Objects.{watch-Runs, fail_with-Runs, list_each-Runs}
use jasons_game.Game.GameActor.Steps.Locations.{
  objects_or_none-Runs, did_of_name-Runs, found_or-Runs, owned_or_not-Runs, auths_of_player-Runs,
  list_location-Runs, tell_portal-Runs,
}
use jasons_game.Game.GameActor.Steps.Spoken.{Speaks, first-Speaks, send_user_message-Speaks, speaks}

module _ (net : Network) (O : Type 0) (around : Surroundings (net.World × O)) where
  list_bag-Speaks : (m : List (String × String)) → Speaks net O (list_bag net O around m)
  unfolding list_bag
  list_bag-Speaks [] = search speaks
  list_bag-Speaks (o ∷ m) =
      first-Speaks net O _ _ (send_user_message-Speaks net O _)
        (λ _. list_each-Runs net O around (o ∷ m))

  pub handle_player_inventory_list-Speaks : Speaks net O (handle_player_inventory_list net O around)
  unfolding handle_player_inventory_list
  handle_player_inventory_list-Speaks = search (speaks, runs, list_bag-Speaks)

  transfer_found-Speaks :
      (name target : String) (o : Option String)
      → Speaks net O (transfer_found net O around name target o)
  unfolding transfer_found
  transfer_found-Speaks name target none = search speaks
  transfer_found-Speaks name target (some did) =
      search (speaks, runs, watch-Runs, fail_with-Runs) depth 20

  transfer_named-Speaks :
      (name target : String) (m : List (String × String))
      → Speaks net O (transfer_named net O around name target m)
  unfolding transfer_named
  transfer_named-Speaks name target [] = search speaks
  transfer_named-Speaks name target (o ∷ m) =
      transfer_found-Speaks name target (lookup name (o ∷ m))

  transfer_to-Speaks : (q : Option (String × String)) → Speaks net O (transfer_to net O around q)
  unfolding transfer_to
  transfer_to-Speaks none = search speaks
  transfer_to-Speaks (some (matched, target)) = search (speaks, runs, transfer_named-Speaks)

  pub handle_transfer_object_cmd-Speaks :
      (args : String) → Speaks net O (handle_transfer_object_cmd net O around args)
  unfolding handle_transfer_object_cmd
  handle_transfer_object_cmd-Speaks args = transfer_to-Speaks (transfer_match "" args)

  pub handle_drop_object-Speaks :
      (own did : String) → Speaks net O (handle_drop_object net O around own did)
  unfolding handle_drop_object
  handle_drop_object-Speaks own did = search (speaks, runs, fail_with-Runs) depth 20

  created-Speaks :
      (name : String) (r : Reply (Response String)) → Speaks net O (created net O around name r)
  unfolding created
  created-Speaks name (failed e) = search speaks
  created-Speaks name odd = search speaks
  created-Speaks name (reply no_response) = search speaks
  created-Speaks name (reply (respond_error already_exists)) = search speaks
  created-Speaks name (reply (respond_error (message e))) = search speaks
  created-Speaks name (reply (respond_error (wrap e f))) = search speaks
  created-Speaks name (reply (respond_error (Error.external e))) = search speaks
  created-Speaks name (reply (respond_error Error.unsupported_message_type)) = search speaks
  created-Speaks name (reply (respond_ok did)) = search speaks

  pub handle_create_object_request-Speaks :
      (req : CreateObjectRequest) → Speaks net O (handle_create_object_request net O around req)
  unfolding handle_create_object_request
  handle_create_object_request-Speaks req = search (speaks, runs, created-Speaks)

  pub handle_create_object_from_args-Speaks :
      (args : String) → Speaks net O (handle_create_object_from_args net O around args)
  unfolding handle_create_object_from_args
  handle_create_object_from_args-Speaks args = handle_create_object_request-Speaks _

  pub handle_tip_zoom-Speaks :
      (tip : String) (r : Res String) → Speaks net O (handle_tip_zoom net O around tip r)
  unfolding handle_tip_zoom
  handle_tip_zoom-Speaks tip (err e) = search (speaks, runs)
  handle_tip_zoom-Speaks tip panic = search speaks
  handle_tip_zoom-Speaks tip (ok c) = search (speaks, runs, set_location-Runs) depth 20

  pub handle_change_location-Speaks :
      (did : String) → Speaks net O (handle_change_location net O around did)
  unfolding handle_change_location
  handle_change_location-Speaks did =
      search (speaks, runs, set_location-Runs, objects_or_none-Runs) depth 20

  pub handle_change_named_location-Speaks :
      (name : String) → Speaks net O (handle_change_named_location net O around name)
  unfolding handle_change_named_location
  handle_change_named_location-Speaks name =
      search (speaks, if-Runs, runs, did_of_name-Runs, home_did-Runs, handle_change_location-Speaks)
        depth 20

  pub handle_set_tree_value-Speaks :
      (multiple : Bool) (did path args : String)
      → Speaks net O (handle_set_tree_value net O around multiple did path args)
  unfolding handle_set_tree_value
  handle_set_tree_value-Speaks multiple did path args =
      search (speaks, runs, found_or-Runs) depth 20

  pub handle_get_tree_value-Speaks :
      (f : Shown) (did path : String) → Speaks net O (handle_get_tree_value net O around f did path)
  unfolding handle_get_tree_value
  handle_get_tree_value-Speaks f did path = search (speaks, runs, found_or-Runs) depth 20

  pub handle_location_inventory_list-Speaks :
      Speaks net O (handle_location_inventory_list net O around)
  unfolding handle_location_inventory_list
  handle_location_inventory_list-Speaks =
      search (speaks, runs, list_location-Runs, tell_portal-Runs) depth 20

  pub handle_create_location-Speaks : Speaks net O (handle_create_location net O around)
  unfolding handle_create_location
  handle_create_location-Speaks = search (speaks, runs)

  connected-Speaks :
      (did command : String) (r : Reply (Response (Unit {0})))
      → Speaks net O (connected net O around did command r)
  unfolding connected
  connected-Speaks did command (failed e) = search speaks
  connected-Speaks did command odd = search speaks
  connected-Speaks did command (reply (respond_error e)) = search speaks
  connected-Speaks did command (reply no_response) = search speaks
  connected-Speaks did command (reply (respond_ok _)) = search speaks

  connect_to-Speaks : (q : Option (String × String)) → Speaks net O (connect_to net O around q)
  unfolding connect_to
  connect_to-Speaks none = search speaks
  connect_to-Speaks (some (did, command)) =
      search
        (speaks, runs, found_or-Runs, owned_or_not-Runs, connected-Speaks, auths_of_player-Runs)
        depth 20

  pub handle_connect_location-Speaks :
      (args : String) → Speaks net O (handle_connect_location net O around args)
  unfolding handle_connect_location
  handle_connect_location-Speaks args = connect_to-Speaks (connect_match args)
