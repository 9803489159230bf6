-- ===== src/Game/GameActor/Steps/Locations.antt =====
-- The handlers of the commands about locations and trees stay within reach.
use jasons_game.Base.{String, Bool, Option, some, none, List, [], ◌∷◌, ◌==◌}
use jasons_game.Network.{Error, Res, ok, err, panic, M, Network}
use jasons_game.Game.InventoryActor.{Response, respond_ok, respond_error, no_response}
use jasons_game.Game.PlayerTree.{PlayerTree, player_authentications}
use jasons_game.Game.Static.{get_static}
use jasons_game.Game.GameActor.{Session, Surroundings, Reply, failed, odd, reply}
use jasons_game.Game.GameActor.Matches.{connect_match}
use jasons_game.Game.GameActor.Places.{
  Shown, portal_answer, handle_build_portal, handle_delete_portal, handle_tip_zoom, objects_or_none,
  handle_change_location, static_or_empty, last_or_start, did_of_name, handle_change_named_location,
  handle_set_tree_value, handle_get_tree_value, list_location, tell_portal,
  handle_location_inventory_list, handle_create_location, connected, owned_or_not, auths_of_player,
  found_or, connect_to, handle_connect_location,
}
use jasons_game.Game.GameActor.Steps.{if-Runs, Runs, by_steps, on_net-Runs, runs}
use jasons_game.Game.GameActor.Steps.Refreshing.{set_location-Runs, home_did-Runs}

module _ (net : Network) (O : Type 0) (around : Surroundings (net.World × O)) where
  portal_answer-Runs :
      (what done : String) (r : Reply (Response (Unit {0})))
      → Runs net O (portal_answer net O around what done r)
  unfolding portal_answer
  portal_answer-Runs what done (failed e) = search runs
  portal_answer-Runs what done odd = search runs
  portal_answer-Runs what done (reply (respond_ok _)) = search runs
  portal_answer-Runs what done (reply (respond_error e)) = search runs
  portal_answer-Runs what done (reply no_response) = search runs

  pub handle_build_portal-Runs : (to : String) → Runs net O (handle_build_portal net O around to)
  unfolding handle_build_portal
  handle_build_portal-Runs to = search (runs, portal_answer-Runs)

  pub handle_delete_portal-Runs : Runs net O (handle_delete_portal net O around)
  unfolding handle_delete_portal
  handle_delete_portal-Runs = search (runs, portal_answer-Runs)

  pub handle_tip_zoom-Runs :
      (tip : String) (r : Res String) → Runs net O (handle_tip_zoom net O around tip r)
  unfolding handle_tip_zoom
  handle_tip_zoom-Runs tip (err e) = search runs
  handle_tip_zoom-Runs tip panic = search runs
  handle_tip_zoom-Runs tip (ok c) = search (runs, set_location-Runs) depth 20

  pub objects_or_none-Runs :
      (m : M (Session net O) (List (String × String)))
      → Runs net O m
      → Runs net O (objects_or_none net O around m)
  unfolding objects_or_none
  objects_or_none-Runs m h = by_steps net O h.reach

  pub handle_change_location-Runs :
      (did : String) → Runs net O (handle_change_location net O around did)
  unfolding handle_change_location
  handle_change_location-Runs did = search (runs, set_location-Runs, objects_or_none-Runs) depth 20

  pub static_or_empty-Runs : (key : String) → Runs net O (static_or_empty net O around key)
  unfolding static_or_empty
  static_or_empty-Runs key = by_steps net O (on_net-Runs net O (get_static net key)).reach

  last_or_start-Runs : (o : Option String) → Runs net O (last_or_start net O around o)
  unfolding last_or_start
  last_or_start-Runs none = search (static_or_empty-Runs)
  last_or_start-Runs (some did) = search (if-Runs, runs, static_or_empty-Runs)

  pub did_of_name-Runs : (name : String) → Runs net O (did_of_name net O around name)
  unfolding did_of_name
  did_of_name-Runs name =
      if-Runs net O (name == "last-location") _ _
        (by_steps net O
          (λ s. (last_or_start-Runs (around.last_location (s.world, s.others))).reach s))
        (if-Runs net O (name == "home") _ _ (home_did-Runs net O around)
          (static_or_empty-Runs name))

  pub handle_change_named_location-Runs :
      (name : String) → Runs net O (handle_change_named_location net O around name)
  unfolding handle_change_named_location
  handle_change_named_location-Runs name =
      search (if-Runs, runs, did_of_name-Runs, home_did-Runs, handle_change_location-Runs) depth 20

  pub found_or-Runs : (e : Error) (o : Option net.Tree) → Runs net O (found_or net O around e o)
  unfolding found_or
  found_or-Runs e none = search runs
  found_or-Runs e (some t) = search runs

  pub handle_set_tree_value-Runs :
      (multiple : Bool) (did path args : String)
      → Runs net O (handle_set_tree_value net O around multiple did path args)
  unfolding handle_set_tree_value
  handle_set_tree_value-Runs multiple did path args = search (runs, found_or-Runs) depth 20

  pub handle_get_tree_value-Runs :
      (f : Shown) (did path : String) → Runs net O (handle_get_tree_value net O around f did path)
  unfolding handle_get_tree_value
  handle_get_tree_value-Runs f did path = search (runs, found_or-Runs) depth 20

  pub list_location-Runs : (m : List (String × String)) → Runs net O (list_location net O around m)
  unfolding list_location
  list_location-Runs [] = search runs
  list_location-Runs (o ∷ m) = search runs

  pub tell_portal-Runs : (o : Option String) → Runs net O (tell_portal net O around o)
  unfolding tell_portal
  tell_portal-Runs none = search runs
  tell_portal-Runs (some to) = search runs

  pub handle_location_inventory_list-Runs : Runs net O (handle_location_inventory_list net O around)
  unfolding handle_location_inventory_list
  handle_location_inventory_list-Runs = search (runs, list_location-Runs, tell_portal-Runs) depth 20

  pub handle_create_location-Runs : Runs net O (handle_create_location net O around)
  unfolding handle_create_location
  handle_create_location-Runs = search runs

  connected-Runs :
      (did command : String) (r : Reply (Response (Unit {0})))
      → Runs net O (connected net O around did command r)
  unfolding connected
  connected-Runs did command (failed e) = search runs
  connected-Runs did command odd = search runs
  connected-Runs did command (reply (respond_error e)) = search runs
  connected-Runs did command (reply no_response) = search runs
  connected-Runs did command (reply (respond_ok _)) = search runs

  pub owned_or_not-Runs :
      (m : M (Session net O) Bool) → Runs net O m → Runs net O (owned_or_not net O around m)
  unfolding owned_or_not
  owned_or_not-Runs m h = by_steps net O h.reach

  pub auths_of_player-Runs : (pt : PlayerTree net) → Runs net O (auths_of_player net O around pt)
  unfolding auths_of_player
  auths_of_player-Runs pt = by_steps net O (on_net-Runs net O (player_authentications net pt)).reach

  connect_to-Runs : (q : Option (String × String)) → Runs net O (connect_to net O around q)
  unfolding connect_to
  connect_to-Runs none = search runs
  connect_to-Runs (some (did, command)) =
      search (if-Runs, runs, found_or-Runs, owned_or_not-Runs, connected-Runs, auths_of_player-Runs)
        depth 20

  pub handle_connect_location-Runs :
      (args : String) → Runs net O (handle_connect_location net O around args)
  unfolding handle_connect_location
  handle_connect_location-Runs args = connect_to-Runs (connect_match args)
