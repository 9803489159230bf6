-- ===== src/Game/GameActor/Steps/Objects.antt =====
-- The handlers of the commands about objects stay within reach.
use jasons_game.Base.{String, refl, ◌<>◌, Option, some, none, List, [], ◌∷◌, lookup}
use jasons_game.Network.{Error, message, wrap, already_exists, Network}
use jasons_game.Game.InventoryActor.{
  Response, respond_ok, respond_error, no_response, CreateObjectRequest,
}
use jasons_game.Game.GameActor.{Surroundings, Reply, failed, odd, reply}
use jasons_game.Game.GameActor.Messages.{say}
use jasons_game.Game.GameActor.Matches.{transfer_match}
use jasons_game.Game.GameActor.Inventories.{
  list_each, list_bag, handle_player_inventory_list, fail_with, watch, transfer_found,
  transfer_named, transfer_to, handle_transfer_object_cmd, handle_drop_object, created,
  handle_create_object_request, handle_create_object_from_args, note_transfer,
}
use jasons_game.Game.GameActor.Steps.{
  if-Runs, unseen, here, next, Runs, by_steps, bind-Runs, pure-Runs, send_user_message-Runs, runs,
}

module _ (net : Network) (O : Type 0) (around : Surroundings (net.World × O)) where
  pub list_each-Runs : (m : List (String × String)) → Runs net O (list_each net O around m)
  unfolding list_each
  list_each-Runs [] = pure-Runs net O tt
  list_each-Runs ((name, did) ∷ m) =
      bind-Runs net O (say net O (name <> " (" <> did <> ")")) _ (send_user_message-Runs net O _)
        (λ _. list_each-Runs m)

  list_bag-Runs : (m : List (String × String)) → Runs net O (list_bag net O around m)
  unfolding list_bag
  list_bag-Runs [] = search runs
  list_bag-Runs (o ∷ m) = search (runs, list_each-Runs)

  pub handle_player_inventory_list-Runs : Runs net O (handle_player_inventory_list net O around)
  unfolding handle_player_inventory_list
  handle_player_inventory_list-Runs = search (runs, list_bag-Runs)

  pub fail_with-Runs : (e : Option Error) → Runs net O (fail_with net O around e)
  unfolding fail_with
  fail_with-Runs none = search runs
  fail_with-Runs (some e) = search runs

  pub watch-Runs : (did : String) → Runs net O (watch net O around did)
  unfolding watch
  watch-Runs did = by_steps net O (λ s. next here (unseen refl refl refl))

  pub note_transfer-Runs : (did : String) → Runs net O (note_transfer net O around did)
  unfolding note_transfer
  note_transfer-Runs did = search runs

  transfer_found-Runs :
      (name target : String) (o : Option String)
      → Runs net O (transfer_found net O around name target o)
  unfolding transfer_found
  transfer_found-Runs name target none = search runs
  transfer_found-Runs name target (some did) =
      search (if-Runs, runs, watch-Runs, fail_with-Runs) depth 20

  transfer_named-Runs :
      (name target : String) (m : List (String × String))
      → Runs net O (transfer_named net O around name target m)
  unfolding transfer_named
  transfer_named-Runs name target [] = search runs
  transfer_named-Runs name target (o ∷ m) = transfer_found-Runs name target (lookup name (o ∷ m))

  transfer_to-Runs : (q : Option (String × String)) → Runs net O (transfer_to net O around q)
  unfolding transfer_to
  transfer_to-Runs none = search runs
  transfer_to-Runs (some (matched, target)) = search (runs, transfer_named-Runs)

  pub handle_transfer_object_cmd-Runs :
      (args : String) → Runs net O (handle_transfer_object_cmd net O around args)
  unfolding handle_transfer_object_cmd
  handle_transfer_object_cmd-Runs args = transfer_to-Runs (transfer_match "" args)

  pub handle_drop_object-Runs :
      (own did : String) → Runs net O (handle_drop_object net O around own did)
  unfolding handle_drop_object
  handle_drop_object-Runs own did = search (if-Runs, runs, fail_with-Runs) depth 20

  created-Runs :
      (name : String) (r : Reply (Response String)) → Runs net O (created net O around name r)
  unfolding created
  created-Runs name (failed e) = search runs
  created-Runs name odd = search runs
  created-Runs name (reply no_response) = search runs
  created-Runs name (reply (respond_error already_exists)) = search runs
  created-Runs name (reply (respond_error (message e))) = search runs
  created-Runs name (reply (respond_error (wrap e f))) = search runs
  created-Runs name (reply (respond_error (Error.external e))) = search runs
  created-Runs name (reply (respond_error Error.unsupported_message_type)) = search runs
  created-Runs name (reply (respond_ok did)) = search runs

  pub handle_create_object_request-Runs :
      (req : CreateObjectRequest) → Runs net O (handle_create_object_request net O around req)
  unfolding handle_create_object_request
  handle_create_object_request-Runs req = search (runs, created-Runs)

  pub handle_create_object_from_args-Runs :
      (args : String) → Runs net O (handle_create_object_from_args net O around args)
  unfolding handle_create_object_from_args
  handle_create_object_from_args-Runs args = handle_create_object_request-Runs _
