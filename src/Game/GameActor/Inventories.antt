-- ===== src/Game/GameActor/Inventories.antt =====
-- game/game.go: the commands about objects, which ask the inventories of the player and of the location.
use jasons_game.Game.GameActor.Matches.{transfer_match, words_of, name_and_description}
use jasons_game.Base.{
  String, false, not, ◌<>◌, Option, some, none, List, [], ◌∷◌, ◌==◌, lookup, if◌then◌else◌,
}
use jasons_game.Network.{
  Res, ok, err, panic, Error, message, wrap, already_exists, M, pure, fail, lift, deref, wrapping,
  text, ◌>>=◌, ◌>>◌, Network, fetch,
}
use jasons_game.Game.Commands.{trim_space}
use jasons_game.Game.InventoryActor.{
  CreateObjectRequest, Response, respond_ok, respond_error, no_response,
}
use jasons_game.Game.GameActor.{
  Session, Surroundings, Reply, failed, odd, reply, asking, this, on_net, location_pid,
}
use jasons_game.Game.GameActor.Messages.{say, get_inventory_list}

module _ (net : Network) (O : Type 0) (around : Surroundings (net.World × O)) where
  open net use {World, Tree, must_id, update_chain_tree}
  open around use {
    transfer_object, create_object, inventory_did, expect_object, send_transferred, next_event,
  }

  -- the answer to a transfer: nil, or its error
  unfoldable pub transfer_error : String → String → Reply (Response (Unit {0})) → Res (Option Error)
  transfer_error what cast (failed e) = err (wrap what e)
  transfer_error what cast odd = err (message cast)
  transfer_error what cast (reply (respond_ok _)) = ok none
  transfer_error what cast (reply (respond_error e)) = ok (some e)
  transfer_error what cast (reply no_response) = err (wrap what (message "future: timeout"))

  unfoldable pub fail_with : Option Error → M (Session net O) (Unit {0})
  fail_with none = pure tt
  fail_with (some e) = fail e

  unfoldable pub watch : String → M (Session net O) (Unit {0})
  watch did s = (ok tt, record s { watches = did ∷ s.watches })

  -- the goroutine of a transfer, once the object has changed owners; its errors are logged
  unfoldable pub note_transfer : String → M (Session net O) (Unit {0})
  note_transfer object_did = do
    s ← this net O
    found ← on_net net O (fetch net object_did)
    new_tree ← deref found
    on_net net O (
        update_chain_tree new_tree "jasons-game/transferred-from"
          (text (must_id s.player_tree.tree)))
    pure tt

  -- handleTransferObjectCmd, after the match
  unfoldable pub transfer_found : String → String → Option String → M (Session net O) (Unit {0})
  unfolding transfer_error fail_with watch
  transfer_found object_name target_did none =
      say net O ("can't transfer " <> object_name <> ", its not in your bag of hodling")
  transfer_found object_name target_did (some object_did) =
      if object_did == ""
      then say net O ("can't transfer " <> object_name <> ", its not in your bag of hodling")
      else do
        watch object_did
        s ← this net O
        r ←
            asking net O
              (transfer_object s.inventory_actor (record { did = object_did; to = target_did }))
        e ← lift (
            transfer_error "error executing transfer object request"
              "error casting transfer object response" r)
        fail_with e
        say net O (
            object_name
            <> " has been sent for transfer - the receiving player must now type:\n\n`receive object "
            <> object_did
            <> "`\n\nif you wish to cancel the transfer, you may run the preceding command to add the object back to your bag of hodling")

  unfoldable pub transfer_named :
      String → String → List (String × String) → M (Session net O) (Unit {0})
  unfolding transfer_found
  transfer_named object_name target_did [] =
      say net O ("can't transfer " <> object_name <> ", your bag of hodling appears to be empty")
  transfer_named object_name target_did (o ∷ objects) =
      transfer_found object_name target_did (lookup object_name (o ∷ objects))

  unfoldable pub transfer_to : Option (String × String) → M (Session net O) (Unit {0})
  unfolding transfer_named
  transfer_to none = fail (
      message
        "transfer object requires the following syntax:\n\n`transfer object {object name} to {player DID}`")
  transfer_to (some (matched, target_did)) = do
    s ← this net O
    objects ←
        wrapping "error getting player inventory list"
          (get_inventory_list net O around s.inventory_actor)
    transfer_named (trim_space matched) target_did objects

  unfoldable pub handle_transfer_object_cmd : String → M (Session net O) (Unit {0})
  unfolding transfer_to transfer_match
  handle_transfer_object_cmd args = transfer_to (transfer_match "" args)

  -- `own_did` is the did of the command's object
  unfoldable pub handle_drop_object : String → String → M (Session net O) (Unit {0})
  unfolding transfer_error fail_with
  handle_drop_object own_did did =
      if not (did == own_did)
      then fail (
          message (
            "Interaction from " <> own_did <> " tried to drop " <> did <> " - this is not allowed"))
      else do
        pid ← location_pid net O
        answer ← asking net O (inventory_did pid)
        location_inventory_did ← lift (elim answer [
          | failed e ↦ err (wrap "error executing drop request" e)
          | odd ↦ panic
          | reply d ↦ ok d
        ])
        s ← this net O
        r ←
            asking net O (
              transfer_object s.inventory_actor (record { did = did; to = location_inventory_did }))
        e ←
            lift
              (transfer_error "error executing drop request" "error casting drop object response" r)
        fail_with e
        say net O "object has been dropped into your current location"

  unfoldable pub created : String → Reply (Response String) → M (Session net O) (Unit {0})
  created name (failed e) = fail e
  created name odd = fail (message "error casting create object response")
  created name (reply no_response) = fail (message "future: timeout")
  created name (reply (respond_error already_exists)) =
      say net O ("You already have an object named \"" <> name <> "\" in your bag of hodling.")
  created name (reply (respond_error (message e))) = fail (message e)
  created name (reply (respond_error (wrap e f))) = fail (wrap e f)
  created name (reply (respond_error (Error.external e))) = fail (Error.external e)
  created name (reply (respond_error Error.unsupported_message_type)) =
      fail Error.unsupported_message_type
  created name (reply (respond_ok did)) =
      say net O (name <> " has been created with DID " <> did <> " and is in your bag of hodling")

  -- handleCreateObjectRequest with the treatment of ErrExists of its two callers
  unfoldable pub handle_create_object_request : CreateObjectRequest → M (Session net O) (Unit {0})
  unfolding created
  handle_create_object_request req = do
    s ← this net O
    r ← asking net O (create_object s.inventory_actor req)
    created req.name r

  unfoldable pub handle_create_object_from_args : String → M (Session net O) (Unit {0})
  unfolding name_and_description
  handle_create_object_from_args args =
      let (name, description) = name_and_description (words_of args) in
      handle_create_object_request
        (record { name = name; description = description; with_inscriptions = false })

  unfoldable pub list_each : List (String × String) → M (Session net O) (Unit {0})
  list_each [] = pure tt
  list_each ((name, did) ∷ rest) = say net O (name <> " (" <> did <> ")") >> list_each rest

  unfoldable pub list_bag : List (String × String) → M (Session net O) (Unit {0})
  unfolding list_each
  list_bag [] = say net O "your bag of hodling appears to be empty"
  list_bag (o ∷ objects) =
      say net O "inside of your bag of hodling you find:" >> list_each (o ∷ objects)

  unfoldable pub handle_player_inventory_list : M (Session net O) (Unit {0})
  unfolding list_bag
  handle_player_inventory_list = do
    s ← this net O
    objects ←
        wrapping "error getting player inventory list"
          (get_inventory_list net O around s.inventory_actor)
    list_bag objects
