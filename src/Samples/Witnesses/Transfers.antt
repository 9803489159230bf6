-- ===== src/Samples/Witnesses/Transfers.antt =====
-- Transfers: the receiving half, the player's handler and the actor of an inventory.
use jasons_game.Game.ObjectTree.{find_object_tree}
use jasons_game.Game.PlayerInventoryHandler.{take}
use jasons_game.Base.{String, ◌≡◌, refl, true, false, none, some, [], ◌∷◌, ◌<>◌, ne_of_beq, lookup}
use jasons_game.Network.{Res, ok, err, message, TransferredObject, transferred_object}
use jasons_game.Utils.StringSlice.{include, index}
use jasons_game.Trees.Inventory.{
  exists, add, all, decoded, collect, objects_of, add_named, name_of, update_objects,
  reverse_objects, find_inventory_tree, new_inventory_tree, authentications_of,
}
use jasons_game.Handlers.Inventory.Add.{handle_transferred, receive, unrestricted_add_handler}
use jasons_game.Handlers.Inventory.Add.Received.{
  Arriving, Delivered, receive_requires_owner, receive_delivers,
}
use jasons_game.Handlers.Remote.{find_handler_for_tree}
use jasons_game.Game.PlayerInventoryHandler.{PlayerState, player_handle}
use jasons_game.Game.PlayerInventoryHandler.Expected.{Told, one_event, taken_was_expected}
use jasons_game.Game.InventoryActor.{
  InventoryActor, TransferObjectRequest, Response, respond_ok, handle_transfer_object,
  request_transfer, takes_transferred,
}
use jasons_game.Game.InventoryActor.Transfers.{Transferred, transfer_answered}
use jasons_game.Samples.Chain.{Store, sample, sample_laws}
use jasons_game.Samples.Scenes.{inventory_of, my_tree, your_tree, store, sword, rope, yours-Stored}

abbrev arriving : String → TransferredObject
arriving did = record {
  from = "did:me";
  to = "did:you";
  object_did = did;
  message_text = "";
  error_text = "";
}

sword_arrives : Arriving sample sample_laws (arriving "did:sword") [] your_tree sword store
unfolding reverse_objects
sword_arrives = record {
  target_found = refl;
  target_auths = "you" ∷ [];
  target_owned = refl;
  holding = yours-Stored;
  not_held = refl;
  object_found = refl;
  object_auths = "me" ∷ [];
  object_owned = refl;
  object_id = refl;
  apart = ne_of_beq _ _ refl;
}

rope_arrives : Arriving sample sample_laws (arriving "did:rope") [] your_tree rope store
unfolding reverse_objects
rope_arrives = record {
  target_found = refl;
  target_auths = "you" ∷ [];
  target_owned = refl;
  holding = yours-Stored;
  not_held = refl;
  object_found = refl;
  object_auths = "them" ∷ [];
  object_owned = refl;
  object_id = refl;
  apart = ne_of_beq _ _ refl;
}

not_mine : include ("them" ∷ []) "me" ≡ false
unfolding include index
not_mine = refl

receive_requires_owner_example : handle_transferred sample (arriving "did:rope") store ≡ (
  err (message ("can not transfer " <> "did:rope" <> ", current player is not an owner")),
  store,
)
unfolding rope_arrives
receive_requires_owner_example =
    receive_requires_owner sample sample_laws (arriving "did:rope") [] your_tree rope store
      rope_arrives not_mine

abbrev received : Res (Unit {0}) × Store
received = handle_transferred sample (arriving "did:sword") store

ran_received : handle_transferred sample (arriving "did:sword") store ≡ (ok tt, received.1)
unfolding handle_transferred find_inventory_tree new_inventory_tree authentications_of exists
    receive include index add all decoded collect objects_of add_named name_of update_objects
    reverse_objects
ran_received = refl

receive_delivers_example :
    (include ("me" ∷ []) "me" ≡ true)
    × Delivered sample sample_laws (arriving "did:sword") your_tree ("you" ∷ []) received.1
unfolding sword_arrives
receive_delivers_example =
    receive_delivers sample sample_laws (arriving "did:sword") [] your_tree sword store received.1
      "sword" sword_arrives refl refl ran_received

-- The player `did:you` who expects the sword.
abbrev player : PlayerState sample
player = record {
  player_did = "did:you";
  expected_objs = ("did:sword", true) ∷ [];
  published = [];
  world = store;
}

abbrev took : Res (Unit {0}) × PlayerState sample
took = player_handle sample (transferred_object (arriving "did:sword")) player

one_event_example :
    Told sample (arriving "did:sword") took.0 [] took.1.published
    × (lookup "did:sword" took.1.expected_objs ≡ none)
one_event_example = one_event sample (arriving "did:sword") player

ran_took : player_handle sample (transferred_object (arriving "did:sword")) player ≡ (ok tt, took.1)
unfolding player_handle take unrestricted_add_handler find_inventory_tree authentications_of exists
    all include add add_named name_of update_objects
ran_took = refl

taken_was_expected_example :
    (Path String "did:you" "did:you")
    × (lookup "did:sword" player.expected_objs ≡ some true)
    × (Path String "" "")
    × ((unrestricted_add_handler sample).handle (transferred_object (arriving "did:sword")) store
        ≡ (ok tt, took.1.world))
taken_was_expected_example = taken_was_expected sample (arriving "did:sword") player took.1 ran_took

-- An actor whose handler says yes, and one whose handler does not.
abbrev willing : InventoryActor sample
willing = record {
  did = "did:me";
  inventory = inventory_of my_tree;
  handler = record { handle = λ m w. (ok tt, w); supports = λ m. true; supported_messages = [] };
}

abbrev failing : InventoryActor sample
failing = record {
  did = "did:me";
  inventory = inventory_of my_tree;
  handler = record {
    handle = λ m w. (err (message "no"), w);
    supports = λ m. true;
    supported_messages = [];
  };
}

abbrev wish : TransferObjectRequest
wish = record { did = "did:sword"; to = "did:you" }

abbrev answered : Res (Response (Unit {0})) × Store
answered = handle_transfer_object sample willing wish store

ran_answered : handle_transfer_object sample willing wish store ≡ (ok (respond_ok tt), answered.1)
unfolding handle_transfer_object find_inventory_tree exists all find_object_tree request_transfer
    find_handler_for_tree takes_transferred
ran_answered = refl

transfer_answered_example : Transferred sample willing wish store answered.1
transfer_answered_example = transfer_answered sample willing wish store answered.1 ran_answered
