-- ===== src/Game/PlayerInventoryHandler.antt =====
-- game/player_inventory_handler.go: the handler of the player's own inventory, which takes only what
-- the player asked for and tells its subscribers of every message.
pub mod Expected
use jasons_game.Base.{
  String, Bool, true, false, not, Option, none, some, List, [], ◌∷◌, lookup, insert, remove_key,
  ◌==◌, if◌then◌else◌,
}
use jasons_game.Network.{
  Res, ok, err, panic, Error, message, external, M, Message, TransferredObject, transferred_object,
  request_object_transfer, other, unsupported_message_type, Network,
}
use jasons_game.Handlers.{Handler, contains}
use jasons_game.Handlers.Inventory.Add.{unrestricted_add_handler}
use jasons_game.Handlers.Inventory.Remove.{unrestricted_remove_handler}

pub record InventoryChangeEvent : Type 0 where
  pub did : String
  pub action : String
  pub message_text : String
  pub error : Option Error

abbrev pub player_inventory_handler_messages : List String
player_inventory_handler_messages =
    "jasonsgame.TransferredObjectMessage" ∷ "jasonsgame.RequestObjectTransferMessage" ∷ []

module _ (net : Network) where
  open net use {World}

  -- The struct with the world around it; `published` holds the latest event first.
  pub record PlayerState : Type 0 where
    pub player_did : String
    pub expected_objs : List (String × Bool)
    pub published : List InventoryChangeEvent
    pub world : World

  unfoldable pub publish : InventoryChangeEvent → PlayerState → PlayerState
  publish e s = record {
    player_did = s.player_did;
    expected_objs = s.expected_objs;
    published = e ∷ s.published;
    world = s.world;
  }

  unfoldable pub expect_object : String → PlayerState → PlayerState
  expect_object did s = record {
    player_did = s.player_did;
    expected_objs = insert did true s.expected_objs;
    published = s.published;
    world = s.world;
  }

  unfoldable pub forget : String → PlayerState → PlayerState
  forget did s = record {
    player_did = s.player_did;
    expected_objs = remove_key did s.expected_objs;
    published = s.published;
    world = s.world;
  }

  -- A handler's work, with the rest of the state kept.
  unfoldable pub in_world : M World (Unit {0}) → M PlayerState (Unit {0})
  in_world m s =
      let (r, w) = m s.world in
      (
        r,
        record {
          player_did = s.player_did;
          expected_objs = s.expected_objs;
          published = s.published;
          world = w;
        },
      )

  -- `isExpected == nil || !isExpected.(bool)`
  abbrev pub is_expected : Option Bool → Bool
  is_expected none = false
  is_expected (some b) = b

  -- the body of the case, up to its `return`
  unfoldable pub take : TransferredObject → M PlayerState (Unit {0})
  unfolding in_world
  take msg s =
      if not (msg.to == s.player_did)
      then (err (message "Message not intended for this player"), s)
      else if not (is_expected (lookup msg.object_did s.expected_objs))
      then (err (message "Receive was rejected by player"), s)
      else if not (msg.error_text == "")
      then (err (external msg.error_text), s)
      else in_world ((unrestricted_add_handler net).handle (transferred_object msg)) s

  -- what the deferred function sees in `err`: nothing when the body panics
  unfoldable pub error_of : Res (Unit {0}) → Option Error
  error_of (ok _) = none
  error_of (err e) = some e
  error_of panic = none

  unfoldable pub event_of : TransferredObject → Option Error → InventoryChangeEvent
  event_of msg none = record {
    did = msg.object_did;
    action = "add";
    message_text = msg.message_text;
    error = none;
  }
  event_of msg (some e) = record {
    did = msg.object_did;
    action = "add";
    message_text = "";
    error = some e;
  }

  -- the body, then the deferred function
  unfoldable pub receive_transferred : TransferredObject → M PlayerState (Unit {0})
  unfolding publish forget error_of event_of
  receive_transferred msg s =
      let (r, s') = take msg s in
      (r, publish (event_of msg (error_of r)) (forget msg.object_did s'))

  pub published_if_ok : String → Res (Unit {0}) → PlayerState → PlayerState
  unfolding publish
  published_if_ok object_did (ok _) s =
      publish (record { did = object_did; action = "remove"; message_text = ""; error = none }) s
  published_if_ok object_did (err _) s = s
  published_if_ok object_did panic s = s

  unfoldable pub player_handle : Message → M PlayerState (Unit {0})
  unfolding published_if_ok receive_transferred in_world
  player_handle (request_object_transfer msg) s =
      let (r, s') =
        in_world ((unrestricted_remove_handler net).handle (request_object_transfer msg)) s in
      (r, published_if_ok msg.object_did r s')
  player_handle (transferred_object msg) s = receive_transferred msg s
  player_handle (other name) s = (err unsupported_message_type, s)

  unfoldable pub player_inventory_handler : Handler PlayerState
  player_inventory_handler = record {
    handle = player_handle;
    supports = contains player_inventory_handler_messages;
    supported_messages = player_inventory_handler_messages;
  }
