-- ===== src/Handlers/Inventory/Add.antt =====
-- handlers/inventory/unrestricted_add.go: the receiving half of a transfer. The object is put into
-- the target inventory and then given to the owners of that inventory.
pub mod Received
use jasons_game.Base.{
  String, Bool, true, false, not, Option, some, List, [], ◌∷◌, ◌<>◌, if◌then◌else◌,
}
use jasons_game.Network.{
  auths_at, Res, Error, message, M, Message, TransferredObject, transferred_object,
  request_object_transfer, other, message_name, unsupported_message_type, pure, fail, lift,
  wrapping, deref, ◌>>=◌, ◌>>◌, Network, fetch,
}
use jasons_game.Utils.StringSlice.{include}
use jasons_game.Trees.Inventory.{
  InventoryTree, find_inventory_tree, authentications_of, exists, add,
}
use jasons_game.Handlers.Core.{Handler, contains}

abbrev pub add_messages : List String
add_messages = "jasonsgame.TransferredObjectMessage" ∷ []

module _ (net : Network) where
  open net use {World, Tree, public_addr, authentications, change_chain_tree_owner}

  -- ChangeChainTreeOwner on a tree that may be nil.
  abbrev pub change_owner : Option Tree → List String → M World Tree
  change_owner tree keys = do t ← deref tree; change_chain_tree_owner t keys

  -- from the look at the object on
  unfoldable pub receive : InventoryTree Tree → List String → TransferredObject → M World (Unit {0})
  receive target target_auths msg = do
    object_tree ←
        wrapping ("error fetching object chaintree " <> msg.object_did) (fetch net msg.object_did)
    object_auths ←
        wrapping ("error fetching object chaintree authentications " <> msg.object_did)
          (auths_at net object_tree)
    if not (include object_auths public_addr)
        then fail
            (message ("can not transfer " <> msg.object_did <> ", current player is not an owner"))
        else do
          add net target msg.object_did
          wrapping "error changing object owner" (change_owner object_tree target_auths)
          pure tt

  unfoldable pub handle_transferred : TransferredObject → M World (Unit {0})
  unfolding receive
  handle_transferred msg = do
    target ← wrapping "error fetching inventory chaintree" (find_inventory_tree net msg.to)
    target_auths ←
        wrapping ("error fetching target chaintree authentications " <> msg.to)
          (authentications_of net target)
    exists ← exists net target msg.object_did
    if exists then pure tt else receive target target_auths msg

  add_handle : Message → M World (Unit {0})
  unfolding handle_transferred
  add_handle (transferred_object msg) = handle_transferred msg
  add_handle (request_object_transfer msg) = fail unsupported_message_type
  add_handle (other name) = fail unsupported_message_type

  unfoldable pub unrestricted_add_handler : Handler World
  unfolding add_handle
  unrestricted_add_handler = record {
    handle = add_handle;
    supports = contains add_messages;
    supported_messages = add_messages;
  }
