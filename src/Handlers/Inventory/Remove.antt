-- ===== src/Handlers/Inventory/Remove.antt =====
-- handlers/inventory/unrestricted_remove.go: the sending half of a transfer. The object is owned by
-- both sides and taken out of the source inventory before the target is told; a failure undoes both.
pub mod Rollback
use jasons_game.Base.{
  String, Bool, not, Option, none, some, List, [], ◌∷◌, ◌++◌, ◌<>◌, if◌then◌else◌,
}
use jasons_game.Network.{
  Res, ok, err, panic, Error, message, wrap, M, Message, RequestObjectTransfer, TransferredObject,
  transferred_object, request_object_transfer, other, unsupported_message_type, pure, fail, panics,
  wrapping, deref, ◌>>=◌, ◌>>◌, Network, fetch,
}
use jasons_game.Trees.Inventory.{
  InventoryTree, find_inventory_tree, authentications_of, broadcast_topic, remove, add,
}
use jasons_game.Handlers.Core.{Handler, contains}
use jasons_game.Handlers.Remote.{RemoteHandler, find_handler_for_tree, as_handler}
use jasons_game.Handlers.Broadcast.{new_topic_broadcast_handler}

abbrev pub remove_messages : List String
remove_messages = "jasonsgame.RequestObjectTransferMessage" ∷ []

-- What the handler has read before it changes anything.
pub record Plan (W T : Type 0) : Type 0 where
  pub source : InventoryTree T
  pub source_auths : List String
  pub target_auths : List String
  pub object_tree : Option T
  pub target_handler : Handler W

abbrev pub transferred : RequestObjectTransfer → TransferredObject
transferred msg = record {
  from = msg.from;
  to = msg.to;
  object_did = msg.object_did;
  message_text = "";
  error_text = "";
}

module _ (net : Network) where
  open net use {World, Tree, must_id, change_chain_tree_owner, subscribed, confirmed}

  -- the remote handler of the target, or a broadcast to the target's topic
  target_handler_for : Option RemoteHandler → InventoryTree Tree → M World (Handler World)
  target_handler_for (some remote) target = pure (as_handler net remote)
  target_handler_for none target = do
    topic ← broadcast_topic net target
    pure (new_topic_broadcast_handler net topic)

  -- an error that is replaced by another
  abbrev replacing : {A : Type 0} → Error → M World A → M World A
  replacing e m w =
      let (r, w') = m w in elim r [ ok a ↦ (ok a, w') | err _ ↦ (err e, w') | panic ↦ (panic, w') ]

  -- The reads, up to the test whether the target supports the message.
  unfoldable pub prepare : RequestObjectTransfer → M World (Plan World Tree)
  unfolding target_handler_for
  prepare msg = do
    source ← wrapping "error fetching source chaintree" (find_inventory_tree net msg.from)
    source_auths ←
        wrapping ("error fetching source chaintree authentications " <> msg.from)
          (authentications_of net source)
    target ← wrapping "error fetching target chaintree" (find_inventory_tree net msg.to)
    target_auths ←
        wrapping ("error fetching target chaintree authentications " <> msg.to)
          (authentications_of net target)
    object_tree ←
        wrapping ("error fetching object chaintree " <> msg.object_did) (fetch net msg.object_did)
    remote ←
        replacing (message ("error fetching handler for " <> msg.to))
          (find_handler_for_tree net msg.to)
    handler ← target_handler_for remote target
    if not (handler.supports (transferred_object (transferred msg)))
        then fail (message ("transfer to inventory " <> msg.to <> " is not supported"))
        else pure (record {
          source = source;
          source_auths = source_auths;
          target_auths = target_auths;
          object_tree = object_tree;
          target_handler = handler;
        })

  -- `handleRollbacks`: the first rollback that fails ends them; the error given is returned.
  unfoldable pub handle_rollbacks : {A : Type 0} → Error → List (M World (Unit {0})) → M World A
  handle_rollbacks e [] w = (err e, w)
  handle_rollbacks e (rollback ∷ rest) w =
      let (r, w') = rollback w in
      let later = handle_rollbacks e rest w' in
      elim r [ ok _ ↦ later | err _ ↦ (err (wrap "error on rollback" e), w') | panic ↦ (panic, w') ]

  -- if err != nil { return fmt.Errorf("s: %v", handleRollbacks(err, rollbacks)) }
  unfoldable pub settle :
      {A : Type 0} → List (M World (Unit {0})) → String → Res A × World → Res A × World
  settle rollbacks s (ok a, w) = (ok a, w)
  settle rollbacks s (err e, w) = wrapping s (handle_rollbacks e rollbacks) w
  settle rollbacks s (panic, w) = (panic, w)

  unfoldable pub undoing : {A : Type 0} → List (M World (Unit {0})) → String → M World A → M World A
  unfolding settle handle_rollbacks
  undoing rollbacks s m w = settle rollbacks s (m w)

  -- the object goes back to the owners of the source
  unfoldable pub give_back : Tree → List String → M World (Unit {0})
  give_back object_tree source_auths = do change_chain_tree_owner object_tree source_auths; pure tt

  -- and back into the source inventory
  unfoldable pub put_back : InventoryTree Tree → String → M World (Unit {0})
  put_back source object_did = do add net source object_did; pure tt

  -- The writes: the shared ownership, the removal, the message, and the wait for the receiver.
  unfoldable pub hand_over : Plan World Tree → RequestObjectTransfer → M World (Unit {0})
  hand_over plan msg = do
    object_tree ← deref plan.object_tree
    shared ←
        wrapping "error changing object owner"
          (change_chain_tree_owner object_tree (plan.source_auths ++ plan.target_auths))
    source ←
        undoing (give_back shared plan.source_auths ∷ []) "error updating objects in inventory"
          (remove net plan.source msg.object_did)
    let rollbacks = give_back shared plan.source_auths ∷ put_back source msg.object_did ∷ []
    undoing rollbacks "error subscribing to object current state change"
        (subscribed (must_id shared))
    undoing rollbacks "error with target handler"
        (plan.target_handler.handle (transferred_object (transferred msg)))
    undoing rollbacks "error transferring object, receiver never confirmed"
        (confirmed (must_id shared))

  unfoldable pub handle_request : RequestObjectTransfer → M World (Unit {0})
  unfolding prepare hand_over
  handle_request msg = do plan ← prepare msg; hand_over plan msg

  remove_handle : Message → M World (Unit {0})
  unfolding handle_request
  remove_handle (request_object_transfer msg) = handle_request msg
  remove_handle (transferred_object msg) = fail unsupported_message_type
  remove_handle (other name) = fail unsupported_message_type

  unfoldable pub unrestricted_remove_handler : Handler World
  unfolding remove_handle
  unrestricted_remove_handler = record {
    handle = remove_handle;
    supports = contains remove_messages;
    supported_messages = remove_messages;
  }
