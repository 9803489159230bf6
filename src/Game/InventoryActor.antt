-- ===== src/Game/InventoryActor.antt =====
-- game/inventory.go: the actor of an inventory. A request is an action that ends in a response, or
-- in none.
pub mod Transfers
pub mod Creations
pub mod Listing
use jasons_game.Base.{
  String, Bool, true, false, not, Option, none, some, List, [], ◌∷◌, ◌==◌, insert, if◌then◌else◌,
}
use jasons_game.Network.{
  Res, ok, err, panic, Error, message, wrap, already_exists, M, panics, Message, TransferredObject,
  transferred_object, RequestObjectTransfer, request_object_transfer, pure, lift, deref, ◌>>=◌,
  Network,
}
use jasons_game.Trees.Inventory.{InventoryTree, find_inventory_tree, exists, did_for_name, add, all}
use jasons_game.Trees.Ownership.{verify_ownership}
use jasons_game.Handlers.{Handler, noop_handler}
use jasons_game.Handlers.Composite.{new_composite_handler}
use jasons_game.Handlers.Remote.{RemoteHandler, as_handler, find_handler_for_tree}
use jasons_game.Handlers.Inventory.Add.{unrestricted_add_handler}
use jasons_game.Handlers.Inventory.Remove.{unrestricted_remove_handler}
use jasons_game.Game.Interactions.{Codec}
use jasons_game.Game.ObjectTree.{
  ObjectTree, must_id_of, create_object_tree, set_description, add_default_inscription_interactions,
  find_object_tree,
}

pub record CreateObjectRequest : Type 0 where
  pub name : String
  pub description : String
  pub with_inscriptions : Bool

pub record TransferObjectRequest : Type 0 where
  pub did : String
  pub to : String

-- A response with a result or an error, or none at all.
pub data Response (A : Type 0) : Type 0 where
  respond_ok : A → Response A
  respond_error : Error → Response A
  no_response : Response A

-- `if err != nil { Respond(…Error: f err); return }`
abbrev pub on_result :
    {W A B : Type 0} → Res A → (Error → Error) → (A → M W (Response B)) → M W (Response B)
on_result (ok a) f k w = k a w
on_result (err e) f k w = (ok (respond_error (f e)), w)
on_result panic f k w = (panic, w)

abbrev pub answering :
    {W A B : Type 0} → M W A → (Error → Error) → (A → M W (Response B)) → M W (Response B)
answering m f k w = let (r, w') = m w in on_result r f k w'

-- `objects[name] = did` for all objects
abbrev pub by_name : List (String × String) → List (String × String) → List (String × String)
by_name [] objects = objects
by_name ((did, name) ∷ rest) objects = by_name rest (insert name did objects)

module _ (net : Network) where
  open net use {World, Tree, must_id, public_addr}

  pub record InventoryActor : Type 0 where
    pub did : String
    pub inventory : InventoryTree Tree
    pub handler : Handler World

  pub handler_or : Option RemoteHandler → M World (Handler World) → M World (Handler World)
  handler_or none m = m
  handler_or (some h) m = pure (as_handler net h)

  -- the failures panic
  pub or_panic : {A : Type 0} → Res A → Res A
  or_panic (ok a) = ok a
  or_panic (err e) = panic
  or_panic panic = panic

  unfoldable pub pick_default_handler : InventoryTree Tree → M World (Handler World)
  unfolding handler_or or_panic
  pick_default_handler inventory = do
    tree ← deref inventory.tree
    chaintree_handler ←
        λ w. let (r, w') = find_handler_for_tree net (must_id tree) w in (or_panic r, w')
    handler_or chaintree_handler (do
      is_local ← lift (or_panic (verify_ownership net tree (public_addr ∷ [])))
      if is_local
          then pure (
              new_composite_handler
                (unrestricted_add_handler net ∷ unrestricted_remove_handler net ∷ []))
          else pure noop_handler)

  -- a handler of the target that there is must take transferred objects
  unfoldable pub takes_transferred : Option RemoteHandler → Bool
  takes_transferred none = true
  takes_transferred (some h) = (as_handler net h).supports (
      transferred_object
        (record { from = ""; to = ""; object_did = ""; message_text = ""; error_text = "" }))

  -- an error of the handler is logged, and nothing is answered
  unfoldable pub answer_of : Res (Unit {0}) → M World (Response (Unit {0}))
  answer_of (ok _) = pure (respond_ok tt)
  answer_of (err e) = pure no_response
  answer_of panic = panics

  -- handleTransferObject, from the look at the handlers on
  unfoldable pub request_transfer :
      InventoryActor → TransferObjectRequest → M World (Response (Unit {0}))
  unfolding answer_of
  request_transfer inv msg =
      let request =
        request_object_transfer (record { from = inv.did; to = msg.to; object_did = msg.did }) in
      if not (inv.handler.supports request)
      then pure (respond_error (message "transfer from inventory is not supported"))
      else answering (find_handler_for_tree net msg.to) (λ e. message "error fetching handler")
          (λ target.
            if not (takes_transferred target)
            then pure (respond_error (message "transfer to inventory is not supported"))
            else λ w. let (r, w') = inv.handler.handle request w in answer_of r w')

  unfoldable pub handle_transfer_object :
      InventoryActor → TransferObjectRequest → M World (Response (Unit {0}))
  handle_transfer_object inv msg =
      if msg.did == ""
      then pure (respond_error (message "Did is required to transfer an object"))
      else if msg.to == ""
      then pure (respond_error (message "To is required to transfer an object"))
      else answering (find_inventory_tree net msg.to)
          (wrap "error retrieving object tree for destination")
          (λ dest_tree.
            answering (exists net dest_tree msg.did)
              (wrap "error checking for existence of object in destination inventory")
              (λ exists_in_dest.
                if exists_in_dest
                then pure (respond_error already_exists)
                else answering (exists net inv.inventory msg.did) (λ e. e)
                    (λ held.
                      if not held
                      then pure (respond_error (message "object does not exist in inventory"))
                      else answering (find_object_tree net msg.did)
                          (wrap "error fetching object chaintree")
                          (λ _. request_transfer inv msg))))

  -- handleListObjects: the dids by their names
  unfoldable pub list_objects : InventoryActor → M World (Response (List (String × String)))
  list_objects inv =
      answering (all net inv.inventory) (wrap "error fetching inventory; error")
        (λ objects. pure (respond_ok (by_name (net.range objects) [])))

  module _ (codec : Codec) where
    -- the description and the inscriptions of a new object, where they are asked for
    unfoldable pub furnished :
        CreateObjectRequest
        → ObjectTree net
        → (ObjectTree net → M World (Response (String × InventoryTree Tree)))
        → M World (Response (String × InventoryTree Tree))
    furnished msg object k =
        answering
          (if msg.description == ""
            then pure object
            else set_description net object msg.description)
          (wrap "error setting description of new object")
          (λ described.
            answering
              (if msg.with_inscriptions
                then add_default_inscription_interactions net codec described
                else pure described)
              (wrap "error adding inscription commands") k)

    -- the did of the object, with the inventory that the actor has then
    unfoldable pub handle_create_object :
        InventoryActor → CreateObjectRequest → M World (Response (String × InventoryTree Tree))
    handle_create_object inv msg =
        answering (did_for_name net inv.inventory msg.name)
          (wrap "error checking inventory chaintree")
          (λ exists.
            if not (exists == "")
            then pure (respond_error already_exists)
            else answering (create_object_tree net codec msg.name)
                (wrap "error creating object chaintree")
                (λ object. furnished msg object (λ made. do
                  did ← must_id_of net made
                  answering (add net inv.inventory did) (wrap "error updating objects in chaintree")
                      (λ inventory. pure (respond_ok (did, inventory))))))
