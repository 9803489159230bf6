-- ===== src/Courts/Autumn/PickUp.antt =====
-- courts/autumn/element_combiner_handler.go: handlePickupElement, by which a player asks for what the
-- elements in the bowl make, and responseSender, which answers.
pub mod Quiet
pub mod Steps
pub mod Earned
use jasons_game.Base.{
  String, Bool, true, false, not, Option, none, some, List, [], ◌∷◌, ◌<>◌, ◌==◌, ltb, length, map,
  if◌then◌else◌,
}
use jasons_game.Network.{
  error_string, Value, null, text, bool, number, list, object, link, end, entries, as_text, Res, ok,
  err, panic, Error, message, wrap, M, pure, fail, panics, lift, wrapping, ◌>>=◌, ◌>>◌, Network,
  fetch, RequestObjectTransfer, transferred_object,
}
use jasons_game.Handlers.{Handler}
use jasons_game.Handlers.Remote.{RemoteHandler, as_handler, find_handler_for_tree}
use jasons_game.Handlers.Broadcast.{new_topic_broadcast_handler}
use jasons_game.Network.{error_string, auths_at}
use jasons_game.Trees.Inventory.{
  InventoryTree, find_inventory_tree, new_inventory_tree, did_for_name, remove, broadcast_topic_for,
}
use jasons_game.Game.Interactions.{Codec}
use jasons_game.Game.ObjectTree.{
  ObjectTree, find_object_tree, must_id_of, get_path, update_path, set_description,
  change_owner_of_object, create_object_on_tree,
}
use jasons_game.Courts.Autumn.Combinations.{ℤ, negsuc, same_id}
use jasons_game.Courts.Autumn.Elements.{Element, name_of_element, element_name_to_id}
use jasons_game.Courts.Autumn.Combiner.{
  combination_object_name, combination_success_msg, combination_blocked_failure_msg, base_err,
  combination_num_failure, combination_failure, ElementCombiner, find_combined_element,
}

-- `playerDidUncast == nil || playerDidUncast.(string) != to`, negated
unfoldable pub is_player : Value → String → Res Bool
is_player null to = ok false
is_player (text did) to = ok (did == to)
is_player (bool _) to = panic
is_player (number _) to = panic
is_player (list _) to = panic
is_player (object _) to = panic
is_player (link _) to = panic

-- the ids of the elements in the bowl; nil is an error
unfoldable pub ids_of : Value → Res (List ℤ)
ids_of null = err (message (base_err "no elements to combine"))
ids_of (object fields) = ok (map (λ p. element_name_to_id p.0) (entries fields))
ids_of (text _) = panic
ids_of (bool _) = panic
ids_of (number _) = panic
ids_of (list _) = panic
ids_of (link _) = panic

-- an error is replaced by one with this text
unfoldable pub replaced {ℓ} : {A : Type ℓ} → String → Res A → Res A
replaced s (ok a) = ok a
replaced s (err e) = err (message s)
replaced s panic = panic

-- an error is logged only
unfoldable pub logged {ℓ} : {A : Type ℓ} → Res A → Res (Unit {0})
logged (ok a) = ok tt
logged (err e) = ok tt
logged panic = panic

module _ {W A : Type 0} where
  -- if err != nil { return sender.Errorf(s) }
  abbrev pub saying : String → M W A → M W A
  saying s m w = let (r, w') = m w in (replaced s r, w')

  abbrev pub logging : M W A → M W (Unit {0})
  logging m w = let (r, w') = m w in (logged r, w')

module _ (net : Network) (codec : Codec) (h : ElementCombiner) where
  open net use {World, Tree}

  -- `targetHandler` of newResponseSender
  unfoldable pub chosen : String → Res (Option (RemoteHandler)) → Res (Handler World)
  chosen to (ok (some remote)) = ok (as_handler net remote)
  chosen to (ok none) = ok (new_topic_broadcast_handler net (broadcast_topic_for net to))
  chosen to (err e) = ok (new_topic_broadcast_handler net (broadcast_topic_for net to))
  chosen to panic = panic

  unfoldable pub new_response_sender : RequestObjectTransfer → M World (Handler World)
  new_response_sender source w =
      let (r, w') = find_handler_for_tree net source.to w in (chosen source.to r, w')

  unfoldable pub send_success : Handler World → RequestObjectTransfer → M World (Unit {0})
  send_success handler source = wrapping "error transferring object" (
      handler.handle (
        transferred_object (record {
          from = source.from;
          to = source.to;
          object_did = source.object_did;
          message_text = combination_success_msg;
          error_text = "";
        })))

  unfoldable pub after_error : Error → Res (Unit {0}) → Res (Unit {0})
  after_error e (ok _) = err e
  after_error e (err handler_error) = err (wrap (error_string handler_error) e)
  after_error e panic = panic

  unfoldable pub errorf : Handler World → RequestObjectTransfer → Error → M World (Unit {0})
  errorf handler source e w =
      let (r, w') =
        handler.handle
          (transferred_object (record {
            from = source.from;
            to = source.to;
            object_did = source.object_did;
            message_text = "";
            error_text = error_string e;
          }))
          w in
      (after_error e r, w')

  -- up to the bowl, with the inventory that holds it
  unfoldable pub find_bowl : RequestObjectTransfer → M World (InventoryTree Tree × ObjectTree net)
  find_bowl msg = do
    inventory ←
        saying (base_err "could not fetch current inventory") (find_inventory_tree net msg.from)
    combo_did ←
        saying (base_err "could not fetch current inventory")
          (did_for_name net inventory combination_object_name)
    if combo_did == ""
        then fail (message (base_err "no elements to combine"))
        else if not (combo_did == msg.object_did)
        then fail (message (base_err ("wrong object did for " <> combination_object_name)))
        else do
          combo ← saying (base_err "could not fetch object") (find_object_tree net combo_did)
          pure (inventory, combo)

  -- from the removal of the bowl on
  unfoldable pub make_element :
      InventoryTree Tree → ObjectTree net → Element → List String → M World (Unit {0})
  make_element inventory combo e player_auths = do
    did ← must_id_of net combo
    saying (base_err "could not remove object from location") (remove net inventory did)
    reset ←
        saying (base_err "could not update new element tree")
          (update_path net combo [] (object end))
    created ←
        saying (base_err "could not update new element tree")
          (create_object_on_tree net codec (name_of_element e) reset)
    described ←
        saying (base_err "could not update new element tree")
          (set_description net created e.description)
    saying (base_err "could not update new element tree")
        (change_owner_of_object net described player_auths)
    pure tt

  -- the bowl is taken away, and the offering refused
  unfoldable pub take_away : InventoryTree Tree → ObjectTree net → String → M World (Unit {0})
  take_away inventory combo s = do
    did ← must_id_of net combo
    logging (remove net inventory did)
    fail (message s)

  unfoldable pub give_element :
      InventoryTree Tree
      → ObjectTree net
      → InventoryTree Tree
      → List String
      → Element
      → M World (Unit {0})
  give_element inventory combo player_inventory player_auths e =
      if same_id e.id (negsuc 0)
      then take_away inventory combo combination_blocked_failure_msg
      else do
        existing ←
            saying (base_err "could not fetch player inventory")
              (did_for_name net player_inventory (name_of_element e))
        if not (existing == "")
            then fail (
                message (
                  base_err (
                    "can not pick up "
                    <> name_of_element e
                    <> ", one already exists in your inventory")))
            else make_element inventory combo e player_auths

  unfoldable pub found_or_not :
      InventoryTree Tree
      → ObjectTree net
      → InventoryTree Tree
      → List String
      → Option Element
      → M World (Unit {0})
  found_or_not inventory combo player_inventory player_auths none =
      take_away inventory combo (combination_failure h.name)
  found_or_not inventory combo player_inventory player_auths (some e) =
      give_element inventory combo player_inventory player_auths e

  unfoldable pub combine_elements :
      InventoryTree Tree
      → ObjectTree net
      → InventoryTree Tree
      → List String
      → List ℤ
      → M World (Unit {0})
  combine_elements inventory combo player_inventory player_auths ids =
      if ltb (length ids) h.min_required
      then fail (message (combination_num_failure h.min_required))
      else found_or_not inventory combo player_inventory player_auths (find_combined_element h ids)

  -- what follows the bowl
  unfoldable pub use_bowl :
      RequestObjectTransfer → InventoryTree Tree → ObjectTree net → M World (Unit {0})
  use_bowl msg inventory combo = do
    player ← saying (base_err "could not fetch object") (get_path net combo ("player" ∷ []))
    right ← lift (is_player player msg.to)
    if not right then fail (message (base_err "incorrect player did for object")) else do
      player_tree ← saying (base_err "could not fetch player tree") (fetch net msg.to)
      player_auths ← saying (base_err "could not fetch player tree") (auths_at net player_tree)
      uncast ← saying (base_err "could not fetch object") (get_path net combo ("elements" ∷ []))
      ids ← lift (ids_of uncast)
      combine_elements inventory combo (new_inventory_tree net player_tree) player_auths ids

  -- the body: an error is what `sender.Errorf` is called with, success what `sender.Send` answers
  unfoldable pub pick_up : RequestObjectTransfer → M World (Unit {0})
  pick_up msg = do (inventory, combo) ← find_bowl msg; use_bowl msg inventory combo

  unfoldable pub answer :
      Handler World → RequestObjectTransfer → Res (Unit {0}) → M World (Unit {0})
  answer handler msg (ok _) = send_success handler msg
  answer handler msg (err e) = errorf handler msg e
  answer handler msg panic = panics

  unfoldable pub handle_pickup_element : RequestObjectTransfer → M World (Unit {0})
  handle_pickup_element msg = do
    handler ← new_response_sender msg
    (λ w. let (r, w') = pick_up msg w in answer handler msg r w')
