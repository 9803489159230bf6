-- ===== src/Courts/Court/Prize/Transfer.antt =====
-- courts/court/prize_handler.go: the transfer of the object to the player who asks for it.
use jasons_game.Base.{
  ℕ, ◌+◌, ◌*◌, ◌/◌, String, Bool, true, not, ◌<>◌, ◌==◌, Option, some, none, List, [], ◌∷◌,
  if◌then◌else◌,
}
use jasons_game.Network.{
  Value, null, text, bool, number, list, object, link, field, end, Res, ok, err, panic, message,
  wrap, error_string, Error, M, pure, fail, panics, lift, deref, wrapping, ◌>>=◌, ◌>>◌, Network,
  fetch, RequestObjectTransfer, Message, transferred_object, other, request_object_transfer,
  unsupported_message_type,
}
use jasons_game.Handlers.{Handler}
use jasons_game.Handlers.Remote.{RemoteHandler, as_handler, find_handler_for_tree}
use jasons_game.Handlers.Broadcast.{new_topic_broadcast_handler}
use jasons_game.Trees.Inventory.{
  new_inventory_tree, find_inventory_tree, did_for_name, exists, remove, broadcast_topic_for,
}
use jasons_game.Importer.Flatmap.{decimal}
use jasons_game.Courts.Autumn.PickUp.{logged, saying}
use jasons_game.Courts.Court.Prize.{
  PrizeHandler, Kept, on_world, name_of_import, current_object_did, spawn_object,
}

-- the number of prizes; nil is none yet
unfoldable pub prize_number : Value → Res ℕ
prize_number null = ok 0
prize_number (number n) = ok n
prize_number (text _) = panic
prize_number (bool _) = panic
prize_number (list _) = panic
prize_number (object _) = panic
prize_number (link _) = panic

-- math.Ceil(n/100)*100, which the floats hold exactly for the numbers of prizes that there are
unfoldable pub bucket : ℕ → ℕ
bucket n = ((n + 99) / 100) * 100

-- the error of a handler that fails besides wraps the first
unfoldable pub with_error : Error → Res (Unit {0}) → Res (Unit {0})
with_error e (ok _) = err e
with_error e (err handler_error) = err (wrap (error_string handler_error) e)
with_error e panic = panic

module _ (net : Network) (h : PrizeHandler net) where
  open net use {
    World, Tree, must_id, tip, resolve, authentications, update_chain_tree, change_chain_tree_owner,
    play_set_data,
  }
  open h use {prize_cfg, parse_config, update_object, validator_func, cleanup_func}

  -- newResponseSender
  unfoldable pub sender_of : String → Res (Option RemoteHandler) → Res (Handler World)
  sender_of to (ok (some remote)) = ok (as_handler net remote)
  sender_of to (ok none) = ok (new_topic_broadcast_handler net (broadcast_topic_for net to))
  sender_of to (err e) = ok (new_topic_broadcast_handler net (broadcast_topic_for net to))
  sender_of to panic = panic

  unfoldable pub sender_for : RequestObjectTransfer → M World (Handler World)
  unfolding sender_of
  sender_for source w =
      let (r, w') = find_handler_for_tree net source.to w in (sender_of source.to r, w')

  unfoldable pub send_prize : Handler World → RequestObjectTransfer → M World (Unit {0})
  send_prize sender source = wrapping "error transferring object" (
      sender.handle (
        transferred_object (record {
          from = source.from;
          to = source.to;
          object_did = source.object_did;
          message_text = " ";
          error_text = "";
        })))

  -- responseSender.Errorf
  unfoldable pub refuse : Handler World → RequestObjectTransfer → Error → M World (Unit {0})
  refuse sender source e w =
      let (r, w') =
        sender.handle
          (transferred_object (record {
            from = source.from;
            to = source.to;
            object_did = source.object_did;
            message_text = "";
            error_text = "error on pick up: " <> error_string e <> " - try again";
          }))
          w in
      (with_error e r, w')

  unfoldable pub number_and_winner : ℕ → String → String → List (String × Value)
  unfolding bucket
  number_and_winner prize_num prize_tip player_tip =
      ("jasons-game/prizeNumber", number prize_num)
      ∷ (
        "jasons-game/winners/" <> decimal (bucket prize_num) <> "/" <> decimal prize_num,
        object (field "player" (link player_tip) (field "prize" (link prize_tip) end)),
      )
      ∷ []

  unfoldable pub tree_or_nil : Res Tree → Option Tree
  tree_or_nil (ok t) = some t
  tree_or_nil (err e) = none
  tree_or_nil panic = none

  -- `h.tree, err = h.net.PlayTransactions(…)`
  unfoldable pub play : Tree → List (String × Value) → M (Kept net) (Unit {0})
  unfolding tree_or_nil
  play t changes (w, kept) =
      let (r, w') = play_set_data t changes w in
      (
        elim r as (λ _. Res (Unit {0})) [ ok _ ↦ ok tt | err e ↦ err e | panic ↦ panic ],
        (w', tree_or_nil r),
      )

  unfoldable pub kept_tree : M (Kept net) Tree
  kept_tree (w, none) = (panic, (w, none))
  kept_tree (w, some t) = (ok t, (w, some t))

  unfoldable pub track_prize_distribution : String → String → M (Kept net) (Unit {0})
  unfolding prize_number play kept_tree number_and_winner
  track_prize_distribution prize_tip player_tip = do
    tree ← kept_tree
    uncast ← lift (resolve tree ("tree" ∷ "data" ∷ "jasons-game" ∷ "prizeNumber" ∷ []))
    current ← lift (prize_number uncast)
    play tree (number_and_winner (current + 1) prize_tip player_tip)

  unfoldable pub check_valid :
      Option (RequestObjectTransfer → M World Bool) → RequestObjectTransfer → M World Bool
  check_valid none msg = pure true
  check_valid (some validator) msg = validator msg

  unfoldable pub clean_up :
      Option (RequestObjectTransfer → M World (Unit {0}))
      → RequestObjectTransfer
      → M World (Unit {0})
  clean_up none msg w = (ok tt, w)
  clean_up (some cleanup) msg w = let (r, w') = cleanup msg w in (logged r, w')

  -- the goroutine; its error panics in the end
  unfoldable pub respawn : M World (Unit {0})
  unfolding spawn_object
  respawn w = let (r, w') = spawn_object net h w in (ok tt, w')

  -- the object becomes the prize
  unfoldable pub remade : RequestObjectTransfer → M World Tree
  remade msg = do
    cfg ← parse_config msg.object_did
    object_found ← fetch net msg.object_did
    object_tree ← deref object_found
    emptied ← update_chain_tree object_tree "jasons-game" (object end)
    update_object (must_id emptied) cfg.prize
    latest ← fetch net msg.object_did
    deref latest

  -- the object out of the location
  unfoldable pub make_prize : RequestObjectTransfer → M World Tree
  unfolding respawn remade
  make_prize msg = do
    loc_tree ← saying "could not fetch location tree" (fetch net prize_cfg.location)
    saying "could not remove object from location"
        (remove net (new_inventory_tree net loc_tree) msg.object_did)
    respawn
    saying "generating prize chaintree failed" (remade msg)

  unfoldable pub give : RequestObjectTransfer → Tree → M (Kept net) (Unit {0})
  unfolding make_prize track_prize_distribution clean_up
  give msg player_tree = do
    prize ← on_world net (make_prize msg)
    player_auths ←
        saying "could not fetch player authentications" (lift (authentications player_tree))
    saying "could not update object ownership"
        (on_world net (change_chain_tree_owner prize player_auths))
    saying "could not distribute prize" (track_prize_distribution (tip prize) (tip player_tree))
    on_world net (clean_up cleanup_func msg)

  unfoldable pub give_if_valid : RequestObjectTransfer → Tree → M (Kept net) (Unit {0})
  unfolding check_valid give
  give_if_valid msg player_tree = do
    valid ← saying "could not validate" (on_world net (check_valid validator_func msg))
    if not valid then fail (message "could not validate") else give msg player_tree

  unfoldable pub give_if_new : RequestObjectTransfer → M (Kept net) (Unit {0})
  unfolding give_if_valid
  give_if_new msg = do
    player ← saying "could not fetch player chaintree" (on_world net (fetch net msg.to))
    player_tree ← deref player
    player_inventory ←
        saying "could not fetch player inventory"
          (on_world net (find_inventory_tree net (must_id player_tree)))
    prize_name ← lift (name_of_import prize_cfg.prize)
    existing ←
        saying "fetching object in player inventory"
          (on_world net (did_for_name net player_inventory prize_name))
    held ←
        saying "checking existance in player inventory"
          (on_world net (exists net player_inventory existing))
    if held
        then fail (message "prize already exists in player inventory")
        else give_if_valid msg player_tree

  unfoldable pub give_if_current : RequestObjectTransfer → M (Kept net) (Unit {0})
  unfolding give_if_new
  give_if_current msg = do
    current ← saying "could not fetch prize did" (on_world net (current_object_did net h))
    if not (msg.object_did == current)
        then fail (message "current object has changed")
        else give_if_new msg

  unfoldable pub answer_transfer :
      Handler World → RequestObjectTransfer → Res (Unit {0}) → M (Kept net) (Unit {0})
  unfolding send_prize refuse
  answer_transfer sender msg (ok _) = on_world net (send_prize sender msg)
  answer_transfer sender msg (err e) = on_world net (refuse sender msg e)
  answer_transfer sender msg panic = panics

  unfoldable pub handle_transfer : RequestObjectTransfer → M (Kept net) (Unit {0})
  unfolding sender_for give_if_current answer_transfer
  handle_transfer msg = do
    sender ← on_world net (sender_for msg)
    λ k. let (r, k') = give_if_current msg k in answer_transfer sender msg r k'

  -- Handle; an error is logged
  unfoldable pub handle_prize : Message → M (Kept net) (Unit {0})
  unfolding handle_transfer
  handle_prize (request_object_transfer msg) k =
      let (r, k') = handle_transfer msg k in (logged r, k')
  handle_prize (transferred_object msg) k = (err unsupported_message_type, k)
  handle_prize (other name) k = (err unsupported_message_type, k)
