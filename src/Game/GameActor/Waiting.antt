-- ===== src/Game/GameActor/Waiting.antt =====
-- game/game.go: the commands that wait until the handler of the player's inventory tells of an
-- object. The code waits with no timeout; `none` means that it waits for ever.
use jasons_game.Game.GameActor.Matches.{has_did}
use jasons_game.Base.{String, not, ◌<>◌, Option, some, none, ◌==◌, if◌then◌else◌}
use jasons_game.Network.{
  Res, ok, err, panic, Error, message, wrap, already_exists, error_string, M, panics, pure, fail,
  wrapping, ◌>>=◌, ◌>>◌, Network,
}
use jasons_game.Game.ObjectTree.{find_object_tree, get_name}
use jasons_game.Game.PlayerInventoryHandler.{InventoryChangeEvent}
use jasons_game.Game.InventoryActor.{Response, respond_ok, respond_error, no_response}
use jasons_game.Game.GameActor.{
  Session, Surroundings, Reply, failed, odd, reply, asking, doing, this, on_net, location_pid,
}
use jasons_game.Game.GameActor.Messages.{say}

module _ (net : Network) (O : Type 0) (around : Surroundings (net.World × O)) where
  open net use {World}
  open around use {transfer_object, expect_object, send_transferred, next_event}

  -- an action that may wait for ever
  abbrev pub Waits : Type 0
  Waits = Session net O → Option (Res (Unit {0}) × Session net O)

  abbrev pub without_waiting : M (Session net O) (Unit {0}) → Waits
  without_waiting m s = some (m s)

  abbrev pub go_on :
      {A : Type 0} → (A → Waits) → Res A × Session net O → Option (Res (Unit {0}) × Session net O)
  go_on k (ok a, s) = k a s
  go_on k (err e, s) = some (err e, s)
  go_on k (panic, s) = some (panic, s)

  -- what follows an action that does not wait
  unfoldable pub and_wait : {A : Type 0} → M (Session net O) A → (A → Waits) → Waits
  and_wait m k s = go_on k (m s)

  unfoldable pub when_told :
      (InventoryChangeEvent → M (Session net O) (Unit {0}))
      → Option (InventoryChangeEvent × (World × O))
      → Waits
  when_told k none s = none
  when_told k (some (e, (w, o))) s = some (k e (record s { world = w; others = o }))

  -- `<-changeEventCh`
  unfoldable pub wait_for : String → (InventoryChangeEvent → M (Session net O) (Unit {0})) → Waits
  unfolding when_told
  wait_for object_did k s = when_told k (next_event object_did (s.world, s.others)) s

  -- the event that the handler of the inventory publishes for the object
  unfoldable pub event_error : InventoryChangeEvent → M (Session net O) (Unit {0})
  event_error evt = elim (evt.error) [ none ↦ pure tt | some e ↦ fail (message (error_string e)) ]

  -- the object's name, once the inventory was sent the object
  unfoldable pub receive_asked : String → M (Session net O) String
  unfolding has_did
  receive_asked object_did =
      if not (has_did object_did)
      then fail (message "must specify an DID to recieve object")
      else do
        object ← wrapping "object not found" (on_net net O (find_object_tree net object_did))
        obj_name ← wrapping "error getting object name" (on_net net O (get_name net object))
        s ← this net O
        doing net O (expect_object object_did)
        doing net O (
            send_transferred s.inventory_actor (record {
              from = "";
              to = s.player_tree.did;
              object_did = object_did;
              message_text = "";
              error_text = "";
            }))
        pure obj_name

  unfoldable pub received : String → String → InventoryChangeEvent → M (Session net O) (Unit {0})
  unfolding event_error
  received object_did obj_name change_event = do
    event_error change_event
    say net O (obj_name <> " (" <> object_did <> ") has been transferred into your bag of hodling")

  unfoldable pub handle_receive_object_cmd : String → Waits
  unfolding and_wait wait_for receive_asked received
  handle_receive_object_cmd object_did =
      and_wait (receive_asked object_did)
        (λ obj_name. wait_for object_did (received object_did obj_name))

  unfoldable pub name_or_object : Res String → M (Session net O) String
  name_or_object (ok name) = pure (if name == "" then "object" else name)
  name_or_object (err e) = pure "object"
  name_or_object panic = panics

  unfoldable pub already_held : String → M (Session net O) (Unit {0})
  already_held object_did = do
    object_tree ← on_net net O (find_object_tree net object_did)
    obj_name ← λ s. let (r, s') = on_net net O (get_name net object_tree) s in name_or_object r s'
    say net O ("'" <> obj_name <> "' is already in your bag of hodling")

  unfoldable pub told_of_object : InventoryChangeEvent → M (Session net O) (Unit {0})
  unfolding event_error
  told_of_object change_event = do
    event_error change_event
    say net O (
        if change_event.message_text == ""
        then "object has been picked up"
        else change_event.message_text)

  -- the answer of the location, for an object that was asked for
  unfoldable pub picked_up : String → Reply (Response (Unit {0})) → Waits
  unfolding already_held wait_for told_of_object
  picked_up object_did (failed e) = without_waiting (fail e)
  picked_up object_did odd =
      without_waiting (fail (message "error casting pick up object response"))
  picked_up object_did (reply no_response) = without_waiting (fail (message "future: timeout"))
  picked_up object_did (reply (respond_error already_exists)) =
      without_waiting (already_held object_did)
  picked_up object_did (reply (respond_error (message e))) =
      without_waiting (say net O (error_string (message e)))
  picked_up object_did (reply (respond_error (wrap e f))) =
      without_waiting (say net O (error_string (wrap e f)))
  picked_up object_did (reply (respond_error (Error.external e))) =
      without_waiting (say net O (error_string (Error.external e)))
  picked_up object_did (reply (respond_error Error.unsupported_message_type)) =
      without_waiting (say net O (error_string Error.unsupported_message_type))
  picked_up object_did (reply (respond_ok _)) = wait_for object_did told_of_object

  unfoldable pub pick_up_asked : String → M (Session net O) (Reply (Response (Unit {0})))
  pick_up_asked object_did = do
    doing net O (expect_object object_did)
    s ← this net O
    pid ← location_pid net O
    asking net O (transfer_object pid (record { did = object_did; to = s.player_tree.did }))

  unfoldable pub handle_pick_up_object : String → Waits
  unfolding and_wait pick_up_asked picked_up
  handle_pick_up_object object_did = and_wait (pick_up_asked object_did) (picked_up object_did)
