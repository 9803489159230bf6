-- ===== src/Game/PlayerInventoryHandler/Expected.antt =====
-- What the player's handler takes, and what it tells its subscribers.
use jasons_game.Base.{
  refl, subst, String, Option, List, ◌≡◌, true, none, some, ◌∷◌, lookup, lookup-remove_key, eq_iff,
  eq_refl, arith,
}
use jasons_game.Network.{Res, err, panic, Error, ok, TransferredObject, transferred_object, Network}
use jasons_game.Handlers.Inventory.Add.{unrestricted_add_handler}
use jasons_game.Game.PlayerInventoryHandler.{
  InventoryChangeEvent, PlayerState, take, error_of, event_of, publish, forget, receive_transferred,
  player_handle, in_world,
}

module _ (net : Network) where
  open net use {World}

  -- The event for an object, with the text and the error that it carries.
  abbrev pub event : String → String → Option Error → InventoryChangeEvent
  event object_did message_text e = record {
    did = object_did;
    action = "add";
    message_text = message_text;
    error = e;
  }

  -- The published events, for the result of a transfer: an error is told without the text of the
  -- message, and a panic as a success.
  abbrev pub Told :
      TransferredObject
      → Res (Unit {0})
      → List InventoryChangeEvent
      → List InventoryChangeEvent
      → Type 0
  Told msg (ok _) before now = now ≡ event msg.object_did msg.message_text none ∷ before
  Told msg (err e) before now = now ≡ event msg.object_did "" (some e) ∷ before
  Told msg panic before now = now ≡ event msg.object_did msg.message_text none ∷ before

  take_published :
      (msg : TransferredObject) (s : PlayerState net) → (take net msg s).1.published ≡ s.published
  unfolding take in_world
  take_published msg s = ground arith

  told :
      (msg : TransferredObject) (r : Res (Unit {0})) (before : List InventoryChangeEvent)
      → Told msg r before (event_of net msg (error_of net r) ∷ before)
  unfolding event_of error_of
  told msg (ok _) before = refl
  told msg (err e) before = refl
  told msg panic before = refl

  -- For every transferred object the player's handler publishes exactly one event, which adds the
  -- object: with the text of the message and no error after a success or a panic, with the error
  -- and no text after an error; and the object is no longer expected, whatever the outcome.
  pub one_event :
      (msg : TransferredObject) (s : PlayerState net)
      → let (r, s') = player_handle net (transferred_object msg) s in
        Told msg r s.published s'.published × (lookup msg.object_did s'.expected_objs ≡ none)
  unfolding player_handle receive_transferred publish forget
  one_event msg s =
      let t = take net msg s in
      (
        subst (λ before. Told msg t.0 before (event_of net msg (error_of net t.0) ∷ t.1.published))
            (take_published msg s) (told msg t.0 t.1.published),
        ground (
          arith,
          lookup-remove_key msg.object_did msg.object_did t.1.expected_objs,
          eq_refl msg.object_did,
        ),
      )

  -- If the player's handler succeeds on a transferred object, the message was addressed to the
  -- player, the object was expected, the message carried no error, and the unrestricted handler
  -- succeeded on it.
  pub taken_was_expected :
      (msg : TransferredObject) (s s' : PlayerState net)
      → player_handle net (transferred_object msg) s ≡ (ok tt, s')
      → (msg.to ≡ s.player_did)
        × (lookup msg.object_did s.expected_objs ≡ some true)
        × (msg.error_text ≡ "")
        × ((unrestricted_add_handler net).handle (transferred_object msg) s.world
            ≡ (ok tt, s'.world))
  unfolding player_handle receive_transferred publish forget take in_world
  taken_was_expected msg s s' h =
      ground (arith, eq_iff msg.to s.player_did, eq_iff msg.error_text "")
