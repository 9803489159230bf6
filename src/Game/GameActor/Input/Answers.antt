-- ===== src/Game/GameActor/Input/Answers.antt =====
-- game/game.go: handleUserInput answers.
use jasons_game.Base.{
  ℕ, zero, suc, ◌<◌, String, ◌≡◌, Bool, true, false, ◌||◌, ◌==◌, Option, some, none, arith,
  if◌then◌else◌, List, [], ◌∷◌,
}
use jasons_game.Network.{Res, ok, err, panic, M, Network}
use jasons_game.Game.Interactions.{
  Codec, Interaction, respond, change_location, change_named_location, pick_up_object, drop_object,
  create_object, get_tree_value, set_tree_value, chained, cipher, build_portal_interaction,
  delete_portal_interaction, look_around_interaction,
}
use jasons_game.Game.Interactions.Sealed.{Sealing}
use jasons_game.Game.Commands.{Command, basic_command, interaction_command, find_command}
use jasons_game.Game.GameActor.{Session, Surroundings}
use jasons_game.Game.GameActor.Messages.{acknowledge_receipt}
use jasons_game.Game.GameActor.Places.{Shown}
use jasons_game.Game.GameActor.Refresh.{refresh_all_interactions}
use jasons_game.Game.GameActor.Interactions.{handle_interaction}
use jasons_game.Game.GameActor.Input.Terminates.{acknowledged-commands}
use jasons_game.Game.GameActor.Input.{
  send_help, handle_help, refresh_answer, handle_refresh, handle_basic, handle_command, told,
  handle_found, handle_user_input,
}
use jasons_game.Game.GameActor.Steps.{acknowledge_receipt-Runs, runs}
use jasons_game.Game.GameActor.Steps.Refreshing.{refresh_all_interactions-Runs}
use jasons_game.Game.GameActor.Steps.Whole.{handle_command-Ends}
use jasons_game.Game.GameActor.Steps.Spoken.{
  heard, Speaks, Reach-heard, after-Speaks, send_user_message-Speaks, speaks,
}
use jasons_game.Game.GameActor.Waiting.{Waits}
use jasons_game.Game.GameActor.Steps.Waited.{
  EndsWithin, Answered, Speaks-Answered, handle_receive_object_cmd-Waited,
  handle_pick_up_object-Waited,
}
use jasons_game.Game.GameActor.Steps.Heard.{
  handle_player_inventory_list-Speaks, handle_transfer_object_cmd-Speaks, handle_drop_object-Speaks,
  handle_create_object_request-Speaks, handle_create_object_from_args-Speaks,
  handle_tip_zoom-Speaks, handle_change_location-Speaks, handle_change_named_location-Speaks,
  handle_set_tree_value-Speaks, handle_get_tree_value-Speaks, handle_location_inventory_list-Speaks,
  handle_create_location-Speaks, handle_connect_location-Speaks,
}

-- the names of the commands that are no interactions, and those that do not wait among them
unfoldable pub is_at_once : String → Bool
is_at_once n =
    n == "exit"
    || (n == "tip-zoom"
        || (n == "refresh"
            || (n == "create-object"
                || (n == "player-inventory-list"
                    || (n == "location-inventory-list"
                        || (n == "create-location"
                            || (n == "connect-location"
                                || (n == "transfer-object" || (n == "help" || false)))))))))

unfoldable pub is_known : String → Bool
unfolding is_at_once
is_known n = n == "receive-object" || is_at_once n

-- Is the command neither of a name that is not known, nor about a portal, nor one that holds others?
unfoldable pub is_plain : Command → Bool
unfolding is_known
is_plain (basic_command n p h g) = is_known n
is_plain (interaction_command p (respond _ _ _) g did) = true
is_plain (interaction_command p (change_location _ _ _) g did) = true
is_plain (interaction_command p (change_named_location _ _ _) g did) = true
is_plain (interaction_command p (pick_up_object _ _ _) g did) = true
is_plain (interaction_command p (drop_object _ _ _) g did) = true
is_plain (interaction_command p (create_object _ _ _ _ _) g did) = true
is_plain (interaction_command p (get_tree_value _ _ _ _) g did) = true
is_plain (interaction_command p (set_tree_value _ _ _ _ _) g did) = true
is_plain (interaction_command p (chained _ _ _) g did) = false
is_plain (interaction_command p (cipher _ _ _ _) g did) = false
is_plain (interaction_command p build_portal_interaction g did) = false
is_plain (interaction_command p delete_portal_interaction g did) = false
is_plain (interaction_command p look_around_interaction g did) = true

unfoldable pub none_or_plain : Option Command × String → Bool
unfolding is_plain
none_or_plain (none, args) = true
none_or_plain (some c, args) = is_plain c

module _ (net : Network) (O : Type 0) (around : Surroundings (net.World × O)) where
  or_if-Speaks :
      (b c : Bool) (m n : M (Session net O) (Unit {0}))
      → Speaks net O m
      → (c ≡ true → Speaks net O n)
      → (b || c) ≡ true
      → Speaks net O (if b then m else n)
  or_if-Speaks true c m n h h' e = h
  or_if-Speaks false c m n h h' e = h' e

  refresh_answer-Speaks : (r : Res (Unit {0})) → Speaks net O (refresh_answer net O around r)
  unfolding refresh_answer
  refresh_answer-Speaks (ok _) = search speaks
  refresh_answer-Speaks (err e) = search (speaks, runs)
  refresh_answer-Speaks panic = search speaks

  handle_refresh-Speaks : Speaks net O (handle_refresh net O around)
  unfolding handle_refresh
  handle_refresh-Speaks =
      after-Speaks net O around (refresh_all_interactions net O around)
        (refresh_answer net O around) (refresh_all_interactions-Runs net O around)
        refresh_answer-Speaks

  send_help-Speaks :
      (args : String) (ts : List String) → Speaks net O (send_help net O around args ts)
  unfolding send_help
  send_help-Speaks args [] = search speaks
  send_help-Speaks args (t ∷ ts) = search speaks

  handle_help-Speaks : (args : String) → Speaks net O (handle_help net O around args)
  unfolding handle_help
  handle_help-Speaks args = record { speaks = λ s. (send_help-Speaks args _).speaks s }

  module _ (codec : Codec) (sealing : Sealing) (format : Shown)
      (parse_cid : String → Res String) where
    handle_basic-Speaks :
        (n args : String)
        → is_at_once n ≡ true
        → Speaks net O (handle_basic net O around codec sealing format parse_cid n args)
    unfolding handle_basic is_at_once
    handle_basic-Speaks n args =
        or_if-Speaks (n == "exit") _ _ _ (send_user_message-Speaks net O _) (
          or_if-Speaks (n == "tip-zoom") _ _ _ (handle_tip_zoom-Speaks net O around args _) (
            or_if-Speaks (n == "refresh") _ _ _ handle_refresh-Speaks (
              or_if-Speaks (n == "create-object") _ _ _
                (handle_create_object_from_args-Speaks net O around args)
                (or_if-Speaks (n == "player-inventory-list") _ _ _
                  (handle_player_inventory_list-Speaks net O around)
                  (or_if-Speaks (n == "location-inventory-list") _ _ _
                    (handle_location_inventory_list-Speaks net O around)
                    (or_if-Speaks (n == "create-location") _ _ _
                      (handle_create_location-Speaks net O around)
                      (or_if-Speaks (n == "connect-location") _ _ _
                        (handle_connect_location-Speaks net O around args)
                        (or_if-Speaks (n == "transfer-object") _ _ _
                          (handle_transfer_object_cmd-Speaks net O around args)
                          (or_if-Speaks (n == "help") false _ _ (handle_help-Speaks args)
                            (λ e. absurd cc))))))))))

    handle_interaction-Answered :
        (fuel : ℕ) (p g did args : String) (i : Interaction) (s : Session net O)
        → is_plain (interaction_command p i g did) ≡ true
        → Answered net O s (handle_interaction net O around codec sealing format fuel did args i s)
    unfolding handle_interaction is_plain
    handle_interaction-Answered zero p g did args i s h = λ s' e. absurd cc
    handle_interaction-Answered (suc n) p g did args (respond _ r _) s h =
        Speaks-Answered net O _ (send_user_message-Speaks net O _) s
    handle_interaction-Answered (suc n) p g did args build_portal_interaction s h = absurd cc
    handle_interaction-Answered (suc n) p g did args delete_portal_interaction s h = absurd cc
    handle_interaction-Answered (suc n) p g did args (change_location _ to _) s h =
        Speaks-Answered net O _ (handle_change_location-Speaks net O around to) s
    handle_interaction-Answered (suc n) p g did args (change_named_location _ name _) s h =
        Speaks-Answered net O _ (handle_change_named_location-Speaks net O around name) s
    handle_interaction-Answered (suc n) p g did args (drop_object _ object_did _) s h =
        Speaks-Answered net O _ (handle_drop_object-Speaks net O around did object_did) s
    handle_interaction-Answered (suc n) p g did args (pick_up_object _ object_did _) s h =
        (handle_pick_up_object-Waited net O around object_did).answered s
    handle_interaction-Answered (suc n) p g did args (get_tree_value _ tree_did path _) s h =
        Speaks-Answered net O _ (handle_get_tree_value-Speaks net O around format tree_did path) s
    handle_interaction-Answered (suc n) p g did args (set_tree_value _ tree_did path multiple _) s
          h =
        Speaks-Answered net O _
          (handle_set_tree_value-Speaks net O around multiple tree_did path args) s
    handle_interaction-Answered (suc n) p g did args look_around_interaction s h =
        Speaks-Answered net O _ (handle_location_inventory_list-Speaks net O around) s
    handle_interaction-Answered (suc n) p g did args (create_object _ name description _ with) s h =
        Speaks-Answered net O _ (handle_create_object_request-Speaks net O around _) s
    handle_interaction-Answered (suc n) p g did args (cipher _ _ _ _) s h = absurd cc
    handle_interaction-Answered (suc n) p g did args (chained _ _ _) s h = absurd cc

    or_if-Answered :
        (b c : Bool) (m n : Waits net O around) (s : Session net O)
        → Answered net O s (m s)
        → (c ≡ true → Answered net O s (n s))
        → (b || c) ≡ true
        → Answered net O s ((if b then m else n) s)
    or_if-Answered true c m n s h h' e = h
    or_if-Answered false c m n s h h' e = h' e

    handle_command-Answered :
        (fuel : ℕ) (c : Command) (args : String) (s : Session net O)
        → is_plain c ≡ true
        → Answered net O s
            (handle_command net O around codec sealing format parse_cid fuel c args s)
    unfolding handle_command is_plain is_known
    handle_command-Answered fuel (basic_command n p h g) args s known =
        or_if-Answered (n == "receive-object") (is_at_once n) _ _ s
          ((handle_receive_object_cmd-Waited net O around args).answered s)
          (λ e. Speaks-Answered net O _ (handle_basic-Speaks n args e) s) known
    handle_command-Answered fuel (interaction_command p i g did) args s plain =
        handle_interaction-Answered fuel p g did args i s plain

    told-Answered :
        (s : Session net O) (o : Option (Res (Unit {0}) × Session net O))
        → EndsWithin net O s o
        → Answered net O s o
        → Answered net O s (told net O around codec sealing format parse_cid o)
    unfolding told
    told-Answered s none r h s' e = absurd cc
    told-Answered s (some (ok _, t)) r h s' e = h s' e
    told-Answered s (some (err x, t)) r h s' e =
        let more = Speaks-Answered net O _ (send_user_message-Speaks net O _) t s' e in
        omega (arith, Reach-heard net O r, more)
    told-Answered s (some (panic, t)) r h s' e = absurd cc

    handle_found-Answered :
        (fuel : ℕ) (q : Option Command × String) (s : Session net O)
        → none_or_plain q ≡ true
        → Answered net O s (handle_found net O around codec sealing format parse_cid fuel q s)
    unfolding handle_found none_or_plain
    handle_found-Answered fuel (none, args) s h =
        Speaks-Answered net O _ (send_user_message-Speaks net O _) s
    handle_found-Answered fuel (some c, args) s h =
        told-Answered s _
          (handle_command-Ends net O around codec sealing format parse_cid fuel c args s)
          (handle_command-Answered fuel c args s h)

    -- When an input is handled without an error or a panic left, and names no command, or one that
    -- is not about a portal, holds no other interactions and, if it is no interaction, has a name
    -- that the session handles, then the user has got more messages than before.
    pub handle_user_input-Answered :
        (fuel : ℕ) (has_sender : Bool) (input : String) (s s' : Session net O)
        → none_or_plain (find_command s.commands input) ≡ true
        → handle_user_input net O around codec sealing format parse_cid fuel has_sender input s
          ≡ some (ok tt, s')
        → heard s.sent < heard s'.sent
    unfolding handle_user_input
    handle_user_input-Answered fuel has_sender input s s' plain e =
        let t = (acknowledge_receipt net O has_sender s).1 in
        let more =
          handle_found-Answered fuel (find_command t.commands input) t
            (rw (acknowledged-commands net O has_sender s) plain) s' e in
        omega (arith, Reach-heard net O ((acknowledge_receipt-Runs net O has_sender).reach s), more)
