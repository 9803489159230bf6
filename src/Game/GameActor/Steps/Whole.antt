-- ===== src/Game/GameActor/Steps/Whole.antt =====
-- A whole command of game/game.go, held interactions with it, stays within reach.
use jasons_game.Base.{
  true, false, ◌==◌, if◌then◌else◌, ℕ, zero, suc, String, refl, Bool, Option, some, none, List, [],
  ◌∷◌,
}
use jasons_game.Network.{Res, ok, err, panic, M, Network}
use jasons_game.Game.Interactions.{
  Codec, Interaction, respond, change_location, change_named_location, pick_up_object, drop_object,
  create_object, get_tree_value, set_tree_value, chained, cipher, build_portal_interaction,
  delete_portal_interaction, look_around_interaction,
}
use jasons_game.Game.Interactions.Sealed.{Sealing, interactions, unseal}
use jasons_game.Game.Commands.{Command, basic_command, interaction_command, find_command}
use jasons_game.Game.GameActor.{Session, Surroundings}
use jasons_game.Game.GameActor.Messages.{acknowledge_receipt}
use jasons_game.Game.GameActor.Places.{Shown}
use jasons_game.Game.GameActor.Refresh.{refresh_all_interactions}
use jasons_game.Game.GameActor.Interactions.{
  Fueled, at_once, after_one, run_each, run_chained, run_unsealed, handle_interaction,
}
use jasons_game.Game.GameActor.Input.{
  send_help, handle_help, refresh_answer, handle_refresh, handle_basic, handle_command, told,
  handle_found, handle_user_input,
}
use jasons_game.Game.GameActor.Steps.{
  if-Runs, here, Reach-append, Runs, by_steps, then-Runs, at_rest, send_user_message-Runs,
  acknowledge_receipt-Runs, runs,
}
use jasons_game.Game.GameActor.Steps.Refreshing.{refresh_all_interactions-Runs}
use jasons_game.Game.GameActor.Steps.Waited.{
  EndsWithin, further, handle_receive_object_cmd-Waited, handle_pick_up_object-Waited,
}
use jasons_game.Game.GameActor.Waiting.{handle_receive_object_cmd}
use jasons_game.Game.GameActor.Steps.Objects.{
  handle_player_inventory_list-Runs, handle_transfer_object_cmd-Runs, handle_drop_object-Runs,
  handle_create_object_request-Runs, handle_create_object_from_args-Runs,
}
use jasons_game.Game.GameActor.Steps.Locations.{
  handle_build_portal-Runs, handle_delete_portal-Runs, handle_tip_zoom-Runs,
  handle_change_location-Runs, handle_change_named_location-Runs, handle_set_tree_value-Runs,
  handle_get_tree_value-Runs, handle_location_inventory_list-Runs, handle_create_location-Runs,
  handle_connect_location-Runs,
}

module _ (net : Network) (O : Type 0) where
  module _ (around : Surroundings (net.World × O)) where
    refresh_answer-Runs : (r : Res (Unit {0})) → Runs net O (refresh_answer net O around r)
    unfolding refresh_answer
    refresh_answer-Runs (ok _) = search runs
    refresh_answer-Runs (err e) = search runs
    refresh_answer-Runs panic = at_rest net O (λ s. refl)

    handle_refresh-Runs : Runs net O (handle_refresh net O around)
    unfolding handle_refresh
    handle_refresh-Runs =
        then-Runs net O (refresh_all_interactions net O around) (refresh_answer net O around)
          (refresh_all_interactions-Runs net O around) refresh_answer-Runs

    send_help-Runs :
        (args : String) (ts : List String) → Runs net O (send_help net O around args ts)
    unfolding send_help
    send_help-Runs args [] = search runs
    send_help-Runs args (t ∷ ts) = search runs

    handle_help-Runs : (args : String) → Runs net O (handle_help net O around args)
    unfolding handle_help
    handle_help-Runs args = by_steps net O (λ s. (send_help-Runs args _).reach s)

    module _ (codec : Codec) (sealing : Sealing) (format : Shown)
        (parse_cid : String → Res String) where
      abbrev F : Type 0
      F = Fueled net O around codec sealing format

      abbrev Ends : F → Type 0
      Ends m = (s : Session net O) → EndsWithin net O s (m s)

      at_once-Ends :
          (m : M (Session net O) (Unit {0}))
          → Runs net O m
          → Ends (at_once net O around codec sealing format m)
      at_once-Ends m h s = h.reach s

      after_one-Ends :
          (rest : F) (s : Session net O) (q : Res (Unit {0}) × Session net O)
          → EndsWithin net O s (some q)
          → Ends rest
          → EndsWithin net O s (after_one net O around codec sealing format rest q)
      after_one-Ends rest s (ok _, t) e h = further net O e (rest t) (h t)
      after_one-Ends rest s (err x, t) e h = e
      after_one-Ends rest s (panic, t) e h = e

      after-Ends :
          (rest : F) (s : Session net O) (o : Option (Res (Unit {0}) × Session net O))
          → EndsWithin net O s o
          → Ends rest
          → EndsWithin net O s
              (elim o [ none ↦ none | some q ↦ after_one net O around codec sealing format rest q ])
      after-Ends rest s none e h = tt
      after-Ends rest s (some q) e h = after_one-Ends rest s q e h

      run_each-Ends :
          (f : Interaction → F)
          → ((i : Interaction) → Ends (f i))
          → (is : List Interaction) → Ends (run_each net O around codec sealing format f is)
      unfolding run_each
      run_each-Ends f h [] s = here
      run_each-Ends f h (i ∷ is) s =
          after-Ends (run_each net O around codec sealing format f is) s (f i s) (h i s)
            (run_each-Ends f h is)

      run_chained-Ends :
          (f : Interaction → F)
          → ((i : Interaction) → Ends (f i))
          → (r : Res (List Interaction)) → Ends (run_chained net O around codec sealing format f r)
      unfolding run_chained
      run_chained-Ends f h (ok is) s = run_each-Ends f h is s
      run_chained-Ends f h (err e) s = here
      run_chained-Ends f h panic s = here

      run_unsealed-Ends :
          (f : Interaction → F)
          → ((i : Interaction) → Ends (f i))
          → (r : Res (Interaction × Bool))
          → Ends (run_unsealed net O around codec sealing format f r)
      unfolding run_unsealed
      run_unsealed-Ends f h (ok (i, _)) s = h i s
      run_unsealed-Ends f h (err e) s = here
      run_unsealed-Ends f h panic s = here

      handle_interaction-Ends :
          (fuel : ℕ) (did args : String) (i : Interaction)
          → Ends (handle_interaction net O around codec sealing format fuel did args i)
      unfolding handle_interaction
      handle_interaction-Ends zero did args i s = tt
      handle_interaction-Ends (suc n) did args (respond _ response _) s =
          (send_user_message-Runs net O _).reach s
      handle_interaction-Ends (suc n) did args build_portal_interaction s =
          (handle_build_portal-Runs net O around args).reach s
      handle_interaction-Ends (suc n) did args delete_portal_interaction s =
          (handle_delete_portal-Runs net O around).reach s
      handle_interaction-Ends (suc n) did args (change_location _ to _) s =
          (handle_change_location-Runs net O around to).reach s
      handle_interaction-Ends (suc n) did args (change_named_location _ name _) s =
          (handle_change_named_location-Runs net O around name).reach s
      handle_interaction-Ends (suc n) did args (drop_object _ object_did _) s =
          (handle_drop_object-Runs net O around did object_did).reach s
      handle_interaction-Ends (suc n) did args (pick_up_object _ object_did _) s =
          (handle_pick_up_object-Waited net O around object_did).ends_within s
      handle_interaction-Ends (suc n) did args (get_tree_value _ tree_did path _) s =
          (handle_get_tree_value-Runs net O around format tree_did path).reach s
      handle_interaction-Ends (suc n) did args (set_tree_value _ tree_did path multiple _) s =
          (handle_set_tree_value-Runs net O around multiple tree_did path args).reach s
      handle_interaction-Ends (suc n) did args look_around_interaction s =
          (handle_location_inventory_list-Runs net O around).reach s
      handle_interaction-Ends (suc n) did args
            (create_object _ name description _ with_inscriptions) s =
          (handle_create_object_request-Runs net O around _).reach s
      handle_interaction-Ends (suc n) did args (cipher _ sealed_bytes failure_bytes _) s =
          run_unsealed-Ends _ (handle_interaction-Ends n "" args)
            (unseal codec sealing sealed_bytes failure_bytes args) s
      handle_interaction-Ends (suc n) did args (chained _ bytes _) s =
          run_chained-Ends _ (handle_interaction-Ends n "" args) (interactions codec bytes) s

      handle_basic-Runs :
          (command args : String)
          → Runs net O (handle_basic net O around codec sealing format parse_cid command args)
      unfolding handle_basic
      handle_basic-Runs command args =
          search
            (
              if-Runs, runs, handle_tip_zoom-Runs, handle_refresh-Runs,
              handle_create_object_from_args-Runs, handle_player_inventory_list-Runs,
              handle_location_inventory_list-Runs, handle_create_location-Runs,
              handle_connect_location-Runs, handle_transfer_object_cmd-Runs, handle_help-Runs,
            )
            depth 40

      if-EndsWithin : (b : Bool) (m n : F) → Ends m → Ends n → Ends (if b then m else n)
      if-EndsWithin true m n h h' = h
      if-EndsWithin false m n h h' = h'

      pub handle_command-Ends :
          (fuel : ℕ) (c : Command) (args : String)
          → Ends (handle_command net O around codec sealing format parse_cid fuel c args)
      unfolding handle_command
      handle_command-Ends fuel (basic_command n p h g) args s =
          if-EndsWithin (n == "receive-object") (handle_receive_object_cmd net O around args)
            (at_once net O around codec sealing format
              (handle_basic net O around codec sealing format parse_cid n args))
            ((handle_receive_object_cmd-Waited net O around args).ends_within)
            ((handle_basic-Runs n args).reach) s
      handle_command-Ends fuel (interaction_command p i g did) args s =
          handle_interaction-Ends fuel did args i s

      told-Ends :
          (s : Session net O) (o : Option (Res (Unit {0}) × Session net O))
          → EndsWithin net O s o
          → EndsWithin net O s (told net O around codec sealing format parse_cid o)
      unfolding told
      told-Ends s none h = tt
      told-Ends s (some (ok _, t)) h = h
      told-Ends s (some (err e, t)) h =
          Reach-append net O h ((send_user_message-Runs net O _).reach t)
      told-Ends s (some (panic, t)) h = h

      handle_found-Ends :
          (fuel : ℕ) (q : Option Command × String)
          → Ends (handle_found net O around codec sealing format parse_cid fuel q)
      unfolding handle_found
      handle_found-Ends fuel (none, args) s = (send_user_message-Runs net O _).reach s
      handle_found-Ends fuel (some c, args) s = told-Ends s _ (handle_command-Ends fuel c args s)

      pub handle_user_input-EndsWithin :
          (fuel : ℕ) (has_sender : Bool) (input : String) (s : Session net O)
          → EndsWithin net O s (
              handle_user_input net O around codec sealing format parse_cid fuel has_sender input s)
      unfolding handle_user_input
      handle_user_input-EndsWithin fuel has_sender input s =
          let t = (acknowledge_receipt net O has_sender s).1 in
          further net O ((acknowledge_receipt-Runs net O has_sender).reach s) _
            (handle_found-Ends fuel (find_command t.commands input) t)
