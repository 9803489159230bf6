-- ===== src/Samples/Witnesses/Playing.antt =====
-- A session: its inputs, and the commands that it offers.
use jasons_game.Game.GameActor.Refresh.{or_dies}
use jasons_game.Game.GameActor.Refresh.{interaction_commands_for}
use jasons_game.Game.GameActor.Refresh.{commands_for}
use jasons_game.Game.GameActor.Refresh.{left_out}
use jasons_game.Game.GameActor.Refresh.{home_did}
use jasons_game.Game.GameActor.Refresh.{set_location}
use jasons_game.Game.GameActor.Refresh.{replace_interactions_for}
use jasons_game.Game.GameActor.Refresh.{cache}
use jasons_game.Game.GameActor.Refresh.{cached}
use jasons_game.Game.GameActor.Refresh.{command_for}
use jasons_game.Game.GameActor.Refresh.{forget_commands}
use jasons_game.Game.GameActor.Refresh.{offer}
use jasons_game.Game.GameActor.Refresh.{responses_of}
use jasons_game.Game.GameActor.Refresh.{spawn_at}
use jasons_game.Game.GameActor.Refresh.{stop_old}
use jasons_game.Game.GameActor.Refresh.{store_location}
use jasons_game.Game.GameActor.Refresh.{with_home}
use jasons_game.Game.GameActor.Refresh.{unless_home}
use jasons_game.Game.GameActor.Messages.{set_commands}
use jasons_game.Game.GameActor.Messages.{get_current_location}
use jasons_game.Game.GameActor.Messages.{format_user_message}
use jasons_game.Game.GameActor.Messages.{location_of}
use jasons_game.Game.GameActor.Messages.{post}
use jasons_game.Game.GameActor.Messages.{send_command_update}
use jasons_game.Game.GameActor.Places.{static_or_empty}
use jasons_game.Game.GameActor.Start.{get_default_location}
use jasons_game.Game.GameActor.Start.{start_or_home}
use jasons_game.Game.GameActor.Start.{tell_flash}
use jasons_game.Game.GameActor.{on_net, doing, location_pid, pid_or_panic}
use jasons_game.Game.Static.{get_static, value_text, value_under}
use jasons_game.Game.Interactions.{get_command}
use jasons_game.Game.GameActor.{asking}
use jasons_game.Game.GameActor.Messages.{get_inventory_list}
use jasons_game.Game.GameActor.{this}
use jasons_game.Game.GameActor.Inventories.{handle_player_inventory_list}
use jasons_game.Game.GameActor.Messages.{send_user_message}
use jasons_game.Game.Interactions.{interaction_from_bytes}
use jasons_game.Game.Interactions.Sealed.{interactions}
use jasons_game.Game.GameActor.Interactions.{handle_interaction}
use jasons_game.Game.Commands.{parse}
use jasons_game.Game.GameActor.Messages.{acknowledge_receipt}
use jasons_game.Base.{[], arith, ℕ, ◌<◌, String, ◌≡◌, refl, true, Option, some, none}
use jasons_game.Network.{Res, ok, err, message}
use jasons_game.Game.Commands.{find_command}
use jasons_game.Game.GameActor.{Session, Surroundings, reply}
use jasons_game.Game.GameActor.Input.{handle_user_input}
use jasons_game.Game.GameActor.Input.Answers.{none_or_plain, handle_user_input-Answered}
use jasons_game.Game.GameActor.Input.Terminates.{found_size, handle_user_input-Returns}
use jasons_game.Game.GameActor.Interactions.Terminates.{Returns}
use jasons_game.Game.GameActor.Refresh.{refresh_interactions_for}
use jasons_game.Game.GameActor.Refresh.Offered.{Refreshed, refresh_interactions_for-Refreshed}
use jasons_game.Game.GameActor.Steps.Numbered.{
  IsNumbered, last_update, IsInStep, receive_game-IsInStep,
}
use jasons_game.Game.GameActor.Start.{initialize_game, user_input, receive_game}
use jasons_game.Game.GameActor.Steps.Spoken.{heard}
use jasons_game.Samples.Chain.{Store, sample}
use jasons_game.Samples.Codecs.{sample_sealing}
use jasons_game.Game.GameActor.Steps.Started.{initialize_game-IsInStep}
use jasons_game.Samples.Scenes.{store, your_tree}
use jasons_game.Samples.Sessions.{holding_codec, holding_laws, around, session, plainly, responses}

abbrev no_tips : String → Res String
no_tips s = err (message "no tip")

abbrev ended : Option (Res (Unit {0}) × Session sample ℕ) → Session sample ℕ
ended none = session
ended (some (r, s)) = s

abbrev typed : String → Option (Res (Unit {0}) × Session sample ℕ)
typed input =
    handle_user_input sample ℕ around holding_codec sample_sealing plainly no_tips 100 true input
      session

in_step : IsInStep sample ℕ session
unfolding IsNumbered last_update
in_step = record { numbered = tt; updated = refl }

greeted :
    receive_game sample ℕ around holding_codec sample_sealing plainly no_tips 100
      (user_input true "greet")
      session
    ≡ some (ok tt, ended (typed "greet"))
unfolding receive_game handle_user_input find_command acknowledge_receipt parse handle_interaction
    interactions interaction_from_bytes send_user_message
greeted = refl

receive_game-IsInStep_example : IsInStep sample ℕ (ended (typed "greet"))
receive_game-IsInStep_example =
    receive_game-IsInStep sample ℕ around holding_codec sample_sealing plainly no_tips 100
      (user_input true "greet") session (ended (typed "greet")) (ok tt) greeted in_step

small_enough : found_size (find_command session.commands "greet") < 100
unfolding find_command parse
small_enough = omega arith

handle_user_input-Returns_example :
    Returns sample ℕ around holding_codec sample_sealing plainly (typed "greet")
handle_user_input-Returns_example =
    handle_user_input-Returns sample ℕ around holding_codec sample_sealing plainly no_tips
      holding_laws (λ did w. (_, refl)) 100 true "greet" session small_enough

bag_is_plain : none_or_plain (find_command session.commands "look in bag") ≡ true
unfolding none_or_plain find_command parse
bag_is_plain = refl

looked : typed "look in bag" ≡ some (ok tt, ended (typed "look in bag"))
unfolding handle_user_input find_command acknowledge_receipt parse handle_player_inventory_list this
    get_inventory_list asking send_user_message
looked = refl

handle_user_input-Answered_example : heard session.sent < heard (ended (typed "look in bag")).sent
handle_user_input-Answered_example =
    handle_user_input-Answered sample ℕ around holding_codec sample_sealing plainly no_tips 100 true
      "look in bag" session (ended (typed "look in bag")) bag_is_plain looked

refresh_interactions_for-Refreshed_example :
    Refreshed sample ℕ around 5 responses your_tree session
      (refresh_interactions_for sample ℕ around 5 session)
refresh_interactions_for-Refreshed_example =
    refresh_interactions_for-Refreshed sample ℕ around 5 session responses your_tree store 0
      (λ e m. (λ k. k, λ k. k)) refl refl ((_, refl), ((_, refl), tt))

-- the meadow's actor answers
abbrev seen : Surroundings (Store × ℕ)
seen = record around {
  get_location = λ pid w. (
    ok (
        reply
          (record { did = "did:meadow"; tip = "tip"; description = "a meadow"; portal = none })),
    w,
  );
}

abbrev new_session : Session sample ℕ
new_session = record session {
  sent = [];
  commands = [];
  location_actor = none;
  location_did = "";
  commands_by_actor = [];
}

nothing_sent : IsNumbered new_session.sent new_session.message_sequence
unfolding IsNumbered
nothing_sent = tt

started : (initialize_game sample ℕ seen new_session).0 ≡ ok tt
unfolding initialize_game this refresh_interactions_for asking send_user_message parse or_dies
    interaction_commands_for commands_for left_out home_did set_location replace_interactions_for
    cache cached command_for forget_commands offer responses_of spawn_at stop_old store_location
    with_home unless_home set_commands get_current_location format_user_message location_of post
    send_command_update static_or_empty get_default_location start_or_home tell_flash on_net doing
    location_pid pid_or_panic get_static value_text value_under get_command
started = refl

initialize_game-IsInStep_example : IsInStep sample ℕ (initialize_game sample ℕ seen new_session).1
initialize_game-IsInStep_example =
    initialize_game-IsInStep sample ℕ seen new_session nothing_sent started
