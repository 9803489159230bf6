-- ===== src/Game/GameActor/Start.antt =====
-- game/game.go: the start of a game, and the messages that its actor takes. The cache of a remote
-- network is not loaded here, and the actor of the player's inventory is that of the session.
use jasons_game.Base.{ℕ, String, Bool, some, none, ◌<>◌, ◌==◌, if◌then◌else◌}
use jasons_game.Network.{Res, ok, M, pure, ◌>>=◌, ◌>>◌, Network}
use jasons_game.Game.Interactions.{Codec}
use jasons_game.Game.Interactions.Sealed.{Sealing}
use jasons_game.Game.GameActor.{Session, Surroundings, this}
use jasons_game.Game.GameActor.Messages.{
  say, send_user_message, place, get_current_location, send_command_update,
}
use jasons_game.Game.GameActor.Refresh.{
  home_did, or_dies, refresh_interactions_for, set_location, handle_state_change,
}
use jasons_game.Game.GameActor.Places.{Shown, static_or_empty}
use jasons_game.Game.GameActor.Interactions.{Fueled, at_once}
use jasons_game.Game.GameActor.Input.{handle_user_input}

-- What ReceiveGame takes, but for ping.
pub data GameMessage : Type 0 where
  -- has a sender, the text
  user_input : Bool → String → GameMessage
  command_update_request : GameMessage
  -- the actor
  state_change : ℕ → GameMessage
  -- messages that are logged only
  terminated : GameMessage

module _ (net : Network) (O : Type 0) (around : Surroundings (net.World × O)) where
  open around use {last_location}

  unfoldable pub start_or_home : M (Session net O) String
  start_or_home = do
    loc_did ← static_or_empty net O around "ArcadiaStart"
    if loc_did == "" then home_did net O around else pure loc_did

  -- a last location that is stored is taken even if it is empty
  unfoldable pub get_default_location : M (Session net O) String
  unfolding start_or_home
  get_default_location s = elim (last_location (s.world, s.others)) [
    | some did ↦ pure did s
    | none ↦ start_or_home s
  ]

  unfoldable pub tell_flash : String → M (Session net O) (Unit {0})
  tell_flash flash = if flash == "" then pure tt else say net O flash

  unfoldable pub initialize_game : M (Session net O) (Unit {0})
  unfolding get_default_location tell_flash
  initialize_game = do
    s ← this net O
    or_dies net O around (refresh_interactions_for net O around s.inventory_actor)
    did ← get_default_location
    set_location net O around did
    t ← this net O
    say net O ("Welcome Player " <> t.player_tree.did)
    flash ← static_or_empty net O around "FlashMessage"
    tell_flash flash
    l ← or_dies net O around (get_current_location net O around)
    send_user_message net O (place (some l))

  module _ (codec : Codec) (sealing : Sealing) (format : Shown)
      (parse_cid : String → Res String) where
    -- ReceiveGame
    unfoldable pub receive_game : ℕ → GameMessage → Fueled net O around codec sealing format
    receive_game fuel (user_input has_sender input) s =
        handle_user_input net O around codec sealing format parse_cid fuel has_sender input s
    receive_game fuel command_update_request s =
        at_once net O around codec sealing format (send_command_update net O) s
    receive_game fuel (state_change pid) s =
        at_once net O around codec sealing format (handle_state_change net O around pid) s
    receive_game fuel terminated s = some (ok tt, s)
