-- ===== src/Game/GameActor/Input/Terminates.antt =====
-- game/game.go: handleUserInput comes to an end.
use jasons_game.Base.{
  ◌==◌, if◌then◌else◌, ℕ, ◌<◌, String, ◌≡◌, refl, Bool, true, false, Option, some, none,
}
use jasons_game.Network.{Res, ok, err, panic, Network}
use jasons_game.Game.Interactions.{Codec}
use jasons_game.Game.Interactions.Sealed.{Sealing}
use jasons_game.Game.Interactions.Sealed.Sizes.{held_size, SizeLaws}
use jasons_game.Game.Commands.{Command, basic_command, interaction_command, find_command}
use jasons_game.Game.GameActor.{Session, Surroundings}
use jasons_game.Game.GameActor.Messages.{acknowledge_receipt}
use jasons_game.Game.GameActor.Waiting.{Waits, handle_receive_object_cmd}
use jasons_game.Game.GameActor.Steps.Waited.{EventsCome, handle_receive_object_cmd-Waited}
use jasons_game.Game.GameActor.Places.{Shown}
use jasons_game.Game.GameActor.Interactions.Terminates.{Returns, handle_interaction-Returns}
use jasons_game.Game.GameActor.Input.{handle_command, told, handle_found, handle_user_input}

-- The length of the bytes that the command holds interactions in.
abbrev pub command_size : Command → ℕ
command_size (basic_command n p h g) = 0
command_size (interaction_command p i g did) = held_size i

abbrev pub found_size : Option Command × String → ℕ
found_size (none, args) = 0
found_size (some c, args) = command_size c

module _ (net : Network) (O : Type 0) where
  pub acknowledged-commands :
      (b : Bool) (s : Session net O) → (acknowledge_receipt net O b s).1.commands ≡ s.commands
  unfolding acknowledge_receipt
  acknowledged-commands true s = refl
  acknowledged-commands false s = refl

module _ (net : Network) (O : Type 0) (around : Surroundings (net.World × O)) (codec : Codec)
    (sealing : Sealing) (format : Shown) (parse_cid : String → Res String)
    (laws : SizeLaws codec sealing) (come : EventsCome net O around) where
  abbrev Ends : Option (Res (Unit {0}) × Session net O) → Type 0
  Ends = Returns net O around codec sealing format

  told-Returns :
      (o : Option (Res (Unit {0}) × Session net O))
      → Ends o
      → Ends (told net O around codec sealing format parse_cid o)
  unfolding told
  told-Returns none (q, e) = absurd cc
  told-Returns (some (ok _, s)) h = (_, refl)
  told-Returns (some (err e, s)) h = (_, refl)
  told-Returns (some (panic, s)) h = (_, refl)

  if-Ends :
      (b : Bool) (m n : Waits net O around) (s : Session net O)
      → Ends (m s)
      → Ends (n s)
      → Ends ((if b then m else n) s)
  if-Ends true m n s h h' = h
  if-Ends false m n s h h' = h'

  handle_command-Returns :
      (fuel : ℕ) (c : Command) (args : String) (s : Session net O)
      → command_size c < fuel
      → Ends (handle_command net O around codec sealing format parse_cid fuel c args s)
  unfolding handle_command
  handle_command-Returns fuel (basic_command n p h g) args s below =
      if-Ends (n == "receive-object") (handle_receive_object_cmd net O around args) _ s
        ((handle_receive_object_cmd-Waited net O around args).ends come s) (_, refl)
  handle_command-Returns fuel (interaction_command p i g did) args s below =
      handle_interaction-Returns net O around codec sealing format laws come fuel did args i s below

  handle_found-Returns :
      (fuel : ℕ) (q : Option Command × String) (s : Session net O)
      → found_size q < fuel
      → Ends (handle_found net O around codec sealing format parse_cid fuel q s)
  unfolding handle_found
  handle_found-Returns fuel (none, args) s below = (_, refl)
  handle_found-Returns fuel (some c, args) s below =
      told-Returns _ (handle_command-Returns fuel c args s below)

  -- Where a decoded value has shorter texts than the bytes it was decoded from, an interaction
  -- holds no longer bytes than the texts of its value, an opened box is no longer than the box, and
  -- every event that is waited for comes, the handling of an input returns with more fuel than the
  -- bytes have that the command of the input holds other interactions in.
  pub handle_user_input-Returns :
      (fuel : ℕ) (has_sender : Bool) (input : String) (s : Session net O)
      → found_size (find_command s.commands input) < fuel
      → Returns net O around codec sealing format
          (handle_user_input net O around codec sealing format parse_cid fuel has_sender input s)
  unfolding handle_user_input
  handle_user_input-Returns fuel has_sender input s below =
      let t = (acknowledge_receipt net O has_sender s).1 in
      handle_found-Returns fuel (find_command t.commands input) t
        (rw (acknowledged-commands net O has_sender s) below)
