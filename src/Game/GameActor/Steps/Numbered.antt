-- ===== src/Game/GameActor/Steps/Numbered.antt =====
-- game/game.go: the numbers of what is sent to the user, and the commands that the user was told last.
use jasons_game.Base.{ℕ, ◌+◌, ◌%◌, String, ◌≡◌, refl, subst, Option, some, none, List, [], ◌∷◌, map}
use jasons_game.Network.{Res, Network}
use jasons_game.Game.Interactions.{Codec}
use jasons_game.Game.Interactions.Sealed.{Sealing}
use jasons_game.Game.Commands.{parse}
use jasons_game.Game.GameActor.{
  Session, Sent, command_received, message_to_user, command_update, Surroundings, uint64,
}
use jasons_game.Game.GameActor.Places.{Shown}
use jasons_game.Game.GameActor.Messages.{send_command_update}
use jasons_game.Game.GameActor.Start.{
  GameMessage, user_input, command_update_request, state_change, terminated, receive_game,
}
use jasons_game.Game.GameActor.Steps.{Step, told, acknowledged, offered, unseen, Reach, here, next}
use jasons_game.Game.GameActor.Steps.Refreshing.{handle_state_change-Runs}
use jasons_game.Game.GameActor.Steps.Waited.{EndsWithin}
use jasons_game.Game.GameActor.Steps.Whole.{handle_user_input-EndsWithin}

-- Of what was sent, the latest first, each numbered message has the number after that of the one
-- before it, and `n` is the number after the last.
unfoldable pub IsNumbered : List Sent → ℕ → Type 0
IsNumbered [] n = Unit
IsNumbered (message_to_user text l k ∷ before) n = (n ≡ (k + 1) % uint64) × IsNumbered before k
IsNumbered (command_received k ∷ before) n = (n ≡ (k + 1) % uint64) × IsNumbered before k
IsNumbered (command_update cs ∷ before) n = IsNumbered before n

-- the last update of the commands
unfoldable pub last_update : List Sent → Option (List String)
last_update [] = none
last_update (message_to_user text l k ∷ before) = last_update before
last_update (command_received k ∷ before) = last_update before
last_update (command_update cs ∷ before) = some cs

module _ (net : Network) (O : Type 0) where
  -- The messages are numbered one by one, and the user was told the commands that the session knows.
  pub record IsInStep (s : Session net O) : Type 0 where
    pub numbered : IsNumbered s.sent s.message_sequence
    pub updated : last_update s.sent ≡ some (map parse s.commands)

  Step-IsNumbered :
      {s t : Session net O}
      → Step net O s t
      → IsNumbered s.sent s.message_sequence
      → IsNumbered t.sent t.message_sequence
  unfolding IsNumbered
  Step-IsNumbered (told text l sent sequence cs) h = rw sent (sequence, h)
  Step-IsNumbered (acknowledged sent sequence cs) h = rw sent (sequence, h)
  Step-IsNumbered (offered cs sent sequence same) h = rw sent (rw sequence h)
  Step-IsNumbered (unseen sent sequence cs) h = rw sent (rw sequence h)

  Step-updated :
      {s t : Session net O}
      → Step net O s t
      → last_update s.sent ≡ some (map parse s.commands)
      → last_update t.sent ≡ some (map parse t.commands)
  unfolding last_update
  Step-updated (told text l sent sequence cs) h = rw sent (rw cs h)
  Step-updated (acknowledged sent sequence cs) h = rw sent (rw cs h)
  Step-updated (offered cs sent sequence same) h = rw sent (rw same refl)
  Step-updated (unseen sent sequence cs) h = rw sent (rw cs h)

  pub Reach-IsNumbered :
      {s t : Session net O}
      → Reach net O s t
      → IsNumbered s.sent s.message_sequence
      → IsNumbered t.sent t.message_sequence
  Reach-IsNumbered here h = h
  Reach-IsNumbered (next r st) h = Step-IsNumbered st (Reach-IsNumbered r h)

  pub Reach-updated :
      {s t : Session net O}
      → Reach net O s t
      → last_update s.sent ≡ some (map parse s.commands)
      → last_update t.sent ≡ some (map parse t.commands)
  Reach-updated here h = h
  Reach-updated (next r st) h = Step-updated st (Reach-updated r h)

  Reach-IsInStep : {s t : Session net O} → Reach net O s t → IsInStep s → IsInStep t
  Reach-IsInStep r h = record {
    numbered = Reach-IsNumbered r (h.numbered);
    updated = Reach-updated r (h.updated);
  }

  module _ (around : Surroundings (net.World × O)) where
    module _ (codec : Codec) (sealing : Sealing) (format : Shown)
        (parse_cid : String → Res String) where
      receive_game-EndsWithin :
          (fuel : ℕ) (m : GameMessage) (s : Session net O)
          → EndsWithin net O s (receive_game net O around codec sealing format parse_cid fuel m s)
      unfolding receive_game send_command_update
      receive_game-EndsWithin fuel (user_input has_sender input) s =
          handle_user_input-EndsWithin net O around codec sealing format parse_cid fuel has_sender
            input s
      receive_game-EndsWithin fuel command_update_request s =
          next here (offered s.commands refl refl refl)
      receive_game-EndsWithin fuel (state_change pid) s =
          (handle_state_change-Runs net O around pid).reach s
      receive_game-EndsWithin fuel terminated s = here

      -- Whatever message the actor of a session takes and ends with, in success, error or panic,
      -- from a session whose messages to the user and receipts are numbered one by one modulo 2^64,
      -- with the session's number after the last of them, and whose user was told last exactly the
      -- commands that the session knows, the session after it is such a session as well.
      pub receive_game-IsInStep :
          (fuel : ℕ) (m : GameMessage) (s s' : Session net O) (r : Res (Unit {0}))
          → receive_game net O around codec sealing format parse_cid fuel m s ≡ some (r, s')
          → IsInStep s
          → IsInStep s'
      receive_game-IsInStep fuel m s s' r e =
          Reach-IsInStep (subst (λ o. EndsWithin net O s o) e (receive_game-EndsWithin fuel m s))
