-- ===== src/Game/GameActor/Messages.antt =====
-- game/game.go: the messages to the user, which are numbered, and the updates of the commands.
use jasons_game.Base.{
  ℕ, ◌+◌, ◌%◌, String, Bool, true, false, ◌<>◌, Option, some, none, List, [], ◌∷◌, map,
  if◌then◌else◌, starts_with, ◌||◌,
}
use jasons_game.Network.{
  Res, ok, err, panic, Error, message, M, panics, pure, lift, ◌>>=◌, ◌>>◌, Network,
}
use jasons_game.Game.Commands.{Command, parse}
use jasons_game.Game.InventoryActor.{Response, respond_ok, respond_error, no_response}
use jasons_game.Game.LocationActor.Requests.{Location}
use jasons_game.Game.GameActor.{
  Session, command_received, message_to_user, command_update, Surroundings, Reply, failed, odd,
  reply, asking, location_pid, uint64,
}

-- strings.Join
abbrev pub join_with : String → List String → String
join_with sep [] = ""
join_with sep (s ∷ []) = s
join_with sep (s ∷ t ∷ rest) = s <> sep <> join_with sep (t ∷ rest)

-- What `sendUserMessage` is called with: the types that it knows, and an error, which it does not. A
-- location may be a nil pointer.
pub data UserMessage : Type 0 where
  plain : String → UserMessage
  lines : List String → UserMessage
  indented_list : List String → UserMessage
  place : Option Location → UserMessage
  an_error : Error → UserMessage

-- the text and the location of the message; an unknown type is logged, and the message stays empty
unfoldable pub format_user_message : UserMessage → Res (String × Option Location)
format_user_message (plain s) = ok (s, none)
format_user_message (lines ss) = ok (join_with "\n" ss, none)
format_user_message (indented_list ss) = ok (join_with "\n  > " ss, none)
format_user_message (place (some l)) = ok (l.description, some l)
format_user_message (place none) = panic
format_user_message (an_error e) = ok ("", none)

module _ (net : Network) (O : Type 0) where
  unfoldable pub post : String × Option Location → M (Session net O) (Unit {0})
  post (text, l) s = (
    ok tt,
    record s {
      sent = message_to_user text l s.message_sequence ∷ s.sent;
      message_sequence = (s.message_sequence + 1) % uint64;
    },
  )

  unfoldable pub send_user_message : UserMessage → M (Session net O) (Unit {0})
  unfolding format_user_message post
  send_user_message m = do formatted ← lift (format_user_message m); post formatted

  abbrev pub say : String → M (Session net O) (Unit {0})
  say s = send_user_message (plain s)

  -- the answer to the sender of an input, where there is one
  unfoldable pub acknowledge_receipt : Bool → M (Session net O) (Unit {0})
  acknowledge_receipt false s = (ok tt, s)
  acknowledge_receipt true s = (
    ok tt,
    record s {
      sent = command_received s.message_sequence ∷ s.sent;
      message_sequence = (s.message_sequence + 1) % uint64;
    },
  )

  unfoldable pub send_command_update : M (Session net O) (Unit {0})
  send_command_update s =
      (ok tt, record s { sent = command_update (map parse s.commands) ∷ s.sent })

  unfoldable pub set_commands : List Command → M (Session net O) (Unit {0})
  unfolding send_command_update
  set_commands new_commands s = send_command_update (record s { commands = new_commands })

  module _ (around : Surroundings (net.World × O)) where
    open around use {get_location, inventory_list}

    unfoldable pub location_of : Reply Location → Res Location
    location_of (failed e) = err e
    location_of odd = err (message "error casting location")
    location_of (reply l) = ok l

    unfoldable pub get_current_location : M (Session net O) Location
    unfolding location_of
    get_current_location = do
      pid ← location_pid net O
      r ← asking net O (get_location pid)
      lift (location_of r)

    -- After an error there is no location: its nil pointer is sent all the same.
    unfoldable pub send_location : Res Location → M (Session net O) (Unit {0})
    send_location (ok l) = send_user_message (place (some l))
    send_location (err e) = do send_user_message (an_error e); send_user_message (place none)
    send_location panic = panics

    unfoldable pub send_ui_location : M (Session net O) (Unit {0})
    unfolding send_location
    send_ui_location s = let (r, s') = get_current_location s in send_location r s'

    -- the objects of the answer: nil, and so none, where it has an error
    unfoldable pub objects_in :
        Reply (Response (List (String × String))) → Res (List (String × String))
    objects_in (failed e) = err e
    objects_in odd = err (message "error casting InventoryListResponse")
    objects_in (reply (respond_ok objects)) = ok objects
    objects_in (reply (respond_error e)) = ok []
    objects_in (reply no_response) = ok []

    unfoldable pub get_inventory_list : ℕ → M (Session net O) (List (String × String))
    unfolding objects_in
    get_inventory_list pid = do r ← asking net O (inventory_list pid); lift (objects_in r)

  unfoldable pub has_artifact : List (String × String) → Bool
  has_artifact [] = false
  has_artifact ((name, did) ∷ rest) = starts_with name "artifact-" || has_artifact rest

  unfoldable pub send_artifact_hint : List (String × String) → M (Session net O) (Unit {0})
  unfolding has_artifact
  send_artifact_hint objects = if has_artifact objects then say "-" else pure tt
