-- ===== src/Handlers/Composite.antt =====
-- handlers/composite_handler.go: handlers grouped by the names of the messages that they support.
pub mod Dispatch
use jasons_game.Base.{
  String, Bool, not, Option, none, some, List, [], ◌∷◌, ◌++◌, map, lookup, insert, if◌then◌else◌,
}
use jasons_game.Network.{
  M, Message, message_name, unsupported_message_type, pure, fail, ◌>>=◌, ◌>>◌,
}
use jasons_game.Handlers.Core.{Handler, contains}

abbrev pub Groups : Type 0 → Type 0
Groups W = List (String × List (Handler W))

module _ {W : Type 0} where
  -- `handlerByMessageType[msgType]`, nil if there is none
  abbrev pub group : String → Groups W → List (Handler W)
  group t groups = elim (lookup t groups) [ none ↦ [] | some hs ↦ hs ]

  -- the inner loop of `NewCompositeHandler`, over the messages of one handler
  add_handler : Handler W → List String → Groups W → Groups W
  add_handler h [] groups = groups
  add_handler h (t ∷ types) groups =
      add_handler h types (insert t (group t groups ++ h ∷ []) groups)

  -- the outer loop
  add_handlers : List (Handler W) → Groups W → Groups W
  unfolding add_handler
  add_handlers [] groups = groups
  add_handlers (h ∷ hs) groups = add_handlers hs (add_handler h h.supported_messages groups)

  abbrev keys : Groups W → List String
  keys [] = []
  keys ((t, hs) ∷ groups) = t ∷ keys groups

  -- the loop of `Handle`: the first error ends it
  pub run_all : List (Handler W) → Message → M W (Unit {0})
  run_all [] msg = pure tt
  run_all (h ∷ hs) msg = do h.handle msg; run_all hs msg

  unfoldable pub new_composite_handler : List (Handler W) → Handler W
  unfolding add_handlers run_all
  new_composite_handler handler_list =
      let by_message_type = add_handlers handler_list [] in
      let messages = keys by_message_type in
      record {
        handle = λ msg.
            if not (contains messages msg)
            then fail unsupported_message_type
            else run_all (group (message_name msg) by_message_type) msg;
        supports = λ msg. contains messages msg;
        supported_messages = messages;
      }
