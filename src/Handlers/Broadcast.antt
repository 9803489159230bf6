-- ===== src/Handlers/Broadcast.antt =====
-- handlers/broadcast/topic_broadcast.go: every message goes to one topic.
use jasons_game.Base.{String, true, []}
use jasons_game.Network.{Network}
use jasons_game.Handlers.Core.{Handler}

module _ (net : Network) where
  open net use {World, send}

  unfoldable pub new_topic_broadcast_handler : String → Handler World
  new_topic_broadcast_handler topic = record {
    handle = λ msg. send topic msg;
    supports = λ msg. true;
    supported_messages = [];
  }
