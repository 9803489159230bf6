-- ===== src/Network/Messages.antt =====
-- pb/jasonsgame.proto: the messages by which inventories hand objects over. Any other protobuf
-- message is known by its name alone.
use jasons_game.Base.{String}

pub record RequestObjectTransfer : Type 0 where
  pub from : String
  pub to : String
  pub object_did : String

pub record TransferredObject : Type 0 where
  pub from : String
  pub to : String
  pub object_did : String
  pub message_text : String
  pub error_text : String

pub data Message : Type 0 where
  request_object_transfer : RequestObjectTransfer → Message
  transferred_object : TransferredObject → Message
  other : String → Message

-- proto.MessageName
abbrev pub message_name : Message → String
message_name (request_object_transfer _) = "jasonsgame.RequestObjectTransferMessage"
message_name (transferred_object _) = "jasonsgame.TransferredObjectMessage"
message_name (other name) = name
