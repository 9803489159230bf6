-- ===== src/Handlers/Core.antt =====
-- handlers/handler.go, handlers/handler_message_list.go and handlers/noop_handler.go.
use jasons_game.Base.{
  String, ◌≡◌, refl, Bool, true, false, List, [], ◌∷◌, has, arith, ◌==◌, if◌then◌else◌,
}
use jasons_game.Network.{M, Message, message_name, unsupported_message_type, fail}

-- The interface `Handler`; `W` is the world in which it acts.
pub record Handler (W : Type 0) : Type 0 where
  pub handle : Message → M W (Unit {0})
  pub supports : Message → Bool
  pub supported_messages : List String

-- HandlerMessageList.ContainsType
unfoldable pub contains_type : List String → String → Bool
contains_type [] msg_type = false
contains_type (msg ∷ l) msg_type = if msg == msg_type then true else contains_type l msg_type

-- HandlerMessageList.Contains
abbrev pub contains : List String → Message → Bool
contains l msg = contains_type l (message_name msg)

unfoldable pub noop_handler : {W : Type 0} → Handler W
noop_handler = record {
  handle = λ msg. fail unsupported_message_type;
  supports = λ msg. false;
  supported_messages = [];
}

pub contains_type-has : (l : List String) (t : String) → contains_type l t ≡ has t l
unfolding contains_type
contains_type-has [] t = refl
contains_type-has (m ∷ l) t = ground (arith, contains_type-has l t)

-- No message name stands twice.
abbrev pub IsDistinct : List String → Type 0
IsDistinct [] = Unit
IsDistinct (m ∷ l) = (has m l ≡ false) × IsDistinct l
