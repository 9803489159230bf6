-- ===== src/Handlers/Remote.antt =====
-- handlers/remote_handler.go: the handler that a chaintree names, reached by a message to its topic.
use jasons_game.Base.{◌≡◌, refl, String, not, Option, none, some, List, [], ◌∷◌, if◌then◌else◌}
use jasons_game.Network.{
  Value, null, text, bool, number, list, object, link, elements, Res, ok, err, panic, M, Message,
  unsupported_message_type, pure, fail, lift, ◌>>=◌, Network, resolve_at, fetch,
}
use jasons_game.Handlers.Core.{Handler, contains}

abbrev pub handler_path : String
handler_path = "jasons-game-handler"

pub record RemoteHandler : Type 0 where
  pub did : String
  pub supported : List String

-- Community.TopicFor
abbrev pub topic_for : String → String
topic_for str = str

-- `supportedMessages[i] = typeString.(string)`
unfoldable pub texts_of : List Value → Res (List String)
texts_of [] = ok []
texts_of (text t ∷ rest) =
    let others = texts_of rest in
    elim others [ ok ts ↦ ok (t ∷ ts) | err e ↦ err e | panic ↦ panic ]
texts_of (null ∷ rest) = panic
texts_of (bool _ ∷ rest) = panic
texts_of (number _ ∷ rest) = panic
texts_of (list _ ∷ rest) = panic
texts_of (object _ ∷ rest) = panic
texts_of (link _ ∷ rest) = panic

-- nil is the empty list; what is no list fails the type assertion
unfoldable pub supported_of : Value → Res (List String)
unfolding texts_of
supported_of null = ok []
supported_of (list vs) = texts_of (elements vs)
supported_of (text _) = panic
supported_of (bool _) = panic
supported_of (number _) = panic
supported_of (object _) = panic
supported_of (link _) = panic

-- the did of a handler, or nil
unfoldable pub did_of : Value → Res (Option String)
did_of null = ok none
did_of (text did) = ok (some did)
did_of (bool _) = panic
did_of (number _) = panic
did_of (list _) = panic
did_of (object _) = panic
did_of (link _) = panic

module _ (net : Network) where
  open net use {World, send}

  unfoldable pub remote_handle : RemoteHandler → Message → M World (Unit {0})
  remote_handle h msg =
      if not (contains h.supported msg)
      then fail unsupported_message_type
      else send (topic_for h.did) msg

  unfoldable pub as_handler : RemoteHandler → Handler World
  unfolding remote_handle
  as_handler h = record {
    handle = remote_handle h;
    supports = contains h.supported;
    supported_messages = h.supported;
  }

  unfoldable pub get_remote_handler : String → M World RemoteHandler
  unfolding supported_of
  get_remote_handler handler_did = do
    handler_tree ← fetch net handler_did
    supports ←
        resolve_at net handler_tree ("tree" ∷ "data" ∷ "jasons-game" ∷ "handler" ∷ "supports" ∷ [])
    supported ← lift (supported_of supports)
    pure (record { did = handler_did; supported = supported })

  unfoldable pub handler_named : Option String → M World (Option RemoteHandler)
  handler_named none = pure none
  handler_named (some handler_did) = do h ← get_remote_handler handler_did; pure (some h)

  unfoldable pub find_handler_for_tree : String → M World (Option RemoteHandler)
  unfolding did_of handler_named
  find_handler_for_tree did = do
    tree ← fetch net did
    value ← resolve_at net tree ("tree" ∷ "data" ∷ handler_path ∷ [])
    handler_did ← lift (did_of value)
    handler_named handler_did

  -- The handler that the tree of a did names.
  pub find_handler_named :
      (did handler_did : String) (t : net.Tree) (w : World)
      → net.get_tree did w ≡ ok (some t)
      → net.resolve t ("tree" ∷ "data" ∷ handler_path ∷ []) ≡ ok (text handler_did)
      → find_handler_for_tree did w ≡ (get_remote_handler handler_did >>= λ h. pure (some h)) w
  unfolding find_handler_for_tree
  find_handler_named did handler_did t w e r = rw e (rw r refl)
