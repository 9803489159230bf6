-- ===== src/Network/Api.antt =====
-- The interface `Network` of network/network.go, with what the game uses of the chaintrees behind
-- it. Implementations, the consensus library and the other players stand behind it.
use jasons_game.Base.{ℕ, String, Bool, Option, List}
use jasons_game.Network.Data.{Value}
use jasons_game.Network.Effects.{Res, M, deref, reads, lift, ◌>>=◌}
use jasons_game.Network.Messages.{Message}

pub record Network : Type 1 where
  -- the stores, the other peers, what was sent
  pub World : Type 0
  -- *consensus.SignedChainTree: its content as the handle last saw it
  pub Tree : Type 0
  pub must_id : Tree → String
  pub tip : Tree → String
  -- ChainTree.Dag.Resolve, without the remaining path
  pub resolve : Tree → List String → Res Value
  pub authentications : Tree → Res (List String)
  -- chaintree.At: the tree as it was at a tip; the empty text is cid.Undef
  pub at : Tree → String → Res Tree
  -- the height in the root node, by Dag.ResolveInto
  pub root_height : Tree → Res ℕ
  -- typecaster.ToType into a Transaction: does it have a SetOwnershipPayload?
  pub sets_ownership : Value → Res Bool
  -- consensus.DecodePath
  pub decode_path : String → Res (List String)
  -- strings.Split("tree/"+consensus.TreePathForAuthentications, "/")
  pub authentications_path : List String
  -- crypto.PubkeyToAddress(*net.PublicKey()).String()
  pub public_addr : String
  -- the order in which this run ranges over a map[string]string
  pub range : List (String × String) → List (String × String)
  pub get_tree : String → World → Res (Option Tree)
  -- the tree as it was at a tip, or what the network has for that tip
  pub get_tree_by_tip : String → World → Res (Option Tree)
  pub get_chain_tree_by_name : String → World → Res (Option Tree)
  pub find_or_create_passphrase_tree : String → World → Res Tree × World
  pub create_local_chain_tree : String → World → Res Tree × World
  pub create_chain_tree : World → Res Tree × World
  pub update_chain_tree : Tree → String → Value → World → Res Tree × World
  -- PlayTransactions of transactions that set data
  pub play_set_data : Tree → List (String × Value) → World → Res Tree × World
  pub change_chain_tree_owner : Tree → List String → World → Res Tree × World
  -- TreeStore().UpdateTreeMetadata(tree)
  pub update_tree_metadata : Tree → World → Res (Unit {0}) × World
  -- Community().Send(topic, msg)
  pub send : String → Message → World → Res (Unit {0}) × World
  -- the two futures of a transfer: the subscription to the object is set up, and its state changes
  pub subscribed : String → World → Res (Unit {0}) × World
  pub confirmed : String → World → Res (Unit {0}) × World

module _ (net : Network) where
  open net use {World, Tree, resolve, get_tree}

  -- A method call on a tree that may be nil.
  abbrev pub resolve_at : Option Tree → List String → M World Value
  resolve_at tree path = do t ← deref tree; reads (λ _. resolve t path)

  abbrev pub fetch : String → M World (Option Tree)
  fetch did = reads (get_tree did)

  -- Authentications of a tree that may be nil.
  abbrev pub auths_at : Option Tree → M World (List String)
  auths_at tree = do t ← deref tree; lift (net.authentications t)
