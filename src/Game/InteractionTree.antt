-- ===== src/Game/InteractionTree.antt =====
-- game/interaction_tree.go: a chaintree of which only the interactions are of use. Its errors are
-- those of a location.
use jasons_game.Base.{Option, List}
use jasons_game.Network.{M, Network}
use jasons_game.Game.Interactions.{Codec, Interaction}
use jasons_game.Game.Interactions.Tree.{
  UpdatableTree, add_interaction_to_tree, interactions_list_from_tree,
}
use jasons_game.Game.TreePaths.{paths_of}

abbrev pub InteractionTree : Network → Type 0
InteractionTree net = Option net.Tree

module _ (net : Network) (codec : Codec) where
  open net use {World}

  abbrev pub interaction_paths : UpdatableTree World (InteractionTree net)
  interaction_paths = paths_of net "error resolving on location"

  abbrev pub add_interaction : InteractionTree net → Interaction → M World (InteractionTree net)
  add_interaction = add_interaction_to_tree codec interaction_paths

  abbrev pub interactions_list : InteractionTree net → M World (List (Option Interaction))
  interactions_list = interactions_list_from_tree codec interaction_paths
