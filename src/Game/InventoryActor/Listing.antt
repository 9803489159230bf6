-- ===== src/Game/InventoryActor/Listing.antt =====
-- game/inventory.go: handleListInteractionsRequest, which gathers the interactions of all objects. Each
-- object has a goroutine of its own; the order of the answers is that of the list given, and the first
-- error in it is the answer.
use jasons_game.Base.{String, Option, List, [], ◌∷◌, ◌++◌, map}
use jasons_game.Network.{M, pure, ◌>>=◌, Network}
use jasons_game.Game.Interactions.{Codec, Interaction}
use jasons_game.Game.ObjectTree.{find_object_tree, get_name, interactions_list}
use jasons_game.Game.InventoryActor.{
  InventoryActor, Response, respond_ok, respond_error, no_response, answering, list_objects,
}

pub record InteractionResponse : Type 0 where
  pub attached_to : String
  pub attached_to_did : String
  pub interaction : Option Interaction

unfoldable pub attach : String → String → Option Interaction → InteractionResponse
attach name did i = record { attached_to = name; attached_to_did = did; interaction = i }

module _ (net : Network) (codec : Codec) where
  open net use {World}

  -- the goroutine of an object
  unfoldable pub interactions_of : String → M World (List InteractionResponse)
  unfolding attach
  interactions_of did = do
    obj ← find_object_tree net did
    name ← get_name net obj
    is ← interactions_list net codec obj
    pure (map (attach name did) is)

  unfoldable pub gather :
      List String → List InteractionResponse → M World (Response (List InteractionResponse))
  gather [] interactions = pure (respond_ok interactions)
  gather (did ∷ dids) interactions =
      answering (interactions_of did) (λ e. e) (λ is. gather dids (interactions ++ is))

  -- `arrival` is the order in which the goroutines answer
  unfoldable pub gather_from :
      (List String → List String)
      → Response (List (String × String))
      → M World (Response (List InteractionResponse))
  gather_from arrival (respond_ok objects) = gather (arrival (map (λ p. p.1) objects)) []
  gather_from arrival (respond_error e) = pure (respond_error e)
  gather_from arrival no_response = pure no_response

  unfoldable pub list_inventory_interactions :
      (List String → List String)
      → InventoryActor net
      → M World (Response (List InteractionResponse))
  unfolding gather_from
  list_inventory_interactions arrival inv = do
    objects ← list_objects net inv
    gather_from arrival objects
