-- ===== src/Game/LocationActor.antt =====
-- game/location_actor.go: the actor of a location, with the inventory that stands for it. The actor of
-- that inventory is a child of this one; its answers are functions of its state, which the location's
-- actor holds. The connections to the peers of a handler and the subscriptions are left out.
pub mod PlayerInventory
pub mod Requests
use jasons_game.Base.{String, Option, some, none, List}
use jasons_game.Network.{
  M, panics, pure, fail, reads, lift, wrapping, deref, ◌>>=◌, Network, fetch, Res, ok, err, panic,
  Error, message,
}
use jasons_game.Handlers.Remote.{RemoteHandler, find_handler_for_tree}
use jasons_game.Game.LocationTree.{LocationTree}
use jasons_game.Game.InventoryActor.{InventoryActor}

module _ (net : Network) where
  -- `inventory_actor` is the state of the child.
  pub record LocationActor : Type 0 where
    pub did : String
    pub player_did : String
    pub location : LocationTree net
    pub location_handler : Option RemoteHandler
    pub inventory_did : String
    pub inventory_actor : InventoryActor net
