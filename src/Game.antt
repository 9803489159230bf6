-- ===== src/Game.antt =====
-- game: interactions, the trees of objects and locations, commands and the player's inventory.
pub mod Interactions
pub mod TreePaths
pub mod ObjectTree
pub mod LocationTree
pub mod LocationActor
pub mod GameActor
pub mod Static
pub mod PlayerTree
pub mod Commands
pub mod PlayerInventoryHandler
pub mod InventoryActor
pub mod InteractionTree
