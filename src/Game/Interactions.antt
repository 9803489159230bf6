-- ===== src/Game/Interactions.antt =====
-- game/types.proto and game/interactions.go: what a player can do at a place or with an object, and
-- how it is stored in a chaintree.
mod Types
mod Encoding
unfoldable pub use Types.*
unfoldable pub use Encoding.*
pub mod Tree
pub mod Sealed
pub mod Values
