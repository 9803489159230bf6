-- ===== src/Network.antt =====
-- What the game sees of the network: the values stored in chaintrees, Go's results and effects,
-- the messages between services, and the interface of network/network.go with its laws.
mod Data
mod Effects
mod Messages
mod Api
mod Laws
mod Paths
pub use Data.*
unfoldable pub use Effects.*
pub use Messages.*
pub use Api.*
pub use Laws.*
pub use Paths.*
