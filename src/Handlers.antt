-- ===== src/Handlers.antt =====
-- handlers/*.go: what handles the messages between inventories. `Handler` and the list of message
-- names stand in `Core`; each kind of handler has a module of its own.
mod Core
pub use Core.{Handler, IsDistinct, contains, contains_type-has}
unfoldable pub use Core.{contains_type, noop_handler}
pub mod Composite
pub mod Remote
pub mod Broadcast
pub mod Quiet
pub mod Inventory
