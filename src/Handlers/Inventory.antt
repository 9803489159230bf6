-- ===== src/Handlers/Inventory.antt =====
-- handlers/inventory: the two halves of a transfer.
pub mod Add
pub mod Remove
