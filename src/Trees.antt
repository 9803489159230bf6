-- ===== src/Trees.antt =====
-- game/trees: the inventory kept in a chaintree, and who owns a chaintree now and owned it before.
pub mod Inventory
pub mod Height
pub mod Ownership
