-- ===== src/Samples/Witnesses.antt =====
-- The theorems at concrete inputs.
pub mod Inventories
pub mod Transfers
pub mod Objects
pub mod Places
pub mod Sealings
pub mod Histories
pub mod Creations
pub mod Combinations
pub mod Playing
pub mod Imports
pub mod Prizes
