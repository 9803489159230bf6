-- ===== src/Samples.antt =====
-- A small network in memory, with concrete encodings, on which the operations can be run; it fulfils
-- the laws that the theorems assume.
pub mod Chain
pub mod Codecs
pub mod Scenes
pub mod Sessions
pub mod Witnesses
