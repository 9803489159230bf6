-- ===== src/Courts/Autumn.antt =====
-- courts/autumn: elements that are combined to other elements.
pub mod Combinations
pub mod Elements
pub mod Combiner
pub mod PickUp
