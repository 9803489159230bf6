-- ===== src/Courts.antt =====
-- courts: the parts of the game that run by themselves.
pub mod Autumn
pub mod Court
