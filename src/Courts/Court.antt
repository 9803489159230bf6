-- ===== src/Courts/Court.antt =====
-- courts/court: what the courts share.
pub mod Prize
