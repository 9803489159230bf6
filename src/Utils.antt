-- ===== src/Utils.antt =====
pub mod StringSlice
