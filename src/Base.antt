-- ===== src/Base.antt =====
pub mod Text
pub mod Version
