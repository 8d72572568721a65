-- ===== src/Net.antt =====
pub mod Mqtt
pub mod Reason
