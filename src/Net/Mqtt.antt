-- ===== src/Net/Mqtt.antt =====
pub mod Address
pub mod Client
pub mod Inbound
pub mod Queue
