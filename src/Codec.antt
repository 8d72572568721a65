-- ===== src/Codec.antt =====
pub mod Base64
pub mod EspImage
pub mod EspRom
pub mod Http
pub mod Json
pub mod Mqtt
pub mod Uf2
pub mod Zip
