-- ===== src/Codec/EspRom.antt =====
-- codec/esp_rom.c and codec/esp_rom.h: the serial protocol of an ESP32's ROM bootloader.
pub mod Answers
pub mod Request
pub mod Reader
