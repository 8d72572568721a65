-- ===== src/Codec/Mqtt.antt =====
-- codec/mqtt.c and codec/mqtt.h: MQTT 3.1.1 packets.
pub mod Varint
pub mod Packet
pub mod Decode
pub mod Encode
