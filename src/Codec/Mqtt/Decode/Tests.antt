-- ===== src/Codec/Mqtt/Decode/Tests.antt =====
-- Runs of the decoders of codec/mqtt.c on small packets.
use inkwell.Prelude.{
  ℕ, ◌≤◌, ◌<◌, ◌≡◌, refl, arith, true, false, none, some, [], ◌∷◌, ◌++◌, Bytes, All, IsByte, length,
  ok,
}
use inkwell.Codec.Mqtt.Varint.{
  remaining_max, read_varint, read_varint_loop, write_varint, varint_width, read-write_varint,
}
use inkwell.Codec.Mqtt.Packet.{publish, packet_type, Header, Incoming, flags_are_legal, read_u16}
use inkwell.Codec.Mqtt.Decode.{decode_header, decode_publish}
use inkwell.Codec.Mqtt.Decode.Body.{body_bytes, decode_publish_lossless}
use inkwell.Codec.Mqtt.Decode.Stream.{
  Decided, decode_header-append, decode_header_waits, decode_header_bounds,
}

-- A PUBLISH at QoS 1: the topic "t", the packet id 5 and the payload "x".
abbrev a_body : Bytes
a_body = 0 ∷ 1 ∷ b't' ∷ 0 ∷ 5 ∷ b'x' ∷ []

abbrev an_incoming : Incoming
an_incoming = record {
  topic = b't' ∷ [];
  payload = b'x' ∷ [];
  qos = 1;
  retained = false;
  duplicate = true;
  packet_id = 5;
}

a_body-IsBytes : All IsByte a_body
a_body-IsBytes = ground arith

a_body_run : decode_publish 10 a_body ≡ ok an_incoming
unfolding decode_publish read_u16
a_body_run = refl

decode_publish_lossless_example :
    (an_incoming.qos ≤ 2) × (0 < length an_incoming.topic) × (body_bytes an_incoming ≡ a_body)
decode_publish_lossless_example =
    decode_publish_lossless 10 a_body an_incoming a_body-IsBytes a_body_run

abbrev a_header : Header
a_header = record { type = publish; flags = 10; remaining = 321; header_len = 3 }

a_header_run : decode_header (some (0x3A ∷ 0xC1 ∷ 2 ∷ [])) ≡ ok (some a_header)
unfolding decode_header read_varint flags_are_legal packet_type read_varint_loop
a_header_run = refl

half_header_run : decode_header (some (0x3A ∷ 0xC1 ∷ [])) ≡ ok none
unfolding decode_header read_varint flags_are_legal packet_type read_varint_loop
half_header_run = refl

a_header-Decided : Decided (decode_header (some (0x3A ∷ 0xC1 ∷ 2 ∷ [])))
unfolding decode_header read_varint flags_are_legal packet_type read_varint_loop
a_header-Decided = tt

decode_header-append_example :
    decode_header (some ((0x3A ∷ 0xC1 ∷ 2 ∷ []) ++ (7 ∷ 8 ∷ [])))
    ≡ decode_header (some (0x3A ∷ 0xC1 ∷ 2 ∷ []))
decode_header-append_example =
    decode_header-append (0x3A ∷ 0xC1 ∷ 2 ∷ []) (7 ∷ 8 ∷ []) a_header-Decided

decode_header_waits_example : length {A = ℕ} (0x3A ∷ 0xC1 ∷ []) < 5
decode_header_waits_example = decode_header_waits (0x3A ∷ 0xC1 ∷ []) half_header_run

decode_header_bounds_example :
    (2 ≤ a_header.header_len)
    × (a_header.header_len ≤ 5)
    × (a_header.header_len ≤ length {A = ℕ} (0x3A ∷ 0xC1 ∷ 2 ∷ []))
    × (a_header.remaining ≤ remaining_max)
    × (flags_are_legal a_header.type a_header.flags ≡ true)
decode_header_bounds_example = decode_header_bounds (0x3A ∷ 0xC1 ∷ 2 ∷ []) a_header a_header_run

read-write_varint_example :
    read_varint (write_varint 321 ++ (9 ∷ [])) ≡ ok (some (varint_width 321, 321))
read-write_varint_example = read-write_varint 321 (9 ∷ []) (omega arith)
