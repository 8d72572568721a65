-- ===== src/Codec/Mqtt/Encode/Tests.antt =====
-- Runs of the encoders of codec/mqtt.c on small packets.
use inkwell.Prelude.{
  ◌+◌, ◌≤◌, ◌<◌, ◌≡◌, refl, arith, true, none, some, [], ◌∷◌, Bytes, length, ok, err, einval,
  enospc, ◌⊎◌, ◌↔◌,
}
use inkwell.Codec.Mqtt.Varint.{remaining_max, varint_width, write_varint}
use inkwell.Codec.Mqtt.Packet.{
  connect, publish, subscribe, pingreq, ConnectParams, flags_qos1, string_max, optional_len,
  write_u16, write_string,
}
use inkwell.Codec.Mqtt.Decode.{decode_publish}
use inkwell.Codec.Mqtt.Encode.{
  Packet, begin_packet, put_body, optional_string, encode_connect, encode_publish, encode_subscribe,
  encode_empty, is_empty_type,
}
use inkwell.Codec.Mqtt.Encode.Frame.{IsFrame}
use inkwell.Codec.Mqtt.Encode.RoundTrip.{
  retain_flag, publish_bytes, message, subscribe_bytes, SubscribeFields,
  encode_publish-decode_publish, encode_publish_refusals, encode_subscribe-IsFrame,
}
use inkwell.Codec.Mqtt.Encode.Connect.{IsLegal, connect_bytes, encode_connect-IsFrame}

abbrev a_topic : Bytes
a_topic = b'a' ∷ b'/' ∷ b'b' ∷ []

abbrev a_payload : Bytes
a_payload = b'h' ∷ b'i' ∷ []

abbrev a_message : Packet
a_message = record { bytes = 0x31 ∷ 7 ∷ 0 ∷ 3 ∷ b'a' ∷ b'/' ∷ b'b' ∷ b'h' ∷ b'i' ∷ []; total = 9 }

a_message_run : encode_publish (some 9) (some a_topic) a_payload true ≡ ok a_message
unfolding encode_publish put_body begin_packet varint_width write_varint write_string
a_message_run = refl

encode_publish-decode_publish_example :
    IsFrame publish (retain_flag true) (publish_bytes a_topic a_payload) 9 a_message
    × (decode_publish (retain_flag true) (publish_bytes a_topic a_payload)
        ≡ ok (message a_topic a_payload true))
encode_publish-decode_publish_example =
    encode_publish-decode_publish 9 a_topic a_payload true a_message a_message_run

encode_publish_refusals_example :
    ((encode_publish (some 8) (some a_topic) a_payload true ≡ err einval)
      ↔ ((length a_topic ≡ 0) ⊎ (string_max < length a_topic)))
    × ((encode_publish (some 8) (some a_topic) a_payload true ≡ err enospc) ↔ (
        (0 < length a_topic)
        × (length a_topic ≤ string_max)
        × ((remaining_max < 2 + length a_topic + length a_payload)
            ⊎ (8
                < 1
                  + varint_width (2 + length a_topic + length a_payload)
                  + (2 + length a_topic + length a_payload)))))
encode_publish_refusals_example = encode_publish_refusals 8 a_topic a_payload true

abbrev a_client : ConnectParams
a_client = record {
  client_id = some (b'c' ∷ []);
  username = some (b'u' ∷ []);
  password = none;
  keepalive_s = 60;
  clean_session = true;
}

abbrev a_connect : Packet
a_connect = record {
  bytes =
      0x10 ∷ 16 ∷ 0 ∷ 4 ∷ b'M' ∷ b'Q' ∷ b'T' ∷ b'T' ∷ 4 ∷ 0x82 ∷ 0 ∷ 60 ∷ 0 ∷ 1 ∷ b'c' ∷ 0 ∷ 1
      ∷ b'u' ∷ [];
  total = 18;
}

a_connect_run : encode_connect (some 100) (some a_client) ≡ ok a_connect
unfolding encode_connect put_body optional_len begin_packet varint_width write_varint write_u16
    write_string optional_string
a_connect_run = refl

encode_connect-IsFrame_example :
    IsLegal a_client (b'c' ∷ [])
    × IsFrame connect 0 (connect_bytes a_client (b'c' ∷ [])) 100 a_connect
encode_connect-IsFrame_example =
    encode_connect-IsFrame 100 a_client (b'c' ∷ []) a_connect refl a_connect_run

abbrev a_subscribe : Packet
a_subscribe = record { bytes = 0x82 ∷ 8 ∷ 1 ∷ 2 ∷ 0 ∷ 3 ∷ b'a' ∷ b'/' ∷ b'b' ∷ 0 ∷ []; total = 10 }

a_subscribe_run : encode_subscribe (some 16) 258 (some a_topic) ≡ ok a_subscribe
unfolding encode_subscribe put_body begin_packet varint_width write_varint write_u16 write_string
a_subscribe_run = refl

encode_subscribe-IsFrame_example :
    (0 < 258)
    × IsFrame subscribe flags_qos1 (subscribe_bytes 258 a_topic) 16 a_subscribe
    × SubscribeFields 258 a_topic
encode_subscribe-IsFrame_example =
    encode_subscribe-IsFrame 16 258 a_topic a_subscribe (omega arith) a_subscribe_run

abbrev a_ping : Packet
a_ping = record { bytes = 0xC0 ∷ 0 ∷ []; total = 2 }

a_ping_run : encode_empty (some 2) pingreq ≡ ok a_ping
unfolding encode_empty put_body is_empty_type begin_packet varint_width write_varint
a_ping_run = refl
