-- ===== src/Net/Mqtt/Inbound/Tests.antt =====
-- Runs of the inbound buffer with a client that keeps the bodies it is handed.
use inkwell.Prelude.{◌<◌, ◌≡◌, refl, List, [], ◌∷◌, ◌++◌, Bytes, length, inl}
use inkwell.Codec.Mqtt.Varint.{read_varint, read_varint_loop}
use inkwell.Codec.Mqtt.Packet.{packet_type, flags_are_legal}
use inkwell.Codec.Mqtt.Decode.{decode_header}
use inkwell.Net.Mqtt.Inbound.{
  packet_max, going, Client, Inbound, consume, consume_loop, resume, round, header_round,
  packet_round, after_handle,
}
use inkwell.Net.Mqtt.Inbound.Framing.{receive, read_on, consume-receive}
use inkwell.Net.Mqtt.Inbound.Progress.{Ends, consume-Ends, consume_leaves_room}

abbrev keeper : Client
keeper = record {
  State = List Bytes;
  handle = λ bodies h body. going (bodies ++ (body ∷ []));
  fail_protocol = λ bodies. bodies;
  count_skipped = λ bodies. bodies;
}

-- A PINGRESP, and the first byte of a PUBLISH.
abbrev an_inbound : Inbound (List Bytes)
an_inbound = record { buffered = 0xD0 ∷ 0 ∷ 0x30 ∷ []; skip_remaining = 0; client = [] }

abbrev left_behind : Inbound (List Bytes)
left_behind = record { buffered = 0x30 ∷ []; skip_remaining = 0; client = [] ∷ [] }

an_inbound_run : consume keeper an_inbound ≡ inl left_behind
unfolding consume decode_header read_varint read_varint_loop packet_type flags_are_legal
    consume_loop resume round header_round packet_round after_handle
an_inbound_run = refl

consume-receive_example :
    consume keeper (receive an_inbound (3 ∷ 0 ∷ 1 ∷ []))
    ≡ read_on keeper (3 ∷ 0 ∷ 1 ∷ []) (consume keeper an_inbound)
consume-receive_example = consume-receive keeper an_inbound (3 ∷ 0 ∷ 1 ∷ [])

consume_leaves_room_example : length left_behind.buffered < packet_max
consume_leaves_room_example = consume_leaves_room keeper an_inbound left_behind an_inbound_run

consume-Ends_example : Ends keeper an_inbound (consume keeper an_inbound)
consume-Ends_example = consume-Ends keeper an_inbound
