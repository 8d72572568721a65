-- ===== src/Codec/Mqtt/Decode.antt =====
-- The decoders of codec/mqtt.c. A pointer with a length is a list of bytes, `none` is NULL, and an
-- out-parameter is part of the result.
pub mod Body
pub mod Stream
mod Tests
use mathlib.Core.Option
use inkwell.Prelude.{
  ℕ, ◌+◌, ◌-◌, ◌/◌, ◌%◌, ◌^◌, Bool, not, ◌||◌, Option, none, some, List, [], ◌∷◌, Bytes, low_bits,
  shr, bit, length, get_or, take, drop, ltb, ◌==◌, if◌then◌else◌, Result, ok, err, einval, ebadmsg,
  ◌>>=◌,
}
use inkwell.Codec.Mqtt.Varint.{read_varint}
use inkwell.Codec.Mqtt.Packet.{Header, Incoming, packet_type, flags_are_legal, read_u16}

abbrev pub header_of : ℕ → ℕ × ℕ → Header
header_of first (varint, remaining) = record {
  type = packet_type (shr first 4);
  flags = low_bits first 4;
  remaining = remaining;
  header_len = 1 + varint;
}

-- `ok none` is the source's 0, "not a whole header yet"; `ok (some h)` returns `h.header_len`.
unfoldable pub decode_header : Option Bytes → Result (Option Header)
decode_header none = err einval
decode_header (some []) = ok none
decode_header (some (first ∷ bytes)) =
    let raw_type = shr first 4 in
    let flags = low_bits first 4 in
    if raw_type == 0 || raw_type == 15
    then err ebadmsg
    else if not (flags_are_legal (packet_type raw_type) flags)
    then err ebadmsg
    else (do varint ← read_varint bytes; ok (Option.map (header_of first) varint))

-- What `out` is filled with; the payload starts at `start`.
incoming : ℕ → ℕ → Bytes → ℕ → ℕ → ℕ → Incoming
incoming flags qos body topic_len packet_id start = record {
  topic = take topic_len (drop 2 body);
  payload = drop start body;
  qos = qos;
  retained = not (bit flags 0 == 0);
  duplicate = not (bit flags 3 == 0);
  packet_id = packet_id;
}

-- From the offset behind the topic on.
publish_body : ℕ → ℕ → Bytes → ℕ → Result Incoming
unfolding incoming
publish_body flags qos body topic_len =
    let offset = 2 + topic_len in
    if ltb (length body) offset
    then err ebadmsg
    else if ltb 0 qos
    then (if ltb (length body - offset) 2
        then err ebadmsg
        else ok (incoming flags qos body topic_len (read_u16 body offset) (offset + 2)))
    else ok (incoming flags qos body topic_len 0 offset)

-- `body` NULL with a length of 0 is the empty body.
unfoldable pub decode_publish : ℕ → Bytes → Result Incoming
unfolding publish_body
decode_publish flags body =
    let qos = low_bits (shr flags 1) 2 in
    if ltb 2 qos
    then err ebadmsg
    else if ltb (length body) 2
    then err ebadmsg
    else if read_u16 body 0 == 0
    then err ebadmsg
    else publish_body flags qos body (read_u16 body 0)

-- The code and whether a session is present.
unfoldable pub decode_connack : Option Bytes → Result (ℕ × Bool)
decode_connack none = err einval
decode_connack (some body) =
    if not (length body == 2)
    then err ebadmsg
    else if not (shr (get_or body 0 0) 1 == 0)
    then err ebadmsg
    else ok (get_or body 1 0, not (bit (get_or body 0 0) 0 == 0))

-- The packet id and the code.
unfoldable pub decode_suback : Option Bytes → Result (ℕ × ℕ)
decode_suback none = err einval
decode_suback (some body) =
    if ltb (length body) 3 then err ebadmsg else ok (read_u16 body 0, get_or body 2 0)
