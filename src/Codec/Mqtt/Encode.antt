-- ===== src/Codec/Mqtt/Encode.antt =====
-- The encoders of codec/mqtt.c. `out` is the capacity behind the pointer, or `none` for NULL. A
-- packet is the bytes written at the front of it, and the length that is returned.
pub mod Connect
pub mod Frame
pub mod RoundTrip
mod Tests
use inkwell.Prelude.{
  ℕ, ◌+◌, ◌*◌, Bool, true, false, ◌&&◌, ◌||◌, not, Option, none, some, [], ◌∷◌, ◌++◌, Bytes,
  low_bits, u8, length, ltb, ◌==◌, if◌then◌else◌, Result, ok, err, einval, enospc,
}
use inkwell.Codec.Mqtt.Varint.{remaining_max, write_varint, varint_width}
use inkwell.Codec.Mqtt.Packet.{
  PacketType, connect, publish, subscribe, pingreq, disconnect, type_code, ConnectParams,
  flags_qos1, string_max, write_u16, write_string, optional_len,
}

pub record Packet : Type 0 where
  pub bytes : Bytes
  pub total : ℕ

-- The fixed header and the total, or `none` where the packet would not fit in `cap`.
unfoldable pub begin_packet : ℕ → PacketType → ℕ → ℕ → Option Packet
begin_packet cap type flags body_len =
    let header_len = 1 + varint_width body_len in
    if ltb remaining_max body_len
    then none
    else if ltb cap (header_len + body_len)
    then none
    else some (record {
      bytes = u8 (type_code type * 16 + low_bits flags 4) ∷ write_varint body_len;
      total = header_len + body_len;
    })

-- The body is written where `begin_packet` says that it goes.
unfoldable pub put_body : Option Packet → Bytes → Result Packet
put_body none body = err enospc
put_body (some p) body = ok (record p { bytes = p.bytes ++ body })

-- The seven bytes of `mqtt_protocol_header`.
abbrev pub protocol_header : Bytes
protocol_header = 0x00 ∷ 0x04 ∷ b'M' ∷ b'Q' ∷ b'T' ∷ b'T' ∷ 0x04 ∷ []

-- `|` of the flags that are set; they share no bit.
abbrev pub connect_flags : Bool → Bool → Bool → ℕ
connect_flags clean_session has_username has_password =
    (if clean_session then 0x02 else 0)
    + (if has_username then 0x80 else 0)
    + (if has_password then 0x40 else 0)

-- An optional string of CONNECT is written only where it is not empty.
unfoldable pub optional_string : Option Bytes → Bytes
optional_string none = []
optional_string (some text) = if ltb 0 (length text) then write_string text (length text) else []

abbrev pub connect_body_len : ℕ → ℕ → ℕ → ℕ
connect_body_len client_id_len username_len password_len =
    length protocol_header
    + 1
    + 2
    + (2 + client_id_len)
    + (if ltb 0 username_len then 2 + username_len else 0)
    + (if ltb 0 password_len then 2 + password_len else 0)

encode_connect_with : ℕ → ConnectParams → Bytes → Result Packet
encode_connect_with cap params client_id =
    let client_id_len = length client_id in
    let username_len = optional_len params.username in
    let password_len = optional_len params.password in
    if ltb string_max client_id_len || ltb string_max username_len || ltb string_max password_len
    then err einval
    else if client_id_len == 0 && not params.clean_session
    then err einval
    else if ltb 0 password_len && username_len == 0
    then err einval
    else put_body
        (begin_packet cap connect 0 (connect_body_len client_id_len username_len password_len))
        (protocol_header
          ++ (connect_flags params.clean_session (ltb 0 username_len) (ltb 0 password_len) ∷ [])
          ++ write_u16 params.keepalive_s
          ++ write_string client_id client_id_len
          ++ optional_string params.username
          ++ optional_string params.password)

encode_connect_into : ℕ → ConnectParams → Option Bytes → Result Packet
encode_connect_into cap params none = err einval
encode_connect_into cap params (some client_id) = encode_connect_with cap params client_id

unfoldable pub encode_connect : Option ℕ → Option ConnectParams → Result Packet
unfolding encode_connect_into encode_connect_with
encode_connect none params = err einval
encode_connect (some cap) none = err einval
encode_connect (some cap) (some params) = encode_connect_into cap params params.client_id

unfoldable pub encode_publish : Option ℕ → Option Bytes → Bytes → Bool → Result Packet
encode_publish none topic payload retained = err einval
encode_publish (some cap) none payload retained = err einval
encode_publish (some cap) (some topic) payload retained =
    let topic_len = length topic in
    if topic_len == 0 || ltb string_max topic_len
    then err einval
    else put_body
        (begin_packet cap publish (if retained then 0x01 else 0) (2 + topic_len + length payload))
        (write_string topic topic_len ++ payload)

unfoldable pub encode_subscribe : Option ℕ → ℕ → Option Bytes → Result Packet
encode_subscribe none packet_id filter = err einval
encode_subscribe (some cap) packet_id none = err einval
encode_subscribe (some cap) packet_id (some filter) =
    let filter_len = length filter in
    if packet_id == 0
    then err einval
    else if filter_len == 0 || ltb string_max filter_len
    then err einval
    else put_body (begin_packet cap subscribe flags_qos1 (2 + 2 + filter_len + 1))
        (write_u16 packet_id ++ write_string filter filter_len ++ (0 ∷ []))

unfoldable pub is_empty_type : PacketType → Bool
is_empty_type pingreq = true
is_empty_type disconnect = true
is_empty_type _ = false

unfoldable pub encode_empty : Option ℕ → PacketType → Result Packet
encode_empty none type = err einval
encode_empty (some cap) type =
    if not (is_empty_type type) then err einval else put_body (begin_packet cap type 0 0) []

no_wildcard : Bytes → Bool
no_wildcard [] = true
no_wildcard (c ∷ rest) =
    let more = no_wildcard rest in if c == b'+' || c == b'#' then false else more

unfoldable pub topic_is_publishable : Option Bytes → Bool
unfolding no_wildcard
topic_is_publishable none = false
topic_is_publishable (some topic) =
    if length topic == 0 || ltb string_max (length topic) then false else no_wildcard topic
