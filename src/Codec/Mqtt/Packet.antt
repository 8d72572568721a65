-- ===== src/Codec/Mqtt/Packet.antt =====
-- The packet types and records of codec/mqtt.h, and the primitives of codec/mqtt.c.
use inkwell.Prelude.{
  ℕ, ◌+◌, ◌*◌, Bool, true, false, Option, none, some, [], ◌∷◌, ◌++◌, Bytes, low_bits, shr, u8, u16,
  length, get_or, take, ◌==◌, if◌then◌else◌,
}

pub data PacketType : Type 0 where
  packet_none connect connack publish puback pubrec pubrel pubcomp : PacketType
  subscribe suback unsubscribe unsuback pingreq pingresp disconnect : PacketType

-- The numbers of the enum.
abbrev pub type_code : PacketType → ℕ
type_code packet_none = 0
type_code connect = 1
type_code connack = 2
type_code publish = 3
type_code puback = 4
type_code pubrec = 5
type_code pubrel = 6
type_code pubcomp = 7
type_code subscribe = 8
type_code suback = 9
type_code unsubscribe = 10
type_code unsuback = 11
type_code pingreq = 12
type_code pingresp = 13
type_code disconnect = 14

-- The cast of a number below 15 to the enum.
unfoldable pub packet_type : ℕ → PacketType
packet_type code =
    if code == 1
    then connect
    else if code == 2
    then connack
    else if code == 3
    then publish
    else if code == 4
    then puback
    else if code == 5
    then pubrec
    else if code == 6
    then pubrel
    else if code == 7
    then pubcomp
    else if code == 8
    then subscribe
    else if code == 9
    then suback
    else if code == 10
    then unsubscribe
    else if code == 11
    then unsuback
    else if code == 12
    then pingreq
    else if code == 13
    then pingresp
    else if code == 14
    then disconnect
    else packet_none

pub record Header : Type 0 where
  pub type : PacketType
  pub flags : ℕ
  pub remaining : ℕ
  pub header_len : ℕ

-- `topic` and `payload` are the bytes that the source's pointers and lengths select.
pub record Incoming : Type 0 where
  pub topic : Bytes
  pub payload : Bytes
  pub qos : ℕ
  pub retained : Bool
  pub duplicate : Bool
  pub packet_id : ℕ

-- `none` is NULL.
pub record ConnectParams : Type 0 where
  pub client_id : Option Bytes
  pub username : Option Bytes
  pub password : Option Bytes
  pub keepalive_s : ℕ
  pub clean_session : Bool

abbrev pub flags_qos1 : ℕ
flags_qos1 = 0x02

abbrev pub string_max : ℕ
string_max = 65535

-- The two bytes at offset `at`.
unfoldable pub read_u16 : Bytes → ℕ → ℕ
read_u16 bytes at = get_or bytes at 0 * 256 + get_or bytes (at + 1) 0

unfoldable pub write_u16 : ℕ → Bytes
write_u16 value = u8 (shr value 8) ∷ low_bits value 8 ∷ []

unfoldable pub write_string : Bytes → ℕ → Bytes
unfolding write_u16
write_string text text_len = write_u16 (u16 text_len) ++ take text_len text

unfoldable pub optional_len : Option Bytes → ℕ
optional_len none = 0
optional_len (some text) = length text

-- Whether a packet type may carry these flags.
unfoldable pub flags_are_legal : PacketType → ℕ → Bool
flags_are_legal publish flags = true
flags_are_legal pubrel flags = flags == flags_qos1
flags_are_legal subscribe flags = flags == flags_qos1
flags_are_legal unsubscribe flags = flags == flags_qos1
flags_are_legal packet_none flags = false
flags_are_legal _ flags = flags == 0
