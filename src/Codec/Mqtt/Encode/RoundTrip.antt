-- ===== src/Codec/Mqtt/Encode/RoundTrip.antt =====
-- Each encoder against the decoders: what a reader of the stream gets back.
use inkwell.Prelude.{
  ℕ, suc, ◌+◌, ◌≤◌, ◌<◌, ◌≡◌, ap, sym, arith, Bool, true, false, some, [], ◌∷◌, ◌++◌, Bytes,
  low_bits, shr, u8, u16, length, length-append, take-length, drop, take-append_self,
  drop-append_self, if◌then◌else◌, ok, err, einval, refl, ◌⊎◌, inl, inr, ◌↔◌, enospc,
}
use inkwell.Codec.Mqtt.Varint.{remaining_max, varint_width}
use inkwell.Codec.Mqtt.Packet.{
  PacketType, publish, subscribe, pingreq, disconnect, flags_qos1, string_max, Incoming, read_u16,
  write_u16, write_string, flags_are_legal,
}
use inkwell.Codec.Mqtt.Decode.{decode_publish}
use inkwell.Codec.Mqtt.Encode.{
  Packet, begin_packet, put_body, encode_publish, encode_subscribe, encode_empty, is_empty_type,
}
use inkwell.Codec.Mqtt.Encode.Frame.{IsFrame, put_body-IsFrame}

length-write_string : (text : Bytes) → length (write_string text (length text)) ≡ 2 + length text
unfolding write_string
length-write_string text = rw take-length (omega arith)

read_write_u16 : (n : ℕ) (rest : Bytes) → n < 65536 → read_u16 (write_u16 n ++ rest) 0 ≡ n
unfolding read_u16 write_u16
read_write_u16 n rest h = omega arith

-- The bytes of a PUBLISH at QoS 0 behind its header.
abbrev pub publish_bytes : Bytes → Bytes → Bytes
publish_bytes topic payload = write_string topic (length topic) ++ payload

abbrev pub retain_flag : Bool → ℕ
retain_flag retained = if retained then 0x01 else 0

abbrev pub message : Bytes → Bytes → Bool → Incoming
message topic payload retained = record {
  topic = topic;
  payload = payload;
  qos = 0;
  retained = retained;
  duplicate = false;
  packet_id = 0;
}

length-publish_bytes :
    (topic payload : Bytes)
    → length (publish_bytes topic payload) ≡ 2 + length topic + length payload
length-publish_bytes topic payload =
    omega
      (arith, length-append (write_string topic (length topic)) payload, length-write_string topic)

-- The topic's length as the decoder reads it.
read-topic_len :
    (n : ℕ) (rest : Bytes)
    → n ≤ string_max
    → read_u16 (u8 (shr (u16 n) 8) ∷ low_bits (u16 n) 8 ∷ rest) 0 ≡ n
unfolding read_u16
read-topic_len n rest h = omega arith

two_add : (n : ℕ) → 2 + n ≡ suc (suc n)
two_add n = omega arith

decode-publish_bytes :
    (topic payload : Bytes) (retained : Bool)
    → 0 < length topic
    → length topic ≤ string_max
    → decode_publish (retain_flag retained) (publish_bytes topic payload)
      ≡ ok (message topic payload retained)
unfolding decode_publish write_string
decode-publish_bytes topic payload true lo hi =
    rw
      (
        take-length topic,
        read-topic_len (length topic) (topic ++ payload) hi,
        two_add (length topic),
      )
      (ground (
        arith,
        length-append topic payload,
        take-append_self (length topic) topic payload refl,
        drop-append_self (length topic) topic payload refl,
      ))
decode-publish_bytes topic payload false lo hi =
    rw
      (
        take-length topic,
        read-topic_len (length topic) (topic ++ payload) hi,
        two_add (length topic),
      )
      (ground (
        arith,
        length-append topic payload,
        take-append_self (length topic) topic payload refl,
        drop-append_self (length topic) topic payload refl,
      ))

publish_accepted :
    (cap : ℕ) (topic payload : Bytes) (retained : Bool) (p : Packet)
    → encode_publish (some cap) (some topic) payload retained ≡ ok p
    → (0 < length topic)
      × (length topic ≤ string_max)
      × (put_body
            (begin_packet cap publish (retain_flag retained) (2 + length topic + length payload))
            (publish_bytes topic payload)
          ≡ ok p)
unfolding encode_publish
publish_accepted cap topic payload retained p e = ground arith

retain_flag-lt : (retained : Bool) → retain_flag retained < 16
retain_flag-lt retained = ground arith

-- A PUBLISH that is encoded lies in the buffer, is framed by the stream's decoder as one PUBLISH of
-- exactly its body, whatever follows, and that body decodes to the topic, the payload and the
-- retain flag that were given, at QoS 0.
pub encode_publish-decode_publish :
    (cap : ℕ) (topic payload : Bytes) (retained : Bool) (p : Packet)
    → encode_publish (some cap) (some topic) payload retained ≡ ok p
    → IsFrame publish (retain_flag retained) (publish_bytes topic payload) cap p
      × (decode_publish (retain_flag retained) (publish_bytes topic payload)
          ≡ ok (message topic payload retained))
encode_publish-decode_publish cap topic payload retained p e =
    let (lo, hi, put) = publish_accepted cap topic payload retained p e in
    let put' = rw (sym (length-publish_bytes topic payload)) at put in
    (
      put_body-IsFrame cap publish (retain_flag retained) (publish_bytes topic payload) p
          (retain_flag-lt retained) (unfold flags_are_legal in refl) put',
      decode-publish_bytes topic payload retained lo hi,
    )

abbrev pub subscribe_bytes : ℕ → Bytes → Bytes
subscribe_bytes packet_id filter =
    write_u16 packet_id ++ write_string filter (length filter) ++ (0 ∷ [])

length-subscribe_bytes :
    (packet_id : ℕ) (filter : Bytes)
    → length (subscribe_bytes packet_id filter) ≡ 2 + 2 + length filter + 1
unfolding write_u16
length-subscribe_bytes packet_id filter = omega (
  arith,
  length-append (write_string filter (length filter)) (0 ∷ []),
  length-write_string filter,
)

subscribe_accepted :
    (cap packet_id : ℕ) (filter : Bytes) (p : Packet)
    → encode_subscribe (some cap) packet_id (some filter) ≡ ok p
    → (0 < packet_id)
      × (0 < length filter)
      × (length filter ≤ string_max)
      × (put_body
            (begin_packet cap subscribe flags_qos1 (2 + 2 + length filter + 1))
            (subscribe_bytes packet_id filter)
          ≡ ok p)
unfolding encode_subscribe
subscribe_accepted cap packet_id filter p e = ground arith

-- What a SUBSCRIBE's body says.
abbrev pub SubscribeFields : ℕ → Bytes → Type 0
SubscribeFields packet_id filter =
    (read_u16 (subscribe_bytes packet_id filter) 0 ≡ packet_id)
    × (read_u16 (subscribe_bytes packet_id filter) 2 ≡ length filter)
    × (drop 4 (subscribe_bytes packet_id filter) ≡ filter ++ (0 ∷ []))

subscribe_fields :
    (packet_id : ℕ) (filter : Bytes)
    → packet_id < 65536
    → length filter ≤ string_max
    → SubscribeFields packet_id filter
unfolding read_u16 write_u16 write_string
subscribe_fields packet_id filter small hi =
    (omega arith, omega arith, ap (λ text. text ++ (0 ∷ [])) (take-length filter))

-- A SUBSCRIBE that is encoded has a packet id that is not 0, lies in the buffer, is framed by the
-- stream's decoder as one SUBSCRIBE with the flags that 3.1.1 requires, and its body holds the
-- packet id, the length-prefixed filter and the QoS 0.
pub encode_subscribe-IsFrame :
    (cap packet_id : ℕ) (filter : Bytes) (p : Packet)
    → packet_id < 65536
    → encode_subscribe (some cap) packet_id (some filter) ≡ ok p
    → (0 < packet_id)
      × IsFrame subscribe flags_qos1 (subscribe_bytes packet_id filter) cap p
      × SubscribeFields packet_id filter
encode_subscribe-IsFrame cap packet_id filter p small e =
    let (id, lo, hi, put) = subscribe_accepted cap packet_id filter p e in
    let put' = rw (sym (length-subscribe_bytes packet_id filter)) at put in
    (
      id,
      put_body-IsFrame cap subscribe flags_qos1 (subscribe_bytes packet_id filter) p (omega arith)
          (unfold flags_are_legal in refl) put',
      subscribe_fields packet_id filter small hi,
    )

empty_accepted :
    (cap : ℕ) (type : PacketType) (p : Packet)
    → encode_empty (some cap) type ≡ ok p
    → ((type ≡ pingreq) ⊎ (type ≡ disconnect))
      × (flags_are_legal type 0 ≡ true)
      × (put_body (begin_packet cap type 0 0) [] ≡ ok p)
unfolding encode_empty is_empty_type flags_are_legal
empty_accepted cap pingreq p e = (inl refl, refl, e)
empty_accepted cap disconnect p e = (inr refl, refl, e)
empty_accepted cap _ p e = cc

empty_total :
    (cap : ℕ) (type : PacketType) (p : Packet)
    → put_body (begin_packet cap type 0 0) [] ≡ ok p
    → p.total ≡ 2
unfolding put_body begin_packet varint_width
empty_total cap type p e = ground arith

-- PINGREQ and DISCONNECT are the only packets with no body that are encoded, each is two bytes,
-- and each is framed by the stream's decoder as what it is.
pub encode_empty-IsFrame :
    (cap : ℕ) (type : PacketType) (p : Packet)
    → encode_empty (some cap) type ≡ ok p
    → ((type ≡ pingreq) ⊎ (type ≡ disconnect)) × (p.total ≡ 2) × IsFrame type 0 [] cap p
encode_empty-IsFrame cap type p e =
    let (which, legal, put) = empty_accepted cap type p e in
    let frame = put_body-IsFrame cap type 0 [] p (omega arith) legal put in
    (which, empty_total cap type p put, frame)

-- PUBLISH is refused as invalid exactly where the topic is empty or longer than 65535 bytes, and
-- for want of room exactly where such a topic is not the reason and the packet is longer than the
-- protocol allows or than the buffer.
pub encode_publish_refusals :
    (cap : ℕ) (topic payload : Bytes) (retained : Bool)
    → ((encode_publish (some cap) (some topic) payload retained ≡ err einval)
        ↔ ((length topic ≡ 0) ⊎ (string_max < length topic)))
      × ((encode_publish (some cap) (some topic) payload retained ≡ err enospc) ↔ (
          (0 < length topic)
          × (length topic ≤ string_max)
          × ((remaining_max < 2 + length topic + length payload)
              ⊎ (cap
                  < 1
                    + varint_width (2 + length topic + length payload)
                    + (2 + length topic + length payload)))))
unfolding encode_publish put_body begin_packet
encode_publish_refusals cap topic payload retained =
    (((λ h. ground arith), (λ h. ground arith)), ((λ h. ground arith), (λ h. ground arith)))
