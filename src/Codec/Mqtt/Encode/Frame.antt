-- ===== src/Codec/Mqtt/Encode/Frame.antt =====
-- The fixed header and the body of an encoded packet, as the decoder of a stream meets them.
use inkwell.Prelude.{
  ℕ, suc, ◌+◌, ◌*◌, ◌≤◌, ◌<◌, ◌≡◌, sym, arith, true, false, some, ◌∷◌, ◌++◌, append_assoc, Bytes,
  low_bits, shr, u8, length, length-append, drop, drop-append_self, ◌==◌, ok, refl,
}
use inkwell.Codec.Mqtt.Varint.{
  remaining_max, write_varint, varint_width, read-write_varint, length-write_varint,
}
use inkwell.Codec.Mqtt.Packet.{
  PacketType, packet_none, connect, type_code, packet_type, flags_are_legal,
}
use inkwell.Codec.Mqtt.Decode.{decode_header}
use inkwell.Codec.Mqtt.Encode.{Packet, begin_packet, put_body}

-- A packet that a reader of the stream frames as `type` with `flags` and `body`, whatever follows
-- it, and that lies in the `cap` bytes of the buffer.
pub record IsFrame (type : PacketType) (flags : ℕ) (body : Bytes) (cap : ℕ) (p : Packet)
    : Type 0 where
  pub whole : p.total ≡ length p.bytes
  pub fits : p.total ≤ cap
  pub header :
      (rest : Bytes)
      → decode_header (some (p.bytes ++ rest))
        ≡ ok (
            some (record {
              type = type;
              flags = flags;
              remaining = length body;
              header_len = 1 + varint_width (length body);
            }))
  pub behind : drop (1 + varint_width (length body)) p.bytes ≡ body

type_code-lt : (type : PacketType) → type_code type < 15
type_code-lt connect = omega arith
type_code-lt _ = omega arith

packet_type-type_code : (type : PacketType) → packet_type (type_code type) ≡ type
unfolding packet_type
packet_type-type_code connect = refl
packet_type-type_code _ = refl

type_code-ne_zero :
    (type : PacketType) (flags : ℕ) → flags_are_legal type flags ≡ true → 0 < type_code type
unfolding flags_are_legal
type_code-ne_zero packet_none flags h = cc
type_code-ne_zero _ flags h = omega arith

first_byte :
    (code flags : ℕ)
    → code < 15
    → flags < 16
    → (shr (u8 (code * 16 + low_bits flags 4)) 4 ≡ code)
      × (low_bits (u8 (code * 16 + low_bits flags 4)) 4 ≡ flags)
first_byte code flags h k = omega arith

-- What `decode_header` makes of a first byte that holds `type` and `flags`.
decode_header-put :
    (type : PacketType) (flags n : ℕ) (rest : Bytes)
    → flags < 16
    → flags_are_legal type flags ≡ true
    → n ≤ remaining_max
    → decode_header (some (u8 (type_code type * 16 + low_bits flags 4) ∷ (write_varint n ++ rest)))
      ≡ ok (
          some
            (record { type = type; flags = flags; remaining = n; header_len = 1 + varint_width n }))
unfolding decode_header
decode_header-put type flags n rest small legal h =
    let (code, low) = first_byte (type_code type) flags (type_code-lt type) small in
    let zero_test : (type_code type == 0) ≡ false =
      ground (arith, type_code-ne_zero type flags legal) in
    let top_test : (type_code type == 15) ≡ false = ground (arith, type_code-lt type) in
    rw
      (
        code,
        low,
        packet_type-type_code type,
        legal,
        read-write_varint n rest h,
        zero_test,
        top_test,
      )
      (rw (code, low, packet_type-type_code type))

module _ (cap : ℕ) (type : PacketType) (flags : ℕ) (body : Bytes) where
  abbrev frame_bytes : Bytes
  frame_bytes = u8 (type_code type * 16 + low_bits flags 4) ∷ (write_varint (length body) ++ body)

  put_body-eq-ok :
      (p : Packet)
      → put_body (begin_packet cap type flags (length body)) body ≡ ok p
      → (length body ≤ remaining_max)
        × (1 + varint_width (length body) + length body ≤ cap)
        × (p ≡ record { bytes = frame_bytes; total = 1 + varint_width (length body) + length body })
  unfolding put_body begin_packet
  put_body-eq-ok p e = ground arith

  accepted-IsFrame :
      flags < 16
      → flags_are_legal type flags ≡ true
      → length body ≤ remaining_max
      → 1 + varint_width (length body) + length body ≤ cap
      → IsFrame type flags body cap
          (record { bytes = frame_bytes; total = 1 + varint_width (length body) + length body })
  accepted-IsFrame small legal bound fits = record {
    whole =
        omega (
          arith,
          length-append (write_varint (length body)) body,
          length-write_varint (length body),
        );
    fits = fits;
    header = λ rest.
        rw (append_assoc (write_varint (length body)) body rest)
          (decode_header-put type flags (length body) (body ++ rest) small legal bound);
    behind = rw (one_add (varint_width (length body))) (
        drop-append_self _ (write_varint (length body)) body
          (sym (length-write_varint (length body))));
  }
    where
      one_add : (n : ℕ) → 1 + n ≡ suc n
      one_add n = omega arith

  -- What is written is a frame of the body, where the flags are legal for the type.
  pub put_body-IsFrame :
      (p : Packet)
      → flags < 16
      → flags_are_legal type flags ≡ true
      → put_body (begin_packet cap type flags (length body)) body ≡ ok p
      → IsFrame type flags body cap p
  put_body-IsFrame p small legal e =
      let (bound, fits, shape) = put_body-eq-ok p e in
      rw shape (accepted-IsFrame small legal bound fits)
