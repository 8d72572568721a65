-- ===== src/Codec/Mqtt/Decode/Body.antt =====
-- A PUBLISH body against what is decoded from it.
use inkwell.Prelude.{
  ℕ, zero, suc, ◌+◌, ◌-◌, ◌*◌, ◌/◌, ◌%◌, ◌^◌, ◌≤◌, ◌<◌, ◌≡◌, arith, [], ◌∷◌, ◌++◌, Bytes, IsByte,
  All, low_bits, shr, length, length-take, length-drop, take, take-append-drop, drop, drop-add,
  get_or-drop, ltb, lt→ltb, if◌then◌else◌, ok, refl, ◌⊎◌, inl, inr,
}
use inkwell.Codec.Mqtt.Packet.{Incoming, read_u16, write_u16}
use inkwell.Codec.Mqtt.Decode.{decode_publish, publish_body, incoming}

-- Two bytes read and written again.
restore_two :
    (bytes : Bytes)
    → All IsByte bytes
    → 2 ≤ length bytes
    → write_u16 (read_u16 bytes 0) ++ drop 2 bytes ≡ bytes
unfolding write_u16 read_u16
restore_two [] all h = absurd (omega arith)
restore_two (a ∷ []) all h = absurd (omega arith)
restore_two (a ∷ b ∷ bytes) (ha, (hb, all)) h = rw (high, low)
  where
    high : (a * 256 + b) / 2 ^ 8 % 256 ≡ a
    high = omega arith

    low : (a * 256 + b) % 2 ^ 8 ≡ b
    low = omega arith

All-drop : (n : ℕ) (bytes : Bytes) → All IsByte bytes → All IsByte (drop n bytes)
All-drop zero bytes all = all
All-drop (suc n) [] all = tt
All-drop (suc n) (x ∷ bytes) all = All-drop n bytes all.1

-- The packet id, which is on the wire only above QoS 0.
abbrev pub id_bytes : Incoming → Bytes
id_bytes m = if ltb 0 m.qos then write_u16 m.packet_id else []

-- The bytes of a PUBLISH body that says `m`.
abbrev pub body_bytes : Incoming → Bytes
body_bytes m = write_u16 (length m.topic) ++ (m.topic ++ (id_bytes m ++ m.payload))

read_u16-drop : (n : ℕ) (bytes : Bytes) → read_u16 bytes n ≡ read_u16 (drop n bytes) 0
unfolding read_u16
read_u16-drop n bytes =
    omega (arith, rw here at (get_or-drop n 0 bytes 0), rw next at (get_or-drop n 1 bytes 0))
  where
    here : 0 + n ≡ n
    here = omega arith

    next : 1 + n ≡ n + 1
    next = omega arith

behind :
    (body : Bytes) (offset : ℕ)
    → All IsByte body
    → 2 ≤ length body - offset
    → write_u16 (read_u16 body offset) ++ drop (offset + 2) body ≡ drop offset body
behind body offset all h =
    rw (read_u16-drop offset body, drop-add offset 2 body)
      (restore_two (drop offset body) (All-drop offset body all)
        (omega (arith, length-drop offset body)))

publish_checks :
    (flags : ℕ) (body : Bytes) (m : Incoming)
    → decode_publish flags body ≡ ok m
    → (low_bits (shr flags 1) 2 ≤ 2)
      × (2 ≤ length body)
      × (0 < read_u16 body 0)
      × (publish_body flags (low_bits (shr flags 1) 2) body (read_u16 body 0) ≡ ok m)
unfolding decode_publish
publish_checks flags body m e = ground arith

-- The two shapes of a body, by the QoS.
publish_shapes :
    (flags qos topic_len : ℕ) (body : Bytes) (m : Incoming)
    → publish_body flags qos body topic_len ≡ ok m
    → (2 + topic_len ≤ length body)
      × (((qos ≡ 0) × (m ≡ incoming flags qos body topic_len 0 (2 + topic_len)))
          ⊎ ((0 < qos)
              × (2 ≤ length body - (2 + topic_len))
              × (m
                  ≡ incoming flags qos body topic_len
                      (read_u16 body (2 + topic_len))
                      (2 + topic_len + 2))))
unfolding publish_body
publish_shapes flags qos topic_len body m e = ground arith

length-topic : (body : Bytes) (n : ℕ) → 2 + n ≤ length body → length (take n (drop 2 body)) ≡ n
length-topic body n h = omega (arith, length-take n (drop 2 body), length-drop 2 body)

-- The topic's length and the topic, and what is behind them.
restore_topic :
    (body : Bytes) (n : ℕ)
    → All IsByte body
    → 2 ≤ length body
    → n ≡ read_u16 body 0
    → 2 + n ≤ length body
    → write_u16 (length (take n (drop 2 body))) ++ (take n (drop 2 body) ++ drop (2 + n) body)
      ≡ body
restore_topic body n all two e h =
    rw (length-topic body n h, drop-add 2 n body, take-append-drop n (drop 2 body), e)
      (restore_two body all two)

-- A PUBLISH that is decoded is exactly what the body says: the body is the length-prefixed topic,
-- which is not empty, the packet id where the QoS is above 0, and the payload, with nothing left
-- over and nothing read from outside it.
pub decode_publish_lossless :
    (flags : ℕ) (body : Bytes) (m : Incoming)
    → All IsByte body
    → decode_publish flags body ≡ ok m
    → (m.qos ≤ 2) × (0 < length m.topic) × (body_bytes m ≡ body)
unfolding incoming
decode_publish_lossless flags body m all e =
    let (qos, two, some_topic, rest) = publish_checks flags body m e in
    let n = read_u16 body 0 in
    let (fits, shape) = publish_shapes flags (low_bits (shr flags 1) 2) n body m rest in
    elim shape [
      | inl (zero_qos, found) ↦ rw found (
        qos,
        omega (arith, length-topic body n fits),
        rw zero_qos (restore_topic body n all two refl fits),
      )
      | inr (above, room, found) ↦ rw found (
        qos,
        omega (arith, length-topic body n fits),
        rw (lt→ltb 0 _ above, behind body (2 + n) all room)
            (restore_topic body n all two refl fits),
      )
    ]
