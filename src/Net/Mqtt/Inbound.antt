-- ===== src/Net/Mqtt/Inbound.antt =====
-- The inbound buffer of net/mqtt.c: whole packets are taken off its front. `buffered` holds the
-- `in_len` bytes in use, and a round drops what the source's `at` has passed. What a packet does to
-- the client is a parameter.
pub mod Framing
pub mod Progress
pub mod Rounds
mod Tests
use inkwell.Prelude.{
  ℕ, zero, suc, ◌+◌, ◌-◌, Bool, Option, none, some, Bytes, length, take, drop, ltb, if◌then◌else◌,
  Result, ok, err, ◌⊎◌, inl, inr,
}
use inkwell.Codec.Mqtt.Packet.{Header}
use inkwell.Codec.Mqtt.Decode.{decode_header}

abbrev pub packet_max : ℕ
packet_max = 1024

-- What a handler leaves: the client going on, or its connection gone.
pub data Handled {ℓ} (C : Type ℓ) : Type ℓ where
  going : C → Handled C
  gone : C → Handled C

-- The rest of the client: `mqtt_handle` on a header and its body, with the tests behind the call;
-- the failure that says "not MQTT"; and the count of skipped messages.
pub record Client : Type 1 where
  pub State : Type 0
  pub handle : State → Header → Bytes → Handled State
  pub fail_protocol : State → State
  pub count_skipped : State → State

pub record Inbound (C : Type 0) : Type 0 where
  pub buffered : Bytes
  pub skip_remaining : ℕ
  pub client : C

-- A round of the loop: again, `break`, or `return false`.
pub data Round (C : Type 0) : Type 0 where
  again : Inbound C → Round C
  stop : Inbound C → Round C
  dropped : C → Round C

module _ (c : Client) where
  -- Counting an oversized message off the stream.
  pub skip_round : Inbound c.State → Round c.State
  skip_round i =
      let have = length i.buffered in
      let chunk = if ltb i.skip_remaining have then i.skip_remaining else have in
      let left = i.skip_remaining - chunk in
      let rest = record i { buffered = drop chunk i.buffered; skip_remaining = left } in
      if ltb 0 left then stop rest else again rest

  unfoldable pub after_handle : Bytes → Handled c.State → Round c.State
  after_handle rest (going s) = again (record { buffered = rest; skip_remaining = 0; client = s })
  after_handle rest (gone s) = dropped s

  pub packet_round : Inbound c.State → Header → Round c.State
  packet_round i h =
      let body = drop h.header_len i.buffered in
      if ltb (packet_max - h.header_len) h.remaining
      then again (record {
        buffered = body;
        skip_remaining = h.remaining;
        client = c.count_skipped i.client;
      })
      else if ltb (length i.buffered) (h.header_len + h.remaining)
      then stop i
      else after_handle (drop h.remaining body) (c.handle i.client h (take h.remaining body))

  pub header_round : Inbound c.State → Result (Option Header) → Round c.State
  header_round i (ok none) = stop i
  header_round i (ok (some h)) = packet_round i h
  header_round i (err e) = dropped (c.fail_protocol i.client)

  pub round : Inbound c.State → Round c.State
  round i =
      if ltb 0 i.skip_remaining
      then skip_round i
      else header_round i (decode_header (some i.buffered))

  -- What a round leaves to do; `inr` is false, the connection is gone.
  unfoldable pub resume :
      (Inbound c.State → Inbound c.State ⊎ c.State) → Round c.State → Inbound c.State ⊎ c.State
  resume rest (again i) = rest i
  resume rest (stop i) = inl i
  resume rest (dropped s) = inr s

  unfoldable pub consume_loop : ℕ → Inbound c.State → Inbound c.State ⊎ c.State
  consume_loop zero i = inl i
  consume_loop (suc fuel) i = resume (consume_loop fuel) (round i)

  -- Each round that goes on takes a byte at least; the last one finds none.
  unfoldable pub consume : Inbound c.State → Inbound c.State ⊎ c.State
  consume i = consume_loop (suc (length i.buffered)) i
