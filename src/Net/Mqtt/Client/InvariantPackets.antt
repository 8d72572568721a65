-- ===== src/Net/Mqtt/Client/InvariantPackets.antt =====
-- The packets that net/mqtt.c is handed keep the invariant of the client.
use inkwell.Prelude.{
  ℕ, ◌≡◌, refl, Bool, true, false, not, Option, none, some, Bytes, length, leb, ◌==◌, if◌then◌else◌,
  Result, ok, err,
}
use inkwell.Codec.Mqtt.Packet.{
  PacketType, connack, publish, puback, pubrec, pubrel, pubcomp, suback, unsuback, pingresp, Header,
  Incoming,
}
use inkwell.Codec.Mqtt.Decode.{decode_connack, decode_publish, decode_suback}
use inkwell.Net.Mqtt.Queue.{Queue}
use inkwell.Net.Mqtt.Client.{
  ClientState, off, resolving, connecting, securing, greeting, ready, waiting, is_state, protocol,
  Proxy, Host,
}
use inkwell.Net.Mqtt.Client.Failing.{set_state, fail_own}
use inkwell.Net.Mqtt.Client.Packets.{
  accepted, topic_max, count_received, welcomed, on_connack_code, on_connack, on_suback_id,
  on_suback, deliver, on_publish, handle_packet,
}
use inkwell.Net.Mqtt.Client.Invariant.{
  Facts, IsConsistent, IsLive, WellBehaved, set_state-IsConsistent, fail_own-IsConsistent,
}
use inkwell.Net.Mqtt.Client.InvariantSending.{keep_either, pump_subscribes-IsConsistent}

-- A subscription in flight may be forgotten.
pub forget_subscription :
    {has_socket : Bool} {q : Queue} {b : Bytes} {k i d r n : ℕ} (s : ClientState)
    → Facts s has_socket q b k i d r n
    → Facts s has_socket q b k 0 d r n
forget_subscription off f =
    let (link, rest, bytes, skip, id) = f.by_state in
    record { by_state = (link, rest, bytes, skip, refl); clock = f.clock }
forget_subscription resolving f =
    let (link, rest, bytes, skip, id) = f.by_state in
    record { by_state = (link, rest, bytes, skip, refl); clock = f.clock }
forget_subscription waiting f =
    let (soon, (link, rest, bytes, skip, id)) = f.by_state in
    record { by_state = (soon, (link, rest, bytes, skip, refl)); clock = f.clock }
forget_subscription connecting f = record { by_state = f.by_state; clock = f.clock }
forget_subscription securing f = record { by_state = f.by_state; clock = f.clock }
forget_subscription greeting f = record { by_state = f.by_state; clock = f.clock }
forget_subscription ready f = record { by_state = f.by_state; clock = f.clock }

module _ (h : Host) (behaved : WellBehaved h) where
  either_outcome :
      (b : Bool) (q r : Bool × Proxy h.Env)
      → IsConsistent q.1
      → IsConsistent r.1
      → IsConsistent (if b then q else r).1
  either_outcome true q r this that = this
  either_outcome false q r this that = that

  welcomed-IsConsistent :
      (r : Bool × Proxy h.Env) → IsConsistent r.1 → IsConsistent (welcomed h r).1
  unfolding welcomed
  welcomed-IsConsistent (true, p) facts =
      pump_subscribes-IsConsistent h behaved _ (forget_subscription p.state facts)
  welcomed-IsConsistent (false, p) facts = facts

  on_connack_code-IsConsistent :
      (p : Proxy h.Env) (code : ℕ) → IsLive p → IsConsistent (on_connack_code h p code).1
  unfolding on_connack_code
  on_connack_code-IsConsistent p code (live, facts) =
      either_outcome (not (code == 0)) _ _ (fail_own-IsConsistent h behaved p _ code facts.clock) (
        welcomed-IsConsistent (set_state h (accepted h p) ready) (
          set_state-IsConsistent h behaved (accepted h p) ready
            (record { by_state = live; clock = facts.clock })))

  connack_decoded-IsConsistent :
      (p : Proxy h.Env) (decoded : Result (ℕ × Bool))
      → IsLive p
      → IsConsistent
          (elim decoded as (λ d. Bool × Proxy h.Env) [
            | err e ↦ (false, fail_own h p protocol 0)
            | ok (code, session) ↦ on_connack_code h p code
          ]).1
  connack_decoded-IsConsistent p (err e) (live, facts) =
      fail_own-IsConsistent h behaved p protocol 0 facts.clock
  connack_decoded-IsConsistent p (ok (code, session)) live =
      on_connack_code-IsConsistent p code live

  on_connack-IsConsistent :
      (p : Proxy h.Env) (body : Bytes) → IsLive p → IsConsistent (on_connack h p body).1
  unfolding on_connack
  on_connack-IsConsistent p body (live, facts) =
      either_outcome (not (is_state p.state greeting)) _ _
        (fail_own-IsConsistent h behaved p protocol 0 facts.clock)
        (connack_decoded-IsConsistent p (decode_connack (some body)) (live, facts))

  suback_decoded-IsConsistent :
      (p : Proxy h.Env) (decoded : Result (ℕ × ℕ))
      → IsConsistent p
      → IsConsistent
          (elim decoded as (λ d. Bool × Proxy h.Env) [
            | err e ↦ (false, fail_own h p protocol 0)
            | ok (id, code) ↦ on_suback_id h p id
          ]).1
  unfolding on_suback_id
  suback_decoded-IsConsistent p (err e) facts =
      fail_own-IsConsistent h behaved p protocol 0 facts.clock
  suback_decoded-IsConsistent p (ok (id, code)) facts =
      either_outcome (not (id == p.subscribe_id)) _ _ facts
        (pump_subscribes-IsConsistent h behaved _ (forget_subscription p.state facts))

  on_suback-IsConsistent :
      (p : Proxy h.Env) (body : Bytes) → IsConsistent p → IsConsistent (on_suback h p body).1
  unfolding on_suback
  on_suback-IsConsistent p body facts =
      suback_decoded-IsConsistent p (decode_suback (some body)) facts

  deliver-IsConsistent :
      (m : Option (Bytes → Bytes → Proxy h.Env → Proxy h.Env)) (p : Proxy h.Env)
      (message : Incoming)
      → h.on_message ≡ m
      → IsConsistent p
      → IsConsistent (deliver h m p message)
  unfolding deliver
  deliver-IsConsistent none p message e facts = facts
  deliver-IsConsistent (some f) p message e facts =
      keep_either h (leb topic_max (length message.topic)) _ _ facts
        (behaved.message_told f message.topic message.payload (count_received h p) e facts)

  publish_decoded-IsConsistent :
      (p : Proxy h.Env) (decoded : Result Incoming)
      → IsConsistent p
      → IsConsistent
          (elim decoded as (λ d. Bool × Proxy h.Env) [
            | err e ↦ (false, fail_own h p protocol 0)
            | ok m ↦ (true, deliver h h.on_message p m)
          ]).1
  publish_decoded-IsConsistent p (err e) facts =
      fail_own-IsConsistent h behaved p protocol 0 facts.clock
  publish_decoded-IsConsistent p (ok m) facts = deliver-IsConsistent h.on_message p m refl facts

  handle_type-IsConsistent :
      (p : Proxy h.Env) (header : Header) (body : Bytes) (t : PacketType)
      → header.type ≡ t
      → IsLive p
      → IsConsistent (handle_packet h p header body).1
  unfolding handle_packet on_publish
  handle_type-IsConsistent p header body connack e live = rw e (on_connack-IsConsistent p body live)
  handle_type-IsConsistent p header body suback e live = rw e (on_suback-IsConsistent p body live.1)
  handle_type-IsConsistent p header body publish e live =
      rw e (publish_decoded-IsConsistent p (decode_publish header.flags body) live.1)
  handle_type-IsConsistent p header body pingresp e live = rw e live.1
  handle_type-IsConsistent p header body puback e live = rw e live.1
  handle_type-IsConsistent p header body pubrec e live = rw e live.1
  handle_type-IsConsistent p header body pubrel e live = rw e live.1
  handle_type-IsConsistent p header body pubcomp e live = rw e live.1
  handle_type-IsConsistent p header body unsuback e live = rw e live.1
  handle_type-IsConsistent p header body _ e live =
      rw e (fail_own-IsConsistent h behaved p protocol 0 live.1.clock)

  pub handle_packet-IsConsistent :
      (p : Proxy h.Env) (header : Header) (body : Bytes)
      → IsLive p
      → IsConsistent (handle_packet h p header body).1
  handle_packet-IsConsistent p header body live =
      handle_type-IsConsistent p header body header.type refl live
