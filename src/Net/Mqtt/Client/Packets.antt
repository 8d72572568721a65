-- ===== src/Net/Mqtt/Client/Packets.antt =====
-- What the client of net/mqtt.c does with a packet. True is "the connection goes on".
use inkwell.Prelude.{
  ℕ, ◌+◌, Bool, true, false, not, Option, none, some, Bytes, u32, length, leb, ◌==◌, if◌then◌else◌,
  ok, err,
}
use inkwell.Codec.Mqtt.Packet.{
  connack, publish, puback, pubrec, pubrel, pubcomp, suback, unsuback, pingresp, Header, Incoming,
}
use inkwell.Codec.Mqtt.Decode.{decode_connack, decode_publish, decode_suback}
use inkwell.Net.Mqtt.Client.{
  greeting, ready, is_state, protocol, bad_login, not_allowed, broker_busy, other_refusal, Refusal,
  no_failure, Proxy, Host,
}
use inkwell.Net.Mqtt.Client.Failing.{set_state, fail_own}
use inkwell.Net.Mqtt.Client.Sending.{pump_subscribes}

abbrev pub topic_max : ℕ
topic_max = 256

-- Why the broker refused, by the code of its CONNACK.
pub refusal_of : ℕ → Refusal
refusal_of code =
    if code == 4
    then bad_login
    else if code == 5
    then not_allowed
    else if code == 3
    then broker_busy
    else other_refusal

module _ (h : Host) where
  -- The fields that an accepted CONNACK sets before the state.
  abbrev pub accepted : Proxy h.Env → Proxy h.Env
  accepted p = record p {
    failures = 0;
    deadline_ms = 0;
    stats = record p.stats { connections = u32 (p.stats.connections + 1) };
    failure = no_failure;
  }

  -- Behind the state: the whole set of filters goes out again.
  unfoldable pub welcomed : Bool × Proxy h.Env → Bool × Proxy h.Env
  welcomed (true, p) = (true, pump_subscribes h (record p { filter_sent = 0; subscribe_id = 0 }))
  welcomed (false, p) = (false, p)

  unfoldable pub on_connack_code : Proxy h.Env → ℕ → Bool × Proxy h.Env
  unfolding welcomed refusal_of
  on_connack_code p code =
      if not (code == 0)
      then (false, fail_own h p (refusal_of code) code)
      else welcomed (set_state h (accepted p) ready)

  unfoldable pub on_connack : Proxy h.Env → Bytes → Bool × Proxy h.Env
  unfolding on_connack_code
  on_connack p body =
      if not (is_state p.state greeting)
      then (false, fail_own h p protocol 0)
      else elim (decode_connack (some body)) [
        | err e ↦ (false, fail_own h p protocol 0)
        | ok (code, session) ↦ on_connack_code p code
      ]

  unfoldable pub on_suback_id : Proxy h.Env → ℕ → Bool × Proxy h.Env
  on_suback_id p id = if not (id == p.subscribe_id) then (true, p) else (
    true,
    pump_subscribes h (record p { filter_sent = p.filter_sent + 1; subscribe_id = 0 }),
  )

  unfoldable pub on_suback : Proxy h.Env → Bytes → Bool × Proxy h.Env
  unfolding on_suback_id
  on_suback p body = elim (decode_suback (some body)) [
    | err e ↦ (false, fail_own h p protocol 0)
    | ok (id, code) ↦ on_suback_id p id
  ]

  abbrev pub count_skipped : Proxy h.Env → Proxy h.Env
  count_skipped p = record p { stats = record p.stats { skipped = u32 (p.stats.skipped + 1) } }

  abbrev pub count_received : Proxy h.Env → Proxy h.Env
  count_received p = record p { stats = record p.stats { received = u32 (p.stats.received + 1) } }

  unfoldable pub deliver :
      Option (Bytes → Bytes → Proxy h.Env → Proxy h.Env) → Proxy h.Env → Incoming → Proxy h.Env
  deliver none p m = p
  deliver (some on_message) p m =
      if leb topic_max (length m.topic)
      then count_skipped p
      else on_message m.topic m.payload (count_received p)

  unfoldable pub on_publish : Proxy h.Env → ℕ → Bytes → Bool × Proxy h.Env
  unfolding deliver
  on_publish p flags body = elim (decode_publish flags body) [
    | err e ↦ (false, fail_own h p protocol 0)
    | ok m ↦ (true, deliver h.on_message p m)
  ]

  unfoldable pub handle_packet : Proxy h.Env → Header → Bytes → Bool × Proxy h.Env
  unfolding on_connack on_suback on_publish
  handle_packet p header body = elim header.type [
    | connack ↦ on_connack p body
    | suback ↦ on_suback p body
    | publish ↦ on_publish p header.flags body
    | pingresp ↦ (true, p)
    | puback ↦ (true, p)
    | pubrec ↦ (true, p)
    | pubrel ↦ (true, p)
    | pubcomp ↦ (true, p)
    | unsuback ↦ (true, p)
    | _ ↦ (false, fail_own h p protocol 0)
  ]
