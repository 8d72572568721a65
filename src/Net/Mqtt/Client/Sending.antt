-- ===== src/Net/Mqtt/Client/Sending.antt =====
-- What the client of net/mqtt.c writes: its queue over the socket or the TLS session, and the
-- subscriptions.
use inkwell.Prelude.{
  u64, ℕ, zero, suc, ◌+◌, ◌-◌, Bool, true, false, ◌&&◌, ◌||◌, not, Option, none, some, Bytes, [],
  u16, length, get_or, ltb, ◌==◌, if◌then◌else◌, ok, err,
}
use inkwell.Net.Reason.{closed}
use inkwell.Codec.Mqtt.Encode.{encode_subscribe}
use inkwell.Net.Mqtt.Queue.{
  Queue, Answer, wrote, would_block, failed, Transport, Flushed, flush, queue_packet,
}
use inkwell.Net.Mqtt.Client.{
  connecting, ready, is_state, no_detail, Proxy, Sent, sent, send_interrupted, send_would_block,
  send_failed, Host, ping_interval_ms,
}
use inkwell.Net.Mqtt.Client.Failing.{fail_net}

-- An interrupted call and a would-block are one answer.
pub socket_answer : Sent → Answer
socket_answer (sent n) = wrote n
socket_answer send_interrupted = would_block
socket_answer send_would_block = would_block
socket_answer (send_failed errno) = failed errno

abbrev pub eq_bool : Bool → Bool → Bool
eq_bool true b = b
eq_bool false b = not b

module _ (h : Host) where
  pub raw_write : h.Env → Bytes → Answer × h.Env
  unfolding socket_answer
  raw_write env bytes =
      if h.tls_active env
      then h.tls_write env bytes
      else let (answer, env') = h.socket_send env bytes in (socket_answer answer, env')

  -- The queue's transport; what has left by it is known to the environment.
  abbrev pub transport : (h.Env → Bytes) → Transport
  transport wire = record { State = h.Env; write = raw_write; wire = wire }

  -- A write that waits on the loop: for the connect, for the queue, or for TLS.
  pub wants_write : Proxy h.Env → Bool
  wants_write p =
      is_state p.state connecting
      || ltb p.queue.out_sent (length p.queue.out)
      || (h.tls_active p.env && (h.tls_wants_write p.env || p.read_wants_write))

  unfoldable pub arm : Proxy h.Env → Proxy h.Env
  unfolding wants_write
  arm p =
      let want = wants_write p in
      if not p.has_socket
      then p
      else if eq_bool want p.want_write
      then p
      else record p { want_write = want; env = h.update_watch p.env want }

  -- Behind the loop of `mqtt_flush`: what went out counts as a ping. The errno is a fatal one.
  unfoldable pub flushed : Proxy h.Env → Flushed (transport (λ env. [])) → Proxy h.Env × Option ℕ
  unfolding arm
  flushed p f =
      let q = record p { queue = f.queue; env = f.state } in
      let told =
        if f.sent_something
        then record q { next_ping_ms = u64 (p.now_ms + ping_interval_ms) }
        else q in
      elim f.fatal [ some errno ↦ (q, some errno) | none ↦ (arm told, none) ]

  unfoldable pub flush_out : Proxy h.Env → Proxy h.Env × Option ℕ
  unfolding flushed
  flush_out p = flushed p (flush (transport (λ env. [])) p.queue p.env)

  pub data Queued : Type 0 where
    queued no_room : Queued
    broken : ℕ → Queued

  abbrev pub outcome_of : Proxy h.Env × Option ℕ → Proxy h.Env × Queued
  outcome_of (p, none) = (p, queued)
  outcome_of (p, some errno) = (p, broken errno)

  abbrev pub after_queue :
      Proxy h.Env → Queue × Option (Flushed (transport (λ env. []))) → Proxy h.Env × Queued
  after_queue p (left, none) = (record p { queue = left }, no_room)
  after_queue p (left, some f) = outcome_of (flushed p f)

  unfoldable pub queue_out : Proxy h.Env → Bytes → Proxy h.Env × Queued
  unfolding flushed
  queue_out p packet = after_queue p (queue_packet (transport (λ env. [])) p.queue p.env packet)

  abbrev pub after_subscribe : ℕ → Proxy h.Env × Queued → Proxy h.Env
  after_subscribe id (p, queued) = record p { subscribe_id = id }
  after_subscribe id (p, no_room) = p
  after_subscribe id (p, broken errno) = fail_net h p closed no_detail

  -- The first filter from `filter_sent` on that can be encoded; `left` are the filters behind it.
  unfoldable pub pump_loop : ℕ → Proxy h.Env → Proxy h.Env
  unfolding queue_out
  pump_loop zero p = p
  pump_loop (suc left) p =
      let id = u16 (p.filter_sent + 1) in
      elim (encode_subscribe (some 272) id (some (get_or p.filters p.filter_sent []))) [
        | ok packet ↦ after_subscribe id (queue_out p packet.bytes)
        | err e ↦ pump_loop left (record p { filter_sent = p.filter_sent + 1 })
      ]

  unfoldable pub pump_subscribes : Proxy h.Env → Proxy h.Env
  unfolding pump_loop
  pump_subscribes p =
      if not (is_state p.state ready) || not (p.subscribe_id == 0)
      then p
      else pump_loop (length p.filters - p.filter_sent) p
