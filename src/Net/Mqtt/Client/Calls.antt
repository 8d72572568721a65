-- ===== src/Net/Mqtt/Client/Calls.antt =====
-- The public calls of net/mqtt.c.
use inkwell.Prelude.{
  u64, same_bytes, ℕ, ◌+◌, ◌-◌, Bool, true, false, ◌&&◌, ◌||◌, not, Option, none, some, List, ◌∷◌,
  Bytes, [], ◌++◌, u32, length, ltb, leb, ◌==◌, if◌then◌else◌, ok, err, Errno, enospc,
}
use inkwell.Net.Mqtt.Address.{address_max, target_split}
use inkwell.Base.Text.Copy.{str_copy}
use inkwell.Net.Reason.{closed, timed_out, ResolveOutcome}
use inkwell.Codec.Mqtt.Packet.{pingreq, disconnect}
use inkwell.Codec.Mqtt.Encode.{encode_publish, encode_empty, topic_is_publishable}
use inkwell.Net.Mqtt.Inbound.{packet_max}
use inkwell.Net.Mqtt.Client.{
  off, greeting, ready, waiting, is_state, no_detail, empty_queue, no_failure, Config, Proxy, Host,
  ping_interval_ms, silence_timeout_ms,
}
use inkwell.Net.Mqtt.Client.Failing.{set_state, close, fail_net}
use inkwell.Net.Mqtt.Client.Sending.{
  raw_write, Queued, queued, no_room, broken, queue_out, pump_subscribes,
}
use inkwell.Net.Mqtt.Client.Reading.{read_ready}
use inkwell.Net.Mqtt.Client.Connecting.{attempt, on_resolved}

abbrev pub filters_max : ℕ
filters_max = 16

abbrev pub filter_max : ℕ
filter_max = 256

-- What a call returns.
pub data Reply : Type 0 where
  done invalid not_connected too_large full exists_already : Reply
  write_errno : ℕ → Reply

pub has_filter : List Bytes → Bytes → Bool
has_filter [] filter = false
has_filter (x ∷ filters) filter =
    let rest = has_filter filters filter in if same_bytes x filter then true else rest

pub encode_reply : Errno → Reply
encode_reply enospc = too_large
encode_reply _ = invalid

abbrev pub ca_bundle_max : ℕ
ca_bundle_max = 256

module _ (h : Host) where
  unfoldable pub client_init : h.Env → Proxy h.Env
  client_init env = record {
    env = h.resolve_init env;
    state = off;
    config = record {
      address = [];
      username = [];
      password = [];
      client_id = [];
      tls_enabled = false;
    };
    host = [];
    port = 0;
    ca_bundle = [];
    has_socket = false;
    want_write = false;
    generation = 0;
    buffered = [];
    skip_remaining = 0;
    more_to_read = false;
    read_wants_write = false;
    queue = empty_queue;
    filters = [];
    filter_sent = 0;
    subscribe_id = 0;
    now_ms = 0;
    deadline_ms = 0;
    next_ping_ms = 0;
    last_heard_ms = 0;
    retry_at_ms = 0;
    failures = 0;
    stats = record { published = 0; received = 0; dropped = 0; skipped = 0; connections = 0 };
    failure = no_failure;
  }

  unfoldable pub shutdown : Proxy h.Env → Proxy h.Env
  shutdown p =
      let q = close h (record p { generation = u64 (p.generation + 1) }) in
      record q { env = h.resolve_shutdown q.env; state = off }

  -- `none` is a path that is NULL.
  unfoldable pub set_ca_bundle : Proxy h.Env → Option Bytes → Proxy h.Env
  set_ca_bundle p none = record p { ca_bundle = [] }
  set_ca_bundle p (some path) = elim (str_copy (some ca_bundle_max) (some path)).0 [
    | none ↦ p
    | some copied ↦ record p { ca_bundle = copied }
  ]

  abbrev pub started : Proxy h.Env → Config → Bytes → ℕ → ℕ → Proxy h.Env
  started p config host port now_ms =
      let q = close h (record p { generation = u64 (p.generation + 1) }) in
      record q {
        now_ms = now_ms;
        config = config;
        failures = 0;
        retry_at_ms = 0;
        failure = no_failure;
        host = host;
        port = if port == 0 then (if config.tls_enabled then 8883 else 1883) else port;
      }

  unfoldable pub start : Proxy h.Env → Config → ℕ → Reply × Proxy h.Env
  start p config now_ms =
      if length config.address == 0 || length config.client_id == 0
      then (invalid, p)
      else elim (target_split (some config.address) address_max) [
        | err e ↦ (invalid, p)
        | ok (host, port) ↦ (done, attempt h (started p config host port now_ms))
      ]

  -- A DISCONNECT on the way out, best effort.
  pub farewell : Proxy h.Env → h.Env
  farewell p =
      if is_state p.state ready
      then elim (encode_empty (some 2) disconnect) [
        | ok packet ↦ (raw_write h p.env packet.bytes).1
        | err e ↦ p.env
      ]
      else p.env

  abbrev pub stopped : Proxy h.Env → Proxy h.Env
  stopped p =
      let q = close h (record p { env = farewell p; generation = u64 (p.generation + 1) }) in
      record q { failure = no_failure; failures = 0; retry_at_ms = 0 }

  unfoldable pub stop_client : Proxy h.Env → Proxy h.Env
  unfolding farewell
  stop_client p = if is_state p.state off then p else (set_state h (stopped p) off).1

  unfoldable pub subscribe_to : Proxy h.Env → Bytes → Reply × Proxy h.Env
  unfolding has_filter
  subscribe_to p filter =
      if length filter == 0 || leb filter_max (length filter)
      then (invalid, p)
      else if has_filter p.filters filter
      then (exists_already, p)
      else if leb filters_max (length p.filters)
      then (full, p)
      else (done, pump_subscribes h (record p { filters = p.filters ++ (filter ∷ []) }))

  unfoldable pub clear_filters : Proxy h.Env → Proxy h.Env
  clear_filters p = record p { filters = []; filter_sent = 0; subscribe_id = 0 }

  abbrev pub count_dropped : Proxy h.Env → Proxy h.Env
  count_dropped p = record p { stats = record p.stats { dropped = u32 (p.stats.dropped + 1) } }

  unfoldable pub after_publish : Proxy h.Env × Queued h → Reply × Proxy h.Env
  after_publish (p, queued) =
      (done, record p { stats = record p.stats { published = u32 (p.stats.published + 1) } })
  after_publish (p, no_room) = (full, count_dropped p)
  after_publish (p, broken errno) =
      (write_errno errno, fail_net h (count_dropped p) closed no_detail)

  unfoldable pub publish_message : Proxy h.Env → Bytes → Bytes → Bool → Reply × Proxy h.Env
  unfolding after_publish encode_reply
  publish_message p topic payload retained =
      if not (is_state p.state ready)
      then (not_connected, count_dropped p)
      else if not (topic_is_publishable (some topic))
      then (invalid, count_dropped p)
      else elim (encode_publish (some packet_max) (some topic) payload retained) [
        | err e ↦ (encode_reply e, count_dropped p)
        | ok packet ↦ after_publish (queue_out h p packet.bytes)
      ]

  abbrev pub after_ping : ℕ → Proxy h.Env × Queued h → Proxy h.Env
  after_ping now_ms (p, queued) = record p { next_ping_ms = u64 (now_ms + ping_interval_ms) }
  after_ping now_ms (p, no_room) = fail_net h p closed no_detail
  after_ping now_ms (p, broken errno) = fail_net h p closed no_detail

  unfoldable pub keep_alive : Proxy h.Env → ℕ → Proxy h.Env
  keep_alive p now_ms =
      if not (p.next_ping_ms == 0) && leb p.next_ping_ms now_ms
      then elim (encode_empty (some 2) pingreq) [
        | err e ↦ p
        | ok packet ↦ after_ping now_ms (queue_out h p packet.bytes)
      ]
      else p

  -- On a connection that is ready.
  unfoldable pub tick_ready : Proxy h.Env → ℕ → Proxy h.Env
  unfolding keep_alive
  tick_ready p now_ms =
      if not (is_state p.state ready)
      then p
      else if not (p.last_heard_ms == 0)
          && ltb p.last_heard_ms now_ms
          && ltb silence_timeout_ms (now_ms - p.last_heard_ms)
      then fail_net h p timed_out no_detail
      else keep_alive p now_ms

  abbrev pub read_more : Proxy h.Env → Proxy h.Env
  read_more p =
      if p.more_to_read && (is_state p.state greeting || is_state p.state ready)
      then read_ready h p
      else p

  unfoldable pub tick_state : Proxy h.Env → ℕ → Proxy h.Env
  unfolding tick_ready
  tick_state p now_ms =
      if is_state p.state off
      then p
      else if is_state p.state waiting
      then (if leb p.retry_at_ms now_ms then attempt h p else p)
      else if not (p.deadline_ms == 0) && leb p.deadline_ms now_ms
      then fail_net h p timed_out no_detail
      else tick_ready (read_more p) now_ms

  -- What the resolver leaves, and the call back where the lookup is complete.
  abbrev pub after_resolve :
      Proxy h.Env → Option (ResolveOutcome × h.Address × ℕ) × h.Env → Proxy h.Env
  after_resolve p (none, env) = record p { env = env }
  after_resolve p (some result, env) = on_resolved h (record p { env = env }) result

  -- The resolver's own event of the loop, outside of any tick.
  unfoldable pub resolve_event : Proxy h.Env → ℕ → Proxy h.Env
  resolve_event p events = after_resolve p (h.resolve_output p.env events)

  -- The resolver's tick may bring its result, which calls back into the client.
  unfoldable pub tick : Proxy h.Env → ℕ → Proxy h.Env
  unfolding tick_state
  tick p now_ms =
      let q = record p { now_ms = now_ms } in
      tick_state (after_resolve q (h.resolve_tick q.env now_ms)) now_ms
