-- ===== src/Net/Mqtt/Client/Connecting.antt =====
-- How an attempt of net/mqtt.c is made: lookup, socket, TLS, CONNECT.
use inkwell.Prelude.{
  u64, ℕ, ◌+◌, Bool, true, false, ◌&&◌, ◌||◌, not, Option, none, some, Bytes, length, ◌==◌,
  if◌then◌else◌, ok, err,
}
use inkwell.Net.Reason.{
  NetErrno, enobufs, einprogress, closed, lookup_failed, ResolveOutcome, resolve_ok,
  reason_from_errno, reason_from_resolve,
}
use inkwell.Codec.Mqtt.Packet.{ConnectParams}
use inkwell.Codec.Mqtt.Encode.{encode_connect}
use inkwell.Net.Mqtt.Client.{
  resolving, connecting, securing, greeting, is_state, bad_address, no_tls, no_detail, of_errno,
  of_code, no_failure, Config, Proxy, Handshake, shaken, handshake_waits, handshake_failed,
  TlsStart, tls_started, tls_unsupported, tls_start_failed, Host, connect_timeout_ms,
  handshake_timeout_ms,
}
use inkwell.Net.Mqtt.Client.Failing.{set_state, fail_net, fail_own, fail_tls}
use inkwell.Net.Mqtt.Client.Sending.{arm, Queued, queued, no_room, broken, queue_out, flush_out}
use inkwell.Net.Mqtt.Client.Reading.{read_ready}

abbrev keepalive_s : ℕ
keepalive_s = 60

abbrev non_empty : Bytes → Option Bytes
non_empty text = if length text == 0 then none else some text

abbrev pub connect_params : Config → ConnectParams
connect_params config = record {
  client_id = some config.client_id;
  username = non_empty config.username;
  password = non_empty config.password;
  keepalive_s = keepalive_s;
  clean_session = true;
}

-- What the loop reports of the descriptor.
pub record Events : Type 0 where
  pub readable : Bool
  pub writable : Bool
  pub error : Bool
  pub hangup : Bool

module _ (h : Host) where
  abbrev pub greeted : Proxy h.Env → Proxy h.Env
  greeted p = record p {
    deadline_ms = u64 (p.now_ms + handshake_timeout_ms);
    last_heard_ms = p.now_ms;
  }

  unfoldable pub after_connect : Proxy h.Env × Queued h → Proxy h.Env
  after_connect (p, queued) = (set_state h (greeted p) greeting).1
  after_connect (p, no_room) = fail_net h p (reason_from_errno enobufs) (of_errno enobufs)
  after_connect (p, broken errno) = fail_net h p (reason_from_errno enobufs) (of_errno enobufs)

  unfoldable pub send_connect : Proxy h.Env → Proxy h.Env
  unfolding after_connect
  send_connect p = elim (encode_connect (some 416) (some (connect_params p.config))) [
    | err e ↦ fail_own h p bad_address 0
    | ok packet ↦ after_connect (queue_out h p packet.bytes)
  ]

  unfoldable pub after_handshake : Proxy h.Env → Handshake × h.Env → Proxy h.Env
  unfolding send_connect
  after_handshake p (handshake_waits, env) = arm h (record p { env = env })
  after_handshake p (handshake_failed, env) = fail_tls h (record p { env = env })
  after_handshake p (shaken, env) = send_connect (record p { env = env })

  unfoldable pub secure : Proxy h.Env → Proxy h.Env
  unfolding after_handshake
  secure p = after_handshake p (h.tls_handshake p.env)

  abbrev pub secure_if : Bool × Proxy h.Env → Proxy h.Env
  secure_if (true, p) = secure p
  secure_if (false, p) = p

  unfoldable pub after_tls_start : Proxy h.Env → TlsStart × h.Env → Proxy h.Env
  unfolding secure
  after_tls_start p (tls_unsupported, env) = fail_own h (record p { env = env }) no_tls 0
  after_tls_start p (tls_start_failed, env) = fail_tls h (record p { env = env })
  after_tls_start p (tls_started, env) = secure_if (
      set_state h (record p { env = env; deadline_ms = u64 (p.now_ms + handshake_timeout_ms) })
        securing)

  unfoldable pub connected : Proxy h.Env → Option NetErrno × h.Env → Proxy h.Env
  unfolding after_tls_start send_connect
  connected p (some errno, env) =
      fail_net h (record p { env = env }) (reason_from_errno errno) (of_errno errno)
  connected p (none, env) =
      if not p.config.tls_enabled
      then send_connect (record p { env = env })
      else after_tls_start (record p { env = env }) (h.tls_start env p.host p.ca_bundle)

  unfoldable pub finish_connect : Proxy h.Env → Proxy h.Env
  unfolding connected
  finish_connect p = connected p (h.pending_error p.env)

  abbrev pub read_if : Bool → Proxy h.Env → Proxy h.Env
  read_if read_now p = if read_now && p.has_socket then read_ready h p else p

  abbrev pub after_flush : Bool → Proxy h.Env × Option ℕ → Proxy h.Env
  after_flush read_now (p, none) = read_if read_now p
  after_flush read_now (p, some errno) = fail_net h p closed no_detail

  -- An event behind the handshakes.
  unfoldable pub flowing_event : Proxy h.Env → Events → Proxy h.Env
  flowing_event p events =
      if events.writable
      then after_flush (events.readable || p.read_wants_write) (flush_out h p)
      else read_if events.readable p

  unfoldable pub connected_event : Proxy h.Env → Events → Proxy h.Env
  unfolding secure flowing_event
  connected_event p events =
      if events.error || events.hangup
      then fail_net h p closed no_detail
      else if is_state p.state securing
      then secure p
      else flowing_event p events

  unfoldable pub connecting_event : Proxy h.Env → Events → Proxy h.Env
  unfolding finish_connect
  connecting_event p events =
      if events.writable || events.error || events.hangup then finish_connect p else p

  unfoldable pub fd_callback : Proxy h.Env → Events → Proxy h.Env
  unfolding connecting_event connected_event
  fd_callback p events =
      if not p.has_socket
      then p
      else if is_state p.state connecting
      then connecting_event p events
      else connected_event p events

  -- The socket is watched before it connects.
  unfoldable pub after_socket_connect : Proxy h.Env → Option NetErrno × h.Env → Proxy h.Env
  after_socket_connect p (some einprogress, env) =
      (set_state h (record p { env = env; deadline_ms = u64 (p.now_ms + connect_timeout_ms) })
        connecting).1
  after_socket_connect p (none, env) =
      (set_state h (record p { env = env; deadline_ms = u64 (p.now_ms + connect_timeout_ms) })
        connecting).1
  after_socket_connect p (some errno, env) =
      fail_net h (record p { env = env }) (reason_from_errno errno) (of_errno errno)

  unfoldable pub after_watch : Proxy h.Env → h.Address → Option NetErrno × h.Env → Proxy h.Env
  unfolding after_socket_connect
  after_watch p address (some errno, env) =
      fail_net h (record p { env = h.socket_close env }) (reason_from_errno errno) (of_errno errno)
  after_watch p address (none, env) =
      after_socket_connect (record p { env = env; has_socket = true; want_write = true })
        (h.socket_connect env address)

  unfoldable pub after_open : Proxy h.Env → h.Address → Option NetErrno × h.Env → Proxy h.Env
  unfolding after_watch
  after_open p address (some errno, env) =
      fail_net h (record p { env = env }) (reason_from_errno errno) (of_errno errno)
  after_open p address (none, env) =
      after_watch (record p { env = env }) address (h.watch_socket env)

  unfoldable pub open_socket : Proxy h.Env → h.Address → Proxy h.Env
  unfolding after_open
  open_socket p address = after_open p address (h.socket_open p.env address)

  unfoldable pub on_resolved : Proxy h.Env → ResolveOutcome × h.Address × ℕ → Proxy h.Env
  unfolding open_socket
  on_resolved p (outcome, address, error) =
      if not (is_state p.state resolving) then p else elim outcome [
        | resolve_ok ↦ open_socket p address
        | failed ↦ fail_net h p (reason_from_resolve failed) (of_code error)
      ]

  unfoldable pub after_resolve_start : Proxy h.Env → Option ℕ × h.Env → Proxy h.Env
  after_resolve_start p (some code, env) =
      fail_net h (record p { env = env }) lookup_failed (of_code code)
  after_resolve_start p (none, env) =
      (set_state h (record p { env = env; deadline_ms = 0 }) resolving).1

  unfoldable pub attempt_to : Proxy h.Env → Option h.Address → Proxy h.Env
  unfolding open_socket after_resolve_start
  attempt_to p (some address) = open_socket p address
  attempt_to p none = after_resolve_start p (h.resolve_start p.env p.host p.port p.now_ms)

  -- One attempt, from whatever the address turns out to be.
  unfoldable pub attempt : Proxy h.Env → Proxy h.Env
  unfolding attempt_to
  attempt p = attempt_to (record p { failure = no_failure }) (h.resolve_literal p.host p.port)
