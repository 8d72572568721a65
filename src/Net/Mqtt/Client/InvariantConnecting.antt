-- ===== src/Net/Mqtt/Client/InvariantConnecting.antt =====
-- The attempts of net/mqtt.c and the events of its descriptor keep the invariant of the client.
use inkwell.Prelude.{
  u64, ℕ, ◌+◌, ◌≡◌, refl, arith, Bool, true, false, ◌&&◌, ◌||◌, not, Option, none, some, ◌==◌,
  ==_iff, if◌then◌else◌, Bool-cases, inl, inr, Result, ok, err,
}
use inkwell.Net.Reason.{NetErrno, closed}
use inkwell.Codec.Mqtt.Encode.{Packet, encode_connect}
use inkwell.Net.Mqtt.Client.{
  connecting, securing, greeting, is_state, no_detail, bad_address, Proxy, Handshake, shaken,
  handshake_waits, handshake_failed, TlsStart, tls_started, tls_unsupported, tls_start_failed, Host,
  handshake_timeout_ms,
}
use inkwell.Net.Mqtt.Client.Failing.{set_state, fail_net, fail_own}
use inkwell.Net.Mqtt.Client.Sending.{Queued, queued, no_room, broken, queue_out, flush_out}
use inkwell.Net.Mqtt.Client.Reading.{read_ready}
use inkwell.Net.Mqtt.Client.Connecting.{
  Events, connect_params, greeted, after_connect, send_connect, after_handshake, secure, secure_if,
  after_tls_start, connected, finish_connect, read_if, after_flush, flowing_event, connected_event,
  connecting_event, fd_callback,
}
use inkwell.Net.Mqtt.Client.Invariant.{
  of_state, IsConsistent, IsLive, WellBehaved, enter_timed, set_state-IsConsistent,
  fail_net-IsConsistent, fail_own-IsConsistent, fail_tls-IsConsistent,
}
use inkwell.Net.Mqtt.Client.InvariantSending.{
  keep_either, Written-IsLive, arm-IsConsistent, queue_out-Written, flush_out-Written,
}
use inkwell.Net.Mqtt.Client.InvariantReading.{read_ready-IsConsistent}

module _ (h : Host) (behaved : WellBehaved h) where
  after_connect-IsConsistent :
      (r : Proxy h.Env × Queued h) → IsLive r.0 → IsConsistent (after_connect h r)
  unfolding after_connect
  after_connect-IsConsistent (p, queued) (live, facts) =
      set_state-IsConsistent h behaved (greeted h p) greeting
        (enter_timed handshake_timeout_ms live facts.clock (omega arith) (omega arith)).2
  after_connect-IsConsistent (p, no_room) (live, facts) =
      fail_net-IsConsistent h behaved p _ _ facts.clock
  after_connect-IsConsistent (p, broken errno) (live, facts) =
      fail_net-IsConsistent h behaved p _ _ facts.clock

  connect_encoded-IsConsistent :
      (p : Proxy h.Env) (encoded : Result Packet)
      → IsLive p
      → IsConsistent (elim encoded as (λ x. Proxy h.Env) [
        | err e ↦ fail_own h p bad_address 0
        | ok packet ↦ after_connect h (queue_out h p packet.bytes)
      ])
  connect_encoded-IsConsistent p (err e) (live, facts) =
      fail_own-IsConsistent h behaved p bad_address 0 facts.clock
  connect_encoded-IsConsistent p (ok packet) live =
      after_connect-IsConsistent (queue_out h p packet.bytes)
        (Written-IsLive h p _ (queue_out-Written h p packet.bytes) live)

  send_connect-IsConsistent : (p : Proxy h.Env) → IsLive p → IsConsistent (send_connect h p)
  unfolding send_connect
  send_connect-IsConsistent p live =
      connect_encoded-IsConsistent p (encode_connect (some 416) (some (connect_params p.config)))
        live

  after_handshake-IsConsistent :
      (p : Proxy h.Env) (r : Handshake × h.Env) → IsLive p → IsConsistent (after_handshake h p r)
  unfolding after_handshake
  after_handshake-IsConsistent p (handshake_waits, env) (live, facts) =
      arm-IsConsistent h (record p { env = env }) facts
  after_handshake-IsConsistent p (handshake_failed, env) (live, facts) =
      fail_tls-IsConsistent h behaved (record p { env = env }) facts.clock
  after_handshake-IsConsistent p (shaken, env) live =
      send_connect-IsConsistent (record p { env = env }) live

  secure-IsConsistent : (p : Proxy h.Env) → IsLive p → IsConsistent (secure h p)
  unfolding secure
  secure-IsConsistent p live = after_handshake-IsConsistent p (h.tls_handshake p.env) live

  -- Told of the handshake: true only with the connection still there.
  abbrev Told : Bool × Proxy h.Env → Type 0
  Told (true, p) = IsLive p
  Told (false, p) = IsConsistent p

  same_generation-Told :
      (p : Proxy h.Env) (same : Bool)
      → p.has_socket ≡ true
      → ((h.on_state securing p).generation == p.generation) ≡ same
      → IsConsistent (h.on_state securing p)
      → Told (same, h.on_state securing p)
  same_generation-Told p true live e facts =
      (behaved.securing_told p live ((==_iff _ _).0 e), facts)
  same_generation-Told p false live e facts = facts

  set_state-Told :
      (p : Proxy h.Env)
      → p.has_socket ≡ true
      → IsConsistent (record p { state = securing })
      → Told (set_state h p securing)
  unfolding set_state
  set_state-Told p live facts = elim (Bool-cases (is_state p.state securing)) [
    | inl same ↦ rw same (live, of_state p securing same facts)
    | inr other ↦ rw other (
        same_generation-Told (record p { state = securing }) _ live refl
          (behaved.state_told securing (record p { state = securing }) facts))
  ]

  secure_if-IsConsistent : (r : Bool × Proxy h.Env) → Told r → IsConsistent (secure_if h r)
  secure_if-IsConsistent (true, p) live = secure-IsConsistent p live
  secure_if-IsConsistent (false, p) facts = facts

  after_tls_start-IsConsistent :
      (p : Proxy h.Env) (r : TlsStart × h.Env) → IsLive p → IsConsistent (after_tls_start h p r)
  unfolding after_tls_start
  after_tls_start-IsConsistent p (tls_unsupported, env) (live, facts) =
      fail_own-IsConsistent h behaved (record p { env = env }) _ 0 facts.clock
  after_tls_start-IsConsistent p (tls_start_failed, env) (live, facts) =
      fail_tls-IsConsistent h behaved (record p { env = env }) facts.clock
  after_tls_start-IsConsistent p (tls_started, env) (live, facts) = secure_if-IsConsistent _ (
      set_state-Told (record p { env = env; deadline_ms = u64 (p.now_ms + handshake_timeout_ms) })
        live (enter_timed handshake_timeout_ms live facts.clock (omega arith) (omega arith)).1)

  connected-IsConsistent :
      (p : Proxy h.Env) (r : Option NetErrno × h.Env) → IsLive p → IsConsistent (connected h p r)
  unfolding connected
  connected-IsConsistent p (some errno, env) (live, facts) =
      fail_net-IsConsistent h behaved (record p { env = env }) _ _ facts.clock
  connected-IsConsistent p (none, env) live =
      keep_either h (not p.config.tls_enabled) _ _
        (send_connect-IsConsistent (record p { env = env }) live)
        (after_tls_start-IsConsistent (record p { env = env }) (h.tls_start env p.host p.ca_bundle)
          live)

  finish_connect-IsConsistent : (p : Proxy h.Env) → IsLive p → IsConsistent (finish_connect h p)
  unfolding finish_connect
  finish_connect-IsConsistent p live = connected-IsConsistent p (h.pending_error p.env) live

  linked_read-IsConsistent :
      (read_now : Bool) (p : Proxy h.Env) (has_socket : Bool)
      → p.has_socket ≡ has_socket
      → IsConsistent p
      → IsConsistent (if read_now && has_socket then read_ready h p else p)
  linked_read-IsConsistent true p true live facts =
      read_ready-IsConsistent h behaved p (live, facts)
  linked_read-IsConsistent true p false e facts = facts
  linked_read-IsConsistent false p has_socket e facts = facts

  after_flush-IsConsistent :
      (read_now : Bool) (r : Proxy h.Env × Option ℕ)
      → IsConsistent r.0
      → IsConsistent (after_flush h read_now r)
  after_flush-IsConsistent read_now (p, none) facts =
      linked_read-IsConsistent read_now p p.has_socket refl facts
  after_flush-IsConsistent read_now (p, some errno) facts =
      fail_net-IsConsistent h behaved p _ _ facts.clock

  flowing_event-IsConsistent :
      (p : Proxy h.Env) (events : Events) → IsLive p → IsConsistent (flowing_event h p events)
  unfolding flowing_event
  flowing_event-IsConsistent p events (live, facts) =
      keep_either h events.writable
        (after_flush h (events.readable || p.read_wants_write) (flush_out h p))
        (read_if h events.readable p)
        (after_flush-IsConsistent (events.readable || p.read_wants_write) (flush_out h p)
          (Written-IsLive h p (flush_out h p).0 (flush_out-Written h p) (live, facts)).1)
        (linked_read-IsConsistent events.readable p p.has_socket refl facts)

  connected_event-IsConsistent :
      (p : Proxy h.Env) (events : Events) → IsLive p → IsConsistent (connected_event h p events)
  unfolding connected_event
  connected_event-IsConsistent p events (live, facts) =
      keep_either h (events.error || events.hangup) (fail_net h p closed no_detail)
        (if is_state p.state securing then secure h p else flowing_event h p events)
        (fail_net-IsConsistent h behaved p closed no_detail facts.clock)
        (keep_either h (is_state p.state securing) (secure h p) (flowing_event h p events)
          (secure-IsConsistent p (live, facts)) (flowing_event-IsConsistent p events (live, facts)))

  connecting_event-IsConsistent :
      (p : Proxy h.Env) (events : Events) → IsLive p → IsConsistent (connecting_event h p events)
  unfolding connecting_event
  connecting_event-IsConsistent p events (live, facts) =
      keep_either h (events.writable || events.error || events.hangup) (finish_connect h p) p
        (finish_connect-IsConsistent p (live, facts)) facts

  -- An event on a connection that is open.
  linked_event :
      (b : Bool) (q r : Proxy h.Env)
      → IsConsistent q
      → (b ≡ true → IsConsistent r)
      → IsConsistent (if not b then q else r)
  linked_event true q r shut opened = opened refl
  linked_event false q r shut opened = shut

  pub fd_callback-IsConsistent :
      (p : Proxy h.Env) (events : Events) → IsConsistent p → IsConsistent (fd_callback h p events)
  unfolding fd_callback
  fd_callback-IsConsistent p events facts =
      linked_event p.has_socket p
        (if is_state p.state connecting
          then connecting_event h p events
          else connected_event h p events)
        facts
        (λ live.
          keep_either h (is_state p.state connecting) (connecting_event h p events)
            (connected_event h p events) (connecting_event-IsConsistent p events (live, facts))
            (connected_event-IsConsistent p events (live, facts)))
