-- ===== src/Net/Mqtt/Client/Tests.antt =====
-- Runs of the client of net/mqtt.c on a host whose calls succeed at once; its state is what was sent.
use mathlib.Core.Option.{some-injective}
use inkwell.Prelude.{
  ◌≡◌, refl, ap, subst, arith, true, false, none, some, [], ◌∷◌, ◌++◌, Bytes, length, ok,
}
use inkwell.Net.Mqtt.Address.{target_split, plain, host_and_port, parse_port, index_of}
use inkwell.Net.Reason.{net_ok, timed_out}
use inkwell.Codec.Mqtt.Decode.{decode_suback}
use inkwell.Codec.Mqtt.Packet.{read_u16}
use inkwell.Net.Mqtt.Queue.{wrote}
use inkwell.Net.Mqtt.Client.{
  ClientState, connecting, ready, waiting, is_state, sent, got, shaken, tls_unsupported, no_detail,
  Config, Proxy, Host,
}
use inkwell.Net.Mqtt.Client.Failing.{close, set_state, fail_net}
use inkwell.Net.Mqtt.Client.Packets.{on_suback}
use inkwell.Net.Mqtt.Client.Connecting.{
  Events, fd_callback, after_socket_connect, after_watch, after_open, open_socket, attempt_to,
  attempt,
}
use inkwell.Net.Mqtt.Client.Calls.{client_init, start}
use inkwell.Net.Mqtt.Client.Invariant.{IsConsistent, WellBehaved}
use inkwell.Net.Mqtt.Client.Steps.{
  started, called_back, Reachable, initial, next, Reachable-IsConsistent,
}
use inkwell.Net.Mqtt.Client.Releasing.{Released, fail_net-Released}
use inkwell.Net.Mqtt.Client.Recovery.{Unparked, late_tick_unparks, stray_suback_counts}

-- A read brings a CONNACK that accepts.
abbrev a_host : Host
a_host = record {
  Env = Bytes;
  Address = Bytes;
  socket_open = λ env address. (none, env);
  watch_socket = λ env. (none, env);
  socket_connect = λ env address. (none, env);
  socket_close = λ env. [];
  pending_error = λ env. (none, env);
  socket_send = λ env bytes. (sent (length bytes), env ++ bytes);
  socket_recv = λ env cap. (got (0x20 ∷ 2 ∷ 0 ∷ 0 ∷ []), env);
  update_watch = λ env want. env;
  remove_watch = λ env. env;
  tls_active = λ env. false;
  tls_wants_write = λ env. false;
  tls_more_to_read = λ env. false;
  tls_start = λ env host bundle. (tls_unsupported, env);
  tls_handshake = λ env. (shaken, env);
  tls_read = λ env cap. (got [], env);
  tls_write = λ env bytes. (wrote (length bytes), env);
  tls_stop = λ env. env;
  tls_reason = λ env. net_ok;
  tls_code = λ env. 0;
  resolve_init = λ env. env;
  resolve_shutdown = λ env. env;
  resolve_literal = λ host port. some host;
  resolve_start = λ env host port now. (none, env);
  resolve_cancel = λ env. env;
  resolve_tick = λ env now. (none, env);
  resolve_output = λ env events. (none, env);
  on_state = λ s p. p;
  on_message = some (λ topic payload p. p);
}

a_host_behaved : WellBehaved a_host
a_host_behaved = record {
  state_told = λ s p facts. facts;
  securing_told = λ p live same. live;
  message_told = λ f topic payload p e facts.
      subst (λ (g : Bytes → Bytes → Proxy Bytes → Proxy Bytes). IsConsistent (g topic payload p))
        (some-injective _ f e) facts;
}

abbrev a_config : Config
a_config = record {
  address = 98 ∷ [];
  username = [];
  password = [];
  client_id = 99 ∷ [];
  tls_enabled = false;
}

abbrev a_proxy : Proxy Bytes
a_proxy = (start a_host (client_init a_host []) a_config 1000).1

a_proxy-Reachable : Reachable a_host a_proxy
a_proxy-Reachable =
    next (client_init a_host []) a_proxy (initial []) (started a_config 1000 (omega arith))

a_proxy_now : a_proxy.now_ms ≡ 1000
unfolding start target_split plain host_and_port parse_port index_of attempt attempt_to open_socket
    after_open after_watch after_socket_connect set_state close client_init
a_proxy_now = refl

a_proxy_state : a_proxy.state ≡ connecting
unfolding start target_split plain host_and_port parse_port index_of attempt attempt_to open_socket
    after_open after_watch after_socket_connect set_state close client_init
a_proxy_state = refl

abbrev writable : Events
writable = record { readable = false; writable = true; error = false; hangup = false }

abbrev greeted_proxy : Proxy Bytes
greeted_proxy = fd_callback a_host a_proxy writable

greeted_proxy-Reachable : Reachable a_host greeted_proxy
greeted_proxy-Reachable = next a_proxy greeted_proxy a_proxy-Reachable (called_back writable)

Reachable-IsConsistent_example : IsConsistent greeted_proxy
Reachable-IsConsistent_example =
    Reachable-IsConsistent a_host a_host_behaved greeted_proxy greeted_proxy-Reachable

late_tick_unparks_example : Unparked a_host a_proxy a_proxy.env 400000 a_proxy.state
late_tick_unparks_example =
    late_tick_unparks a_host a_host_behaved a_proxy a_proxy.env 400000 a_proxy-Reachable
      (omega (arith, a_proxy_now)) refl

fail_net-Released_example :
    (told : Proxy Bytes) × (fail_net a_host a_proxy timed_out no_detail ≡ told)
    × Released a_host a_proxy timed_out no_detail told
fail_net-Released_example =
    fail_net-Released a_host a_proxy timed_out no_detail
      (ap (λ (s : ClientState). is_state s waiting) a_proxy_state) (omega (arith, a_proxy_now))

abbrev subscribed_proxy : Proxy Bytes
subscribed_proxy = record (client_init a_host []) {
  state = ready;
  has_socket = true;
  filters = (97 ∷ []) ∷ [];
  filter_sent = 1;
}

-- A refusal of a subscription that was never made.
stray_suback : decode_suback (some (0 ∷ 0 ∷ 0x80 ∷ [])) ≡ ok (0, 0x80)
unfolding decode_suback read_u16
stray_suback = refl

stray_suback_counts_example :
    on_suback a_host subscribed_proxy (0 ∷ 0 ∷ 0x80 ∷ [])
    ≡ (true, record subscribed_proxy { filter_sent = 2; subscribe_id = 0 })
unfolding client_init
stray_suback_counts_example =
    stray_suback_counts a_host subscribed_proxy (0 ∷ 0 ∷ 0x80 ∷ []) 0x80 refl (omega arith)
      stray_suback
