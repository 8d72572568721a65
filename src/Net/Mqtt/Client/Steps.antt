-- ===== src/Net/Mqtt/Client/Steps.antt =====
-- The life of a client of net/mqtt.c: any sequence of public calls and of events of the
-- descriptors, its own and the resolver's.
use inkwell.Prelude.{ℕ, ◌≤◌, ◌<◌, refl, Bool, Option, Bytes, arith}
use inkwell.Net.Mqtt.Client.{Config, Proxy, Host}
use inkwell.Net.Mqtt.Client.Connecting.{Events, fd_callback}
use inkwell.Net.Mqtt.Client.Calls.{
  client_init, shutdown, set_ca_bundle, start, stop_client, subscribe_to, clear_filters,
  publish_message, resolve_event, tick,
}
use inkwell.Net.Mqtt.Client.Invariant.{IsConsistent, WellBehaved}
use inkwell.Net.Mqtt.Client.InvariantConnecting.{fd_callback-IsConsistent}
use inkwell.Net.Mqtt.Client.InvariantTick.{tick-IsConsistent, resolve_event-IsConsistent}
use inkwell.Net.Mqtt.Client.InvariantCalls.{
  start-IsConsistent, stop_client-IsConsistent, shutdown-IsConsistent, subscribe_to-IsConsistent,
  clear_filters-IsConsistent, publish_message-IsConsistent, set_ca_bundle-IsConsistent,
}

module _ (h : Host) where
  -- The clock that a tick brings does not go back, and stays below 2^63 milliseconds.
  pub data Step (p : Proxy h.Env) : Proxy h.Env → Type 0 where
    started :
        (config : Config) (now_ms : ℕ)
        → now_ms < 9223372036854775808
        → Step p (start h p config now_ms).1
    stopped : Step p (stop_client h p)
    shut_down : Step p (shutdown h p)
    bundle_set : (path : Option Bytes) → Step p (set_ca_bundle h p path)
    subscribed : (filter : Bytes) → Step p (subscribe_to h p filter).1
    cleared : Step p (clear_filters h p)
    published :
        (topic payload : Bytes) (retained : Bool)
        → Step p (publish_message h p topic payload retained).1
    ticked :
        (now_ms : ℕ) → p.now_ms ≤ now_ms → now_ms < 9223372036854775808 → Step p (tick h p now_ms)
    called_back : (events : Events) → Step p (fd_callback h p events)
    resolver_event : (events : ℕ) → Step p (resolve_event h p events)

  pub data Reachable : Proxy h.Env → Type 0 where
    initial : (env : h.Env) → Reachable (client_init h env)
    next : (p q : Proxy h.Env) → Reachable p → Step p q → Reachable q

  step-IsConsistent :
      (behaved : WellBehaved h) (p q : Proxy h.Env) → Step p q → IsConsistent p → IsConsistent q
  step-IsConsistent behaved p _ (started config now_ms clock) facts =
      start-IsConsistent h behaved p config now_ms clock facts
  step-IsConsistent behaved p _ stopped facts = stop_client-IsConsistent h behaved p facts
  step-IsConsistent behaved p _ shut_down facts = shutdown-IsConsistent h behaved p facts
  step-IsConsistent behaved p _ (bundle_set path) facts =
      set_ca_bundle-IsConsistent h behaved p path facts
  step-IsConsistent behaved p _ (subscribed filter) facts =
      subscribe_to-IsConsistent h behaved p filter facts
  step-IsConsistent behaved p _ cleared facts = clear_filters-IsConsistent h behaved p facts
  step-IsConsistent behaved p _ (published topic payload retained) facts =
      publish_message-IsConsistent h behaved p topic payload retained facts
  step-IsConsistent behaved p _ (ticked now_ms go clock) facts =
      tick-IsConsistent h behaved p now_ms go clock facts
  step-IsConsistent behaved p _ (called_back events) facts =
      fd_callback-IsConsistent h behaved p events facts
  step-IsConsistent behaved p _ (resolver_event events) facts =
      resolve_event-IsConsistent h behaved p events facts

  -- Whatever calls and events a client has seen since its init, in whatever order and with whatever
  -- answers of the sockets, TLS and the resolver: it has an open socket exactly in the states that
  -- are connecting, securing, greeting and ready; in the first three a deadline is set, at most
  -- fifteen seconds from its clock; without a socket, both buffers are empty and no skip or
  -- subscription is left over; and in waiting a retry is due at most five minutes from its clock.
  -- This holds for callbacks that keep it, and that leave the connection open when they are told of
  -- a TLS handshake and do not start or stop the client, and for a clock below 2^63 that does not go
  -- back.
  pub Reachable-IsConsistent :
      (behaved : WellBehaved h) (p : Proxy h.Env) → Reachable p → IsConsistent p
  unfolding client_init
  Reachable-IsConsistent behaved _ (initial env) = record {
    by_state = (refl, refl, refl, refl, refl);
    clock = omega arith;
  }
  Reachable-IsConsistent behaved q (next p q' reached step) =
      step-IsConsistent behaved p q step (Reachable-IsConsistent behaved p reached)
