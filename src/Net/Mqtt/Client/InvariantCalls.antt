-- ===== src/Net/Mqtt/Client/InvariantCalls.antt =====
-- The public calls of net/mqtt.c keep the invariant of the client.
use inkwell.Prelude.{
  ℕ, ◌≡◌, ◌<◌, refl, Bool, true, false, ◌||◌, not, Option, none, some, ◌∷◌, [], ◌++◌, Bytes, length,
  leb, ◌==◌, if◌then◌else◌, Result, ok, err,
}
use inkwell.Net.Reason.{closed}
use inkwell.Codec.Mqtt.Encode.{Packet, encode_publish, topic_is_publishable}
use inkwell.Net.Mqtt.Inbound.{packet_max}
use inkwell.Net.Mqtt.Client.{off, ready, is_state, no_detail, Config, Proxy, Host}
use inkwell.Net.Mqtt.Client.Failing.{close}
use inkwell.Net.Mqtt.Client.Sending.{Queued, queued, no_room, broken, queue_out}
use inkwell.Net.Mqtt.Client.Connecting.{attempt}
use inkwell.Net.Mqtt.Address.{address_max, target_split}
use inkwell.Base.Text.Copy.{str_copy}
use inkwell.Net.Mqtt.Client.Calls.{
  ca_bundle_max, set_ca_bundle, Reply, invalid, done, full, exists_already, not_connected,
  filters_max, filter_max, has_filter, encode_reply, started, start, stopped, stop_client,
  subscribe_to, clear_filters, count_dropped, after_publish, publish_message, shutdown,
}
use inkwell.Net.Mqtt.Client.Invariant.{
  IsConsistent, IsLive, IsIdle, WellBehaved, set_state-IsConsistent, fail_net-IsConsistent,
}
use inkwell.Net.Mqtt.Client.InvariantSending.{
  keep_either, ready-IsLive, pump_subscribes-IsConsistent, queue_out-Written, Written-IsLive,
}
use inkwell.Net.Mqtt.Client.InvariantPackets.{forget_subscription}
use inkwell.Net.Mqtt.Client.InvariantAttempt.{attempt-IsConsistent}

module _ (h : Host) (behaved : WellBehaved h) where
  either_reply :
      (b : Bool) (q r : Reply × Proxy h.Env)
      → IsConsistent q.1
      → IsConsistent r.1
      → IsConsistent (if b then q else r).1
  either_reply true q r this that = this
  either_reply false q r this that = that

  started-IsIdle :
      (p : Proxy h.Env) (config : Config) (host : Bytes) (port now_ms : ℕ)
      → now_ms < 9223372036854775808
      → IsIdle (started h p config host port now_ms)
  unfolding close
  started-IsIdle p config host port now_ms clock = ((refl, refl, refl, refl, refl), clock)

  start_target-IsConsistent :
      (p : Proxy h.Env) (config : Config) (target : Result (Bytes × ℕ)) (now_ms : ℕ)
      → now_ms < 9223372036854775808
      → IsConsistent p
      → IsConsistent
          (elim target as (λ x. Reply × Proxy h.Env) [
            | err e ↦ (invalid, p)
            | ok (host, port) ↦ (done, attempt h (started h p config host port now_ms))
          ]).1
  start_target-IsConsistent p config (err e) now_ms clock facts = facts
  start_target-IsConsistent p config (ok (host, port)) now_ms clock facts =
      attempt-IsConsistent h behaved _ (started-IsIdle p config host port now_ms clock)

  pub start-IsConsistent :
      (p : Proxy h.Env) (config : Config) (now_ms : ℕ)
      → now_ms < 9223372036854775808
      → IsConsistent p
      → IsConsistent (start h p config now_ms).1
  unfolding start
  start-IsConsistent p config now_ms clock facts =
      either_reply (length config.address == 0 || length config.client_id == 0) _ _ facts (
        start_target-IsConsistent p config (target_split (some config.address) address_max) now_ms
          clock facts)

  pub stop_client-IsConsistent : (p : Proxy h.Env) → IsConsistent p → IsConsistent (stop_client h p)
  unfolding stop_client close
  stop_client-IsConsistent p facts = keep_either h (is_state p.state off) p _ facts (
      set_state-IsConsistent h behaved (stopped h p) off
        (record { by_state = (refl, refl, refl, refl, refl); clock = facts.clock }))

  pub shutdown-IsConsistent : (p : Proxy h.Env) → IsConsistent p → IsConsistent (shutdown h p)
  unfolding shutdown close
  shutdown-IsConsistent p facts = record {
    by_state = (refl, refl, refl, refl, refl);
    clock = facts.clock;
  }

  pub subscribe_to-IsConsistent :
      (p : Proxy h.Env) (filter : Bytes) → IsConsistent p → IsConsistent (subscribe_to h p filter).1
  unfolding subscribe_to
  subscribe_to-IsConsistent p filter facts =
      either_reply (length filter == 0 || leb filter_max (length filter)) (invalid, p) _ facts
        (either_reply (has_filter p.filters filter) (exists_already, p) _ facts
          (either_reply (leb filters_max (length p.filters)) (full, p) _ facts
            (pump_subscribes-IsConsistent h behaved
              (record p { filters = p.filters ++ (filter ∷ []) }) facts)))

  pub clear_filters-IsConsistent :
      (p : Proxy h.Env) → IsConsistent p → IsConsistent (clear_filters h p)
  unfolding clear_filters
  clear_filters-IsConsistent p facts = forget_subscription p.state facts

  after_publish-IsConsistent :
      (r : Proxy h.Env × Queued h) → IsLive r.0 → IsConsistent (after_publish h r).1
  unfolding after_publish
  after_publish-IsConsistent (p, queued) (live, facts) = facts
  after_publish-IsConsistent (p, no_room) (live, facts) = facts
  after_publish-IsConsistent (p, broken errno) (live, facts) =
      fail_net-IsConsistent h behaved (count_dropped h p) closed no_detail facts.clock

  encoded-IsConsistent :
      (p : Proxy h.Env) (encoded : Result Packet)
      → IsLive p
      → IsConsistent
          (elim encoded as (λ x. Reply × Proxy h.Env) [
            | err e ↦ (encode_reply e, count_dropped h p)
            | ok packet ↦ after_publish h (queue_out h p packet.bytes)
          ]).1
  encoded-IsConsistent p (err e) (live, facts) = facts
  encoded-IsConsistent p (ok packet) live =
      after_publish-IsConsistent (queue_out h p packet.bytes)
        (Written-IsLive h p _ (queue_out-Written h p packet.bytes) live)

  -- A reply of a client that is not ready, or else what is done with a live one.
  when_ready :
      (b : Bool) (q r : Reply × Proxy h.Env)
      → IsConsistent q.1
      → (b ≡ true → IsConsistent r.1)
      → IsConsistent (if not b then q else r).1
  when_ready true q r shut opened = opened refl
  when_ready false q r shut opened = shut

  pub publish_message-IsConsistent :
      (p : Proxy h.Env) (topic payload : Bytes) (retained : Bool)
      → IsConsistent p
      → IsConsistent (publish_message h p topic payload retained).1
  unfolding publish_message
  publish_message-IsConsistent p topic payload retained facts =
      when_ready (is_state p.state ready) (not_connected, count_dropped h p) _ facts
        (λ here.
          either_reply (not (topic_is_publishable (some topic))) (invalid, count_dropped h p) _
            facts
            (encoded-IsConsistent p (encode_publish (some packet_max) (some topic) payload retained)
              (ready-IsLive h behaved p here facts)))

  copied-IsConsistent :
      (p : Proxy h.Env) (copied : Option Bytes)
      → IsConsistent p
      → IsConsistent (elim copied as (λ x. Proxy h.Env) [
        | none ↦ p
        | some bytes ↦ record p { ca_bundle = bytes }
      ])
  copied-IsConsistent p none facts = facts
  copied-IsConsistent p (some bytes) facts = facts

  pub set_ca_bundle-IsConsistent :
      (p : Proxy h.Env) (path : Option Bytes)
      → IsConsistent p
      → IsConsistent (set_ca_bundle h p path)
  unfolding set_ca_bundle
  set_ca_bundle-IsConsistent p none facts = facts
  set_ca_bundle-IsConsistent p (some path) facts =
      copied-IsConsistent p (str_copy (some ca_bundle_max) (some path)).0 facts
