-- ===== src/Net/Mqtt/Client/InvariantTick.antt =====
-- The tick of net/mqtt.c keeps the invariant of the client.
use inkwell.Prelude.{
  ℕ, ◌-◌, ◌≡◌, ◌≤◌, ◌<◌, refl, arith, Bool, true, false, ◌&&◌, ◌||◌, not, Option, none, some, Bytes,
  ltb, leb, ◌==◌, if◌then◌else◌, Bool-cases, inl, inr, Result, ok, err,
}
use inkwell.Net.Reason.{timed_out, closed, ResolveOutcome}
use inkwell.Codec.Mqtt.Packet.{pingreq}
use inkwell.Codec.Mqtt.Encode.{Packet, encode_empty}
use inkwell.Net.Mqtt.Queue.{Queue}
use inkwell.Net.Mqtt.Client.{
  ClientState, off, resolving, connecting, securing, greeting, ready, waiting, is_state, no_detail,
  Proxy, Host, silence_timeout_ms,
}
use inkwell.Net.Mqtt.Client.Failing.{fail_net}
use inkwell.Net.Mqtt.Client.Sending.{Queued, queued, no_room, broken, queue_out}
use inkwell.Net.Mqtt.Client.Reading.{read_ready}
use inkwell.Net.Mqtt.Client.Connecting.{attempt}
use inkwell.Net.Mqtt.Client.Calls.{
  after_ping, keep_alive, tick_ready, read_more, tick_state, after_resolve, resolve_event, tick,
}
use inkwell.Net.Mqtt.Client.Invariant.{
  Facts, at_state, IsConsistent, IsLive, IsIdle, WellBehaved, fail_net-IsConsistent,
}
use inkwell.Net.Mqtt.Client.InvariantSending.{
  keep_either, ready-IsLive, queue_out-Written, Written-IsLive,
}
use inkwell.Net.Mqtt.Client.InvariantReading.{read_ready-IsConsistent}
use inkwell.Net.Mqtt.Client.InvariantAttempt.{attempt-IsConsistent, on_resolved-IsConsistent}

-- A later clock.
later :
    {has_socket : Bool} {q : Queue} {b : Bytes} {k i d r n n' : ℕ} (s : ClientState)
    → n ≤ n'
    → n' < 9223372036854775808
    → Facts s has_socket q b k i d r n
    → Facts s has_socket q b k i d r n'
later off go clock f = record { by_state = f.by_state; clock = clock }
later resolving go clock f = record { by_state = f.by_state; clock = clock }
later connecting go clock f =
    let (live, some_time, near) = f.by_state in
    record { by_state = (live, some_time, omega arith); clock = clock }
later securing go clock f =
    let (live, some_time, near) = f.by_state in
    record { by_state = (live, some_time, omega arith); clock = clock }
later greeting go clock f =
    let (live, some_time, near) = f.by_state in
    record { by_state = (live, some_time, omega arith); clock = clock }
later ready go clock f = record { by_state = f.by_state; clock = clock }
later waiting go clock f =
    let (near, idle) = f.by_state in record { by_state = (omega arith, idle); clock = clock }

module _ (h : Host) (behaved : WellBehaved h) where
  after_ping-IsConsistent :
      (now_ms : ℕ) (r : Proxy h.Env × Queued h) → IsLive r.0 → IsConsistent (after_ping h now_ms r)
  after_ping-IsConsistent now_ms (p, queued) (live, facts) = facts
  after_ping-IsConsistent now_ms (p, no_room) (live, facts) =
      fail_net-IsConsistent h behaved p closed no_detail facts.clock
  after_ping-IsConsistent now_ms (p, broken errno) (live, facts) =
      fail_net-IsConsistent h behaved p closed no_detail facts.clock

  ping_encoded-IsConsistent :
      (p : Proxy h.Env) (now_ms : ℕ) (encoded : Result Packet)
      → IsLive p
      → IsConsistent (elim encoded as (λ x. Proxy h.Env) [
        | err e ↦ p
        | ok packet ↦ after_ping h now_ms (queue_out h p packet.bytes)
      ])
  ping_encoded-IsConsistent p now_ms (err e) (live, facts) = facts
  ping_encoded-IsConsistent p now_ms (ok packet) live =
      after_ping-IsConsistent now_ms (queue_out h p packet.bytes)
        (Written-IsLive h p _ (queue_out-Written h p packet.bytes) live)

  keep_alive-IsConsistent :
      (p : Proxy h.Env) (now_ms : ℕ) → IsLive p → IsConsistent (keep_alive h p now_ms)
  unfolding keep_alive
  keep_alive-IsConsistent p now_ms (live, facts) =
      keep_either h (not (p.next_ping_ms == 0) && leb p.next_ping_ms now_ms) _ p
        (ping_encoded-IsConsistent p now_ms (encode_empty (some 2) pingreq) (live, facts)) facts

  tick_ready-IsConsistent :
      (p : Proxy h.Env) (now_ms : ℕ) → IsConsistent p → IsConsistent (tick_ready h p now_ms)
  unfolding tick_ready
  tick_ready-IsConsistent p now_ms facts = elim (Bool-cases (is_state p.state ready)) [
    | inl here ↦ rw here (
        keep_either h
          (not (p.last_heard_ms == 0)
            && ltb p.last_heard_ms now_ms
            && ltb silence_timeout_ms (now_ms - p.last_heard_ms))
          (fail_net h p timed_out no_detail) (keep_alive h p now_ms)
          (fail_net-IsConsistent h behaved p timed_out no_detail facts.clock)
          (keep_alive-IsConsistent p now_ms (ready-IsLive h behaved p here facts)))
    | inr elsewhere ↦ rw elsewhere facts
  ]

  in_case :
      (b : Bool) (q r : Proxy h.Env)
      → (b ≡ true → IsConsistent q)
      → IsConsistent r
      → IsConsistent (if b then q else r)
  in_case true q r this that = this refl
  in_case false q r this that = that

  reading-IsConsistent :
      (p : Proxy h.Env) (more greeted here : Bool)
      → is_state p.state greeting ≡ greeted
      → is_state p.state ready ≡ here
      → IsConsistent p
      → IsConsistent (if more && (greeted || here) then read_ready h p else p)
  reading-IsConsistent p true true here e e' facts =
      read_ready-IsConsistent h behaved p ((at_state p greeting e facts).0, facts)
  reading-IsConsistent p true false true e e' facts =
      read_ready-IsConsistent h behaved p (at_state p ready e' facts, facts)
  reading-IsConsistent p true false false e e' facts = facts
  reading-IsConsistent p false greeted here e e' facts = facts

  read_more-IsConsistent : (p : Proxy h.Env) → IsConsistent p → IsConsistent (read_more h p)
  read_more-IsConsistent p facts =
      reading-IsConsistent p p.more_to_read (is_state p.state greeting) (is_state p.state ready)
        refl refl facts

  waiting-IsIdle : (p : Proxy h.Env) → is_state p.state waiting ≡ true → IsConsistent p → IsIdle p
  waiting-IsIdle p e facts = ((at_state p waiting e facts).1, facts.clock)

  tick_state-IsConsistent :
      (p : Proxy h.Env) (now_ms : ℕ) → IsConsistent p → IsConsistent (tick_state h p now_ms)
  unfolding tick_state
  tick_state-IsConsistent p now_ms facts = keep_either h (is_state p.state off) p _ facts (
      in_case (is_state p.state waiting) (if leb p.retry_at_ms now_ms then attempt h p else p)
        (if not (p.deadline_ms == 0) && leb p.deadline_ms now_ms
          then fail_net h p timed_out no_detail
          else tick_ready h (read_more h p) now_ms)
        (λ here.
          keep_either h (leb p.retry_at_ms now_ms) (attempt h p) p
            (attempt-IsConsistent h behaved p (waiting-IsIdle p here facts)) facts)
        (keep_either h (not (p.deadline_ms == 0) && leb p.deadline_ms now_ms)
          (fail_net h p timed_out no_detail) (tick_ready h (read_more h p) now_ms)
          (fail_net-IsConsistent h behaved p timed_out no_detail facts.clock)
          (tick_ready-IsConsistent (read_more h p) now_ms (read_more-IsConsistent p facts))))

  after_resolve-IsConsistent :
      (p : Proxy h.Env) (r : Option (ResolveOutcome × h.Address × ℕ) × h.Env)
      → IsConsistent p
      → IsConsistent (after_resolve h p r)
  after_resolve-IsConsistent p (none, env) facts = facts
  after_resolve-IsConsistent p (some result, env) facts =
      on_resolved-IsConsistent h behaved (record p { env = env }) result facts

  pub tick-IsConsistent :
      (p : Proxy h.Env) (now_ms : ℕ)
      → p.now_ms ≤ now_ms
      → now_ms < 9223372036854775808
      → IsConsistent p
      → IsConsistent (tick h p now_ms)
  unfolding tick
  tick-IsConsistent p now_ms go clock facts = tick_state-IsConsistent _ now_ms (
      after_resolve-IsConsistent (record p { now_ms = now_ms }) (h.resolve_tick p.env now_ms)
        (later p.state go clock facts))

  pub resolve_event-IsConsistent :
      (p : Proxy h.Env) (events : ℕ) → IsConsistent p → IsConsistent (resolve_event h p events)
  unfolding resolve_event
  resolve_event-IsConsistent p events facts =
      after_resolve-IsConsistent p (h.resolve_output p.env events) facts
