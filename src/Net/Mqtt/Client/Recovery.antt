-- ===== src/Net/Mqtt/Client/Recovery.antt =====
-- A late tick of the client of net/mqtt.c, in each of its states, and a stray SUBACK.
use inkwell.Prelude.{
  ℕ, ◌+◌, ◌-◌, ◌≡◌, ◌≤◌, ◌<◌, refl, ◌∙◌, ap, arith, Bool, true, false, ◌||◌, not, Bytes, leb, ◌==◌,
  if◌then◌else◌, length, Result, ok, err, Option, none, some,
}
use inkwell.Net.Reason.{timed_out, ResolveOutcome}
use inkwell.Codec.Mqtt.Decode.{decode_suback}
use inkwell.Net.Mqtt.Client.{
  ClientState, off, resolving, connecting, securing, greeting, ready, waiting, is_state, no_detail,
  protocol, Proxy, Host, backoff_max_ms,
}
use inkwell.Net.Mqtt.Client.Failing.{fail_net, fail_own}
use inkwell.Net.Mqtt.Client.Packets.{on_suback, on_suback_id}
use inkwell.Net.Mqtt.Client.Sending.{pump_subscribes, pump_loop}
use inkwell.Net.Mqtt.Client.Connecting.{attempt}
use inkwell.Net.Mqtt.Client.Calls.{tick_state, after_resolve, tick}
use inkwell.Net.Mqtt.Client.Steps.{Reachable, Reachable-IsConsistent}
use inkwell.Net.Mqtt.Client.Invariant.{WellBehaved, Facts}

module _ (h : Host) where
  -- What the tick's own part does in a state.
  abbrev StateUnparked : Proxy h.Env → ℕ → ClientState → Type 0
  StateUnparked p now_ms connecting = tick_state h p now_ms ≡ fail_net h p timed_out no_detail
  StateUnparked p now_ms securing = tick_state h p now_ms ≡ fail_net h p timed_out no_detail
  StateUnparked p now_ms greeting = tick_state h p now_ms ≡ fail_net h p timed_out no_detail
  StateUnparked p now_ms waiting = tick_state h p now_ms ≡ attempt h p
  StateUnparked p now_ms off = tick_state h p now_ms ≡ p
  StateUnparked p now_ms resolving = Unit
  StateUnparked p now_ms ready = Unit

  -- What a whole tick does in a state, where the resolver leaves `env` and has no result: the client
  -- that goes on has the tick's clock.
  abbrev pub Unparked : Proxy h.Env → h.Env → ℕ → ClientState → Type 0
  Unparked p env now_ms connecting =
      tick h p now_ms ≡ fail_net h (record p { now_ms = now_ms; env = env }) timed_out no_detail
  Unparked p env now_ms securing =
      tick h p now_ms ≡ fail_net h (record p { now_ms = now_ms; env = env }) timed_out no_detail
  Unparked p env now_ms greeting =
      tick h p now_ms ≡ fail_net h (record p { now_ms = now_ms; env = env }) timed_out no_detail
  Unparked p env now_ms waiting =
      tick h p now_ms ≡ attempt h (record p { now_ms = now_ms; env = env })
  Unparked p env now_ms off = tick h p now_ms ≡ record p { now_ms = now_ms; env = env }
  Unparked p env now_ms resolving = Unit
  Unparked p env now_ms ready = Unit

  if_same : (b : Bool) (p : Proxy h.Env) → (if b then p else p) ≡ p
  if_same true p = refl
  if_same false p = refl

  past_deadline :
      (p : Proxy h.Env) (now_ms : ℕ)
      → is_state p.state off ≡ false
      → is_state p.state waiting ≡ false
      → 0 < p.deadline_ms
      → p.deadline_ms ≤ now_ms
      → tick_state h p now_ms ≡ fail_net h p timed_out no_detail
  unfolding tick_state
  past_deadline p now_ms here there some_time late =
      let unset : (p.deadline_ms == 0) ≡ false = ground arith in
      let due : leb p.deadline_ms now_ms ≡ true = ground arith in rw (here, there, unset, due) refl

  past_retry :
      (p : Proxy h.Env) (now_ms : ℕ)
      → p.state ≡ waiting
      → p.retry_at_ms ≤ now_ms
      → tick_state h p now_ms ≡ attempt h p
  unfolding tick_state
  past_retry p now_ms e late =
      let due : leb p.retry_at_ms now_ms ≡ true = ground arith in
      rw
        (
          ap (λ (t : ClientState). is_state t off) e,
          ap (λ (t : ClientState). is_state t waiting) e,
          due,
        )
        refl

  past_off : (p : Proxy h.Env) (now_ms : ℕ) → p.state ≡ off → tick_state h p now_ms ≡ p
  unfolding tick_state
  past_off p now_ms e = rw (ap (λ (t : ClientState). is_state t off) e) refl

  -- Of a client with the clock of the tick, when its own was `then_ms`.
  late_tick :
      (p : Proxy h.Env) (then_ms now_ms : ℕ) (s : ClientState)
      → p.state ≡ s
      → Facts s p.has_socket p.queue p.buffered p.skip_remaining p.subscribe_id p.deadline_ms
          p.retry_at_ms then_ms
      → then_ms + backoff_max_ms ≤ now_ms
      → StateUnparked p now_ms s
  late_tick p then_ms now_ms connecting e f late =
      let (live, some_time, near) = f.by_state in
      past_deadline p now_ms (ap (λ (t : ClientState). is_state t off) e)
        (ap (λ (t : ClientState). is_state t waiting) e) some_time (omega arith)
  late_tick p then_ms now_ms securing e f late =
      let (live, some_time, near) = f.by_state in
      past_deadline p now_ms (ap (λ (t : ClientState). is_state t off) e)
        (ap (λ (t : ClientState). is_state t waiting) e) some_time (omega arith)
  late_tick p then_ms now_ms greeting e f late =
      let (live, some_time, near) = f.by_state in
      past_deadline p now_ms (ap (λ (t : ClientState). is_state t off) e)
        (ap (λ (t : ClientState). is_state t waiting) e) some_time (omega arith)
  late_tick p then_ms now_ms waiting e f late =
      let (near, idle) = f.by_state in past_retry p now_ms e (omega arith)
  late_tick p then_ms now_ms off e f late = past_off p now_ms e
  late_tick p then_ms now_ms resolving e f late = tt
  late_tick p then_ms now_ms ready e f late = tt

  tick_past_resolver :
      (p : Proxy h.Env) (env : h.Env) (now_ms : ℕ)
      → h.resolve_tick p.env now_ms ≡ (none, env)
      → tick h p now_ms ≡ tick_state h (record p { now_ms = now_ms; env = env }) now_ms
  unfolding tick
  tick_past_resolver p env now_ms no_result =
      ap
        (λ (r : Option (ResolveOutcome × h.Address × ℕ) × h.Env).
          tick_state h (after_resolve h (record p { now_ms = now_ms }) r) now_ms)
        no_result

  tick-Unparked :
      (p : Proxy h.Env) (env : h.Env) (now_ms : ℕ) (s : ClientState)
      → tick h p now_ms ≡ tick_state h (record p { now_ms = now_ms; env = env }) now_ms
      → StateUnparked (record p { now_ms = now_ms; env = env }) now_ms s
      → Unparked p env now_ms s
  tick-Unparked p env now_ms connecting e u = e ∙ u
  tick-Unparked p env now_ms securing e u = e ∙ u
  tick-Unparked p env now_ms greeting e u = e ∙ u
  tick-Unparked p env now_ms waiting e u = e ∙ u
  tick-Unparked p env now_ms off e u = e ∙ u
  tick-Unparked p env now_ms resolving e u = tt
  tick-Unparked p env now_ms ready e u = tt

  -- Of a client that has seen any calls and events since its init, with callbacks that are well
  -- behaved: a tick at least five minutes after its clock, whose part for the resolver brings no
  -- result, sets the clock, and with that clock fails a connect, a TLS handshake and a wait for the
  -- CONNACK as timed out, makes the next attempt of a client that is waiting, and leaves one that is
  -- off otherwise as it is.
  pub late_tick_unparks :
      (behaved : WellBehaved h) (p : Proxy h.Env) (env : h.Env) (now_ms : ℕ)
      → Reachable h p
      → p.now_ms + backoff_max_ms ≤ now_ms
      → h.resolve_tick p.env now_ms ≡ (none, env)
      → Unparked p env now_ms p.state
  late_tick_unparks behaved p env now_ms reached late no_result =
      tick-Unparked p env now_ms p.state (tick_past_resolver p env now_ms no_result) (
        late_tick (record p { now_ms = now_ms; env = env }) p.now_ms now_ms p.state refl
          (Reachable-IsConsistent h behaved p reached) late)

  pump_spent : (p : Proxy h.Env) → length p.filters ≤ p.filter_sent → pump_subscribes h p ≡ p
  unfolding pump_subscribes pump_loop
  pump_spent p spent =
      let none_left : length p.filters - p.filter_sent ≡ 0 = omega arith in
      rw none_left (if_same (not (is_state p.state ready) || not (p.subscribe_id == 0)) p)

  -- A SUBACK with the id 0, while no subscription is in flight and every filter is acknowledged, is
  -- taken for the answer to one: the count of acknowledged filters goes past the filters.
  pub stray_suback_counts :
      (p : Proxy h.Env) (body : Bytes) (code : ℕ)
      → p.subscribe_id ≡ 0
      → length p.filters ≤ p.filter_sent
      → decode_suback (some body) ≡ ok (0, code)
      → on_suback h p body ≡ (true, record p { filter_sent = p.filter_sent + 1; subscribe_id = 0 })
  unfolding on_suback on_suback_id
  stray_suback_counts p body code none_sent all_sent decoded =
      let answered : on_suback h p body ≡ on_suback_id h p 0 =
        ap
          (λ (d : Result (ℕ × ℕ)). elim d as (λ x. Bool × Proxy h.Env) [
            | err e ↦ (false, fail_own h p protocol 0)
            | ok (id, c) ↦ on_suback_id h p id
          ])
          decoded in
      let same : (0 == p.subscribe_id) ≡ true = ground arith in
      answered
      ∙ rw same (
          ap (λ (q : Proxy h.Env). (true, q))
            (pump_spent (record p { filter_sent = p.filter_sent + 1; subscribe_id = 0 })
              (omega arith)))
