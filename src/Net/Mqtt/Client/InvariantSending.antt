-- ===== src/Net/Mqtt/Client/InvariantSending.antt =====
-- What the writes of net/mqtt.c keep of the client, and so of its invariant.
use inkwell.Prelude.{
  ℕ, zero, suc, ◌+◌, ◌-◌, ◌≡◌, refl, Bool, true, false, not, Option, none, some, [], Bytes, length,
  ◌==◌, if◌then◌else◌, Bool-cases, inl, inr, Result, ok, err,
}
use inkwell.Codec.Mqtt.Encode.{Packet}
use inkwell.Net.Mqtt.Queue.{Queue, Flushed, flush, queue_packet}
use inkwell.Net.Mqtt.Client.{ready, is_state, Proxy, Host}
use inkwell.Net.Mqtt.Client.Sending.{
  eq_bool, wants_write, arm, transport, flushed, flush_out, Queued, queued, no_room, broken,
  queue_out, outcome_of, after_queue, after_subscribe, pump_loop, pump_subscribes,
}
use inkwell.Net.Mqtt.Client.Invariant.{
  at_state, IsConsistent, IsLive, WellBehaved, live_buffers, fail_net-IsConsistent,
}

module _ (h : Host) where
  -- What a write may change: the registration, the queue, the time of the next ping.
  pub data Written (p : Proxy h.Env) : Proxy h.Env → Type 0 where
    written :
        (w : Bool) (e : h.Env) (q : Queue) (m : ℕ)
        → Written p (record p { want_write = w; env = e; queue = q; next_ping_ms = m })

  either-Written :
      (b : Bool) (p q r : Proxy h.Env) → Written p q → Written p r → Written p (if b then q else r)
  either-Written true p q r this that = this
  either-Written false p q r this that = that

  pub keep_either :
      (b : Bool) (q r : Proxy h.Env)
      → IsConsistent q
      → IsConsistent r
      → IsConsistent (if b then q else r)
  keep_either true q r this that = this
  keep_either false q r this that = that

  pub arm-Written : (p : Proxy h.Env) → Written p (arm h p)
  unfolding arm
  arm-Written p = either-Written (not p.has_socket) p _ _ (written _ _ _ _) (
      either-Written (eq_bool (wants_write h p) p.want_write) p _ _ (written _ _ _ _)
        (written _ _ _ _))

  pub Written-trans : (p q r : Proxy h.Env) → Written p q → Written q r → Written p r
  Written-trans p _ _ (written w e q m) (written w' e' q' m') = written w' e' q' m'

  flushed_fatal-Written :
      (p : Proxy h.Env) (f : Flushed (transport h (λ env. []))) (fatal : Option ℕ)
      → f.fatal ≡ fatal
      → Written p (flushed h p f).0
  unfolding flushed
  flushed_fatal-Written p f (some errno) e = rw e (written _ _ _ _)
  flushed_fatal-Written p f none e = rw e (
      Written-trans p _ _
        (either-Written f.sent_something p _ _ (written _ _ _ _) (written _ _ _ _)) (arm-Written _))

  pub flushed-Written :
      (p : Proxy h.Env) (f : Flushed (transport h (λ env. []))) → Written p (flushed h p f).0
  flushed-Written p f = flushed_fatal-Written p f f.fatal refl

  outcome_of-Written :
      (p : Proxy h.Env) (r : Proxy h.Env × Option ℕ) → Written p r.0 → Written p (outcome_of h r).0
  outcome_of-Written p (q, none) w = w
  outcome_of-Written p (q, some errno) w = w

  after_queue-Written :
      (p : Proxy h.Env) (sent : Queue × Option (Flushed (transport h (λ env. []))))
      → Written p (after_queue h p sent).0
  after_queue-Written p (left, none) = written _ _ _ _
  after_queue-Written p (left, some f) = outcome_of-Written p _ (flushed-Written p f)

  pub queue_out-Written : (p : Proxy h.Env) (packet : Bytes) → Written p (queue_out h p packet).0
  unfolding queue_out
  queue_out-Written p packet =
      after_queue-Written p (queue_packet (transport h (λ env. [])) p.queue p.env packet)

  pub Written-IsLive : (p q : Proxy h.Env) → Written p q → IsLive p → IsLive q
  Written-IsLive p _ (written w e q m) (live, facts) = (live, live_buffers p.state live facts)

  pub arm-IsConsistent : (p : Proxy h.Env) → IsConsistent p → IsConsistent (arm h p)
  unfolding arm
  arm-IsConsistent p facts =
      keep_either (not p.has_socket) p _ facts
        (keep_either (eq_bool (wants_write h p) p.want_write) p _ facts facts)

  pub flush_out-Written : (p : Proxy h.Env) → Written p (flush_out h p).0
  unfolding flush_out
  flush_out-Written p = flushed-Written p (flush (transport h (λ env. [])) p.queue p.env)

module _ (h : Host) (behaved : WellBehaved h) where
  after_subscribe-IsConsistent :
      (id : ℕ) (r : Proxy h.Env × Queued h) → IsLive r.0 → IsConsistent (after_subscribe h id r)
  after_subscribe-IsConsistent id (p, queued) (live, facts) = live_buffers p.state live facts
  after_subscribe-IsConsistent id (p, no_room) (live, facts) = facts
  after_subscribe-IsConsistent id (p, broken errno) (live, facts) =
      fail_net-IsConsistent h behaved p _ _ facts.clock

  pump_encoded-IsConsistent :
      (left : ℕ) (p : Proxy h.Env) (id : ℕ) (encoded : Result Packet)
      → IsLive p
      → ((q : Proxy h.Env) → IsLive q → IsConsistent (pump_loop h left q))
      → IsConsistent (elim encoded [
        | ok packet ↦ after_subscribe h id (queue_out h p packet.bytes)
        | err e ↦ pump_loop h left (record p { filter_sent = p.filter_sent + 1 })
      ])
  pump_encoded-IsConsistent left p id (ok packet) live rest =
      after_subscribe-IsConsistent id _
        (Written-IsLive h p _ (queue_out-Written h p packet.bytes) live)
  pump_encoded-IsConsistent left p id (err e) live rest = rest _ live

  pump_loop-IsConsistent : (n : ℕ) (p : Proxy h.Env) → IsLive p → IsConsistent (pump_loop h n p)
  unfolding pump_loop
  pump_loop-IsConsistent zero p (live, facts) = facts
  pump_loop-IsConsistent (suc n) p live =
      pump_encoded-IsConsistent n p _ _ live (pump_loop-IsConsistent n)

  pub ready-IsLive : (p : Proxy h.Env) → is_state p.state ready ≡ true → IsConsistent p → IsLive p
  ready-IsLive p e facts = (at_state p ready e facts, facts)

  pub pump_subscribes-IsConsistent :
      (p : Proxy h.Env) → IsConsistent p → IsConsistent (pump_subscribes h p)
  unfolding pump_subscribes
  pump_subscribes-IsConsistent p facts = elim (Bool-cases (is_state p.state ready)) [
    | inl here ↦ rw here (
        keep_either h (not (p.subscribe_id == 0)) p
          (pump_loop h (length p.filters - p.filter_sent) p) facts
          (pump_loop-IsConsistent _ p (ready-IsLive p here facts)))
    | inr elsewhere ↦ rw elsewhere facts
  ]
