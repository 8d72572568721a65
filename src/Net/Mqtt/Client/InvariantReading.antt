-- ===== src/Net/Mqtt/Client/InvariantReading.antt =====
-- The reads of net/mqtt.c keep the invariant of the client.
use inkwell.Prelude.{
  ℕ, zero, suc, ◌≡◌, refl, Bool, true, false, ◌&&◌, Bytes, length, leb, ◌==◌, if◌then◌else◌, inl,
  inr, ◌⊎◌,
}
use inkwell.Net.Reason.{
  NetErrno, etimedout, econnreset, epipe, eagain, eintr, ewouldblock, enotconn, enobufs,
  einprogress, other_errno, reason_from_errno,
}
use inkwell.Net.Mqtt.Inbound.{
  packet_max, Handled, going, gone, Inbound, Round, again, stop, dropped, after_handle, round,
  resume, consume_loop, consume,
}
use inkwell.Net.Mqtt.Inbound.Rounds.{
  View, skip_more, skip_done, waiting, refused, oversized, arriving, whole, View-round, round-View,
}
use inkwell.Net.Mqtt.Client.{protocol, of_errno, Proxy, Read, got, read_failed, Host}
use inkwell.Net.Mqtt.Client.Failing.{fail_net, fail_tls}
use inkwell.Net.Mqtt.Client.Reading.{
  reads_per_turn, still_here, packets, inbound_of, after_consume, consume_packets, read_blocked,
  read_error, heard, after_packets, after_read, read_loop, read_ready,
}
use inkwell.Net.Mqtt.Client.Invariant.{
  IsConsistent, IsLive, WellBehaved, live_buffers, fail_net-IsConsistent, fail_own-IsConsistent,
  fail_tls-IsConsistent,
}
use inkwell.Net.Mqtt.Client.InvariantSending.{keep_either, arm-IsConsistent}
use inkwell.Net.Mqtt.Client.InvariantPackets.{handle_packet-IsConsistent}

module _ (h : Host) (behaved : WellBehaved h) where
  -- The client of a connection that goes on is live, any other is consistent.
  abbrev AfterRound : Round (Proxy h.Env) → Type 0
  AfterRound (again i) = IsLive i.client
  AfterRound (stop i) = IsLive i.client
  AfterRound (dropped p) = IsConsistent p

  abbrev AfterLoop : Inbound (Proxy h.Env) ⊎ Proxy h.Env → Type 0
  AfterLoop (inl i) = IsLive i.client
  AfterLoop (inr p) = IsConsistent p

  abbrev AfterRead : Bool × Proxy h.Env → Type 0
  AfterRead (true, p) = IsLive p
  AfterRead (false, p) = IsConsistent p

  abbrev AfterHandled : Handled (Proxy h.Env) → Type 0
  AfterHandled (going p) = IsLive p
  AfterHandled (gone p) = IsConsistent p

  kept_socket-AfterHandled :
      (same_generation : Bool) (p : Proxy h.Env) (has_socket : Bool)
      → p.has_socket ≡ has_socket
      → IsConsistent p
      → AfterHandled (if same_generation && has_socket then going p else gone p)
  kept_socket-AfterHandled true p true e facts = (e, facts)
  kept_socket-AfterHandled true p false e facts = facts
  kept_socket-AfterHandled false p has_socket e facts = facts

  still_here-AfterHandled :
      (generation : ℕ) (r : Bool × Proxy h.Env)
      → IsConsistent r.1
      → AfterHandled (still_here h generation r)
  still_here-AfterHandled generation (true, p) facts =
      kept_socket-AfterHandled (p.generation == generation) p p.has_socket refl facts
  still_here-AfterHandled generation (false, p) facts = facts

  after_handle-AfterRound :
      (rest : Bytes) (handled : Handled (Proxy h.Env))
      → AfterHandled handled
      → AfterRound (after_handle (packets h) rest handled)
  unfolding after_handle
  after_handle-AfterRound rest (going p) live = live
  after_handle-AfterRound rest (gone p) facts = facts

  View-AfterRound :
      (i : Inbound (Proxy h.Env)) (r : Round (Proxy h.Env))
      → View (packets h) i r
      → IsLive i.client
      → AfterRound r
  View-AfterRound i r (skip_more more) live = live
  View-AfterRound i r (skip_done some all) live = live
  View-AfterRound i r (waiting z d) live = live
  View-AfterRound i r (refused e z d) live =
      fail_own-IsConsistent h behaved i.client protocol 0 live.1.clock
  View-AfterRound i r (oversized header z d big) live = live
  View-AfterRound i r (arriving header z d fits few) live = live
  View-AfterRound i r (whole header z d fits all) live = after_handle-AfterRound _ _ (
      still_here-AfterHandled i.client.generation _
        (handle_packet-IsConsistent h behaved i.client header _ live))

  round-AfterRound :
      (i : Inbound (Proxy h.Env)) → IsLive i.client → AfterRound (round (packets h) i)
  round-AfterRound i live =
      let (r, v) = round-View (packets h) i in
      rw (View-round (packets h) i r v) (View-AfterRound i r v live)

  resume-AfterLoop :
      (n : ℕ) (r : Round (Proxy h.Env))
      → ((i : Inbound (Proxy h.Env)) → IsLive i.client → AfterLoop (consume_loop (packets h) n i))
      → AfterRound r
      → AfterLoop (resume (packets h) (consume_loop (packets h) n) r)
  unfolding resume
  resume-AfterLoop n (again i) hyp live = hyp i live
  resume-AfterLoop n (stop i) hyp live = live
  resume-AfterLoop n (dropped p) hyp facts = facts

  consume_loop-AfterLoop :
      (n : ℕ) (i : Inbound (Proxy h.Env))
      → IsLive i.client
      → AfterLoop (consume_loop (packets h) n i)
  unfolding consume_loop
  consume_loop-AfterLoop zero i live = live
  consume_loop-AfterLoop (suc n) i live =
      resume-AfterLoop n _ (consume_loop-AfterLoop n) (round-AfterRound i live)

  after_consume-AfterRead :
      (r : Inbound (Proxy h.Env) ⊎ Proxy h.Env) → AfterLoop r → AfterRead (after_consume h r)
  after_consume-AfterRead (inl i) (live, facts) = (live, live_buffers i.client.state live facts)
  after_consume-AfterRead (inr p) facts = facts

  consume_packets-AfterRead : (p : Proxy h.Env) → IsLive p → AfterRead (consume_packets h p)
  unfolding consume_packets consume
  consume_packets-AfterRead p live =
      after_consume-AfterRead _ (consume_loop-AfterLoop _ (inbound_of h p) live)

  read_blocked-IsConsistent : (p : Proxy h.Env) → IsConsistent p → IsConsistent (read_blocked h p)
  unfolding read_blocked
  read_blocked-IsConsistent p facts =
      keep_either h (h.tls_active p.env && h.tls_more_to_read p.env) _ _ facts (
        arm-IsConsistent h
          (record p { read_wants_write = h.tls_active p.env && h.tls_wants_write p.env }) facts)

  other_error-IsConsistent :
      (p : Proxy h.Env) (errno : NetErrno)
      → IsConsistent p
      → IsConsistent (
          if h.tls_active p.env
          then fail_tls h p
          else fail_net h p (reason_from_errno errno) (of_errno errno))
  other_error-IsConsistent p errno facts =
      keep_either h (h.tls_active p.env) _ _ (fail_tls-IsConsistent h behaved p facts.clock)
        (fail_net-IsConsistent h behaved p _ _ facts.clock)

  read_error-IsConsistent :
      (p : Proxy h.Env) (errno : NetErrno) → IsConsistent p → IsConsistent (read_error h p errno)
  unfolding read_error
  read_error-IsConsistent p eagain facts = read_blocked-IsConsistent p facts
  read_error-IsConsistent p enotconn facts = fail_net-IsConsistent h behaved p _ _ facts.clock
  read_error-IsConsistent p econnreset facts = fail_net-IsConsistent h behaved p _ _ facts.clock
  read_error-IsConsistent p etimedout facts = other_error-IsConsistent p etimedout facts
  read_error-IsConsistent p epipe facts = other_error-IsConsistent p epipe facts
  read_error-IsConsistent p eintr facts = other_error-IsConsistent p eintr facts
  read_error-IsConsistent p ewouldblock facts = other_error-IsConsistent p ewouldblock facts
  read_error-IsConsistent p enobufs facts = other_error-IsConsistent p enobufs facts
  read_error-IsConsistent p einprogress facts = other_error-IsConsistent p einprogress facts
  read_error-IsConsistent p (other_errno n) facts = other_error-IsConsistent p (other_errno n) facts

  after_packets-IsConsistent :
      (rest : Proxy h.Env → Proxy h.Env) (r : Bool × Proxy h.Env)
      → ((q : Proxy h.Env) → IsLive q → IsConsistent (rest q))
      → AfterRead r
      → IsConsistent (after_packets h rest r)
  after_packets-IsConsistent rest (true, p) hyp live = hyp p live
  after_packets-IsConsistent rest (false, p) hyp facts = facts

  after_read-IsConsistent :
      (rest : Proxy h.Env → Proxy h.Env) (p : Proxy h.Env) (r : Read × h.Env)
      → ((q : Proxy h.Env) → IsLive q → IsConsistent (rest q))
      → IsLive p
      → IsConsistent (after_read h rest p r)
  unfolding after_read
  after_read-IsConsistent rest p (got bytes, env) hyp (live, facts) =
      after_packets-IsConsistent rest _ hyp (
        consume_packets-AfterRead (heard h (record p { env = env }) bytes)
          (live, live_buffers p.state live facts))
  after_read-IsConsistent rest p (read_failed errno, env) hyp (live, facts) =
      read_error-IsConsistent (record p { env = env }) errno facts

  read_loop-IsConsistent : (n : ℕ) (p : Proxy h.Env) → IsLive p → IsConsistent (read_loop h n p)
  unfolding read_loop
  read_loop-IsConsistent zero p (live, facts) = facts
  read_loop-IsConsistent (suc n) p (live, facts) =
      keep_either h (leb packet_max (length p.buffered)) _ _ facts
        (after_read-IsConsistent (read_loop h n) p _ (read_loop-IsConsistent n) (live, facts))

  pub read_ready-IsConsistent : (p : Proxy h.Env) → IsLive p → IsConsistent (read_ready h p)
  unfolding read_ready
  read_ready-IsConsistent p live = read_loop-IsConsistent reads_per_turn _ live
