-- ===== src/Net/Mqtt/Client/InvariantAttempt.antt =====
-- An attempt of net/mqtt.c, from the lookup to the connect, establishes the invariant of the client.
use inkwell.Prelude.{u64, ℕ, ◌+◌, ◌≡◌, ◌<◌, refl, arith, true, not, Option, none, some}
use inkwell.Net.Reason.{
  NetErrno, einprogress, ResolveOutcome, resolve_ok, resolve_not_found, resolve_failed,
  resolve_timed_out, reason_from_resolve,
}
use inkwell.Net.Mqtt.Client.{
  resolving, connecting, is_state, of_code, no_failure, Proxy, Host, connect_timeout_ms,
}
use inkwell.Net.Mqtt.Client.Failing.{set_state, fail_net}
use inkwell.Net.Mqtt.Client.Connecting.{
  after_socket_connect, after_watch, after_open, open_socket, on_resolved, after_resolve_start,
  attempt_to, attempt,
}
use inkwell.Net.Mqtt.Client.Invariant.{
  IsConsistent, IsIdle, WellBehaved, enter_timed, set_state-IsConsistent, fail_net-IsConsistent,
}
use inkwell.Net.Mqtt.Client.InvariantSending.{keep_either}

module _ (h : Host) (behaved : WellBehaved h) where
  opened-IsConsistent :
      (p : Proxy h.Env)
      → p.has_socket ≡ true
      → p.now_ms < 9223372036854775808
      → IsConsistent
          (set_state h
            (record p { deadline_ms = u64 (p.now_ms + connect_timeout_ms) })
            connecting).1
  opened-IsConsistent p live clock =
      set_state-IsConsistent h behaved _ connecting
        (enter_timed connect_timeout_ms live clock (omega arith) (omega arith)).0

  after_socket_connect-IsConsistent :
      (p : Proxy h.Env) (r : Option NetErrno × h.Env)
      → p.has_socket ≡ true
      → p.now_ms < 9223372036854775808
      → IsConsistent (after_socket_connect h p r)
  unfolding after_socket_connect
  after_socket_connect-IsConsistent p (none, env) live clock =
      opened-IsConsistent (record p { env = env }) live clock
  after_socket_connect-IsConsistent p (some einprogress, env) live clock =
      opened-IsConsistent (record p { env = env }) live clock
  after_socket_connect-IsConsistent p (some _, env) live clock =
      fail_net-IsConsistent h behaved (record p { env = env }) _ _ clock

  -- What fails before there is a connection.
  after_watch-IsConsistent :
      (p : Proxy h.Env) (address : h.Address) (r : Option NetErrno × h.Env)
      → p.now_ms < 9223372036854775808
      → IsConsistent (after_watch h p address r)
  unfolding after_watch
  after_watch-IsConsistent p address (some errno, env) clock =
      fail_net-IsConsistent h behaved (record p { env = h.socket_close env }) _ _ clock
  after_watch-IsConsistent p address (none, env) clock =
      after_socket_connect-IsConsistent
        (record p { env = env; has_socket = true; want_write = true })
        (h.socket_connect env address) refl clock

  after_open-IsConsistent :
      (p : Proxy h.Env) (address : h.Address) (r : Option NetErrno × h.Env)
      → p.now_ms < 9223372036854775808
      → IsConsistent (after_open h p address r)
  unfolding after_open
  after_open-IsConsistent p address (some errno, env) clock =
      fail_net-IsConsistent h behaved (record p { env = env }) _ _ clock
  after_open-IsConsistent p address (none, env) clock =
      after_watch-IsConsistent (record p { env = env }) address (h.watch_socket env) clock

  open_socket-IsConsistent :
      (p : Proxy h.Env) (address : h.Address)
      → p.now_ms < 9223372036854775808
      → IsConsistent (open_socket h p address)
  unfolding open_socket
  open_socket-IsConsistent p address clock =
      after_open-IsConsistent p address (h.socket_open p.env address) clock

  resolved-IsConsistent :
      (p : Proxy h.Env) (outcome : ResolveOutcome) (address : h.Address) (error : ℕ)
      → p.now_ms < 9223372036854775808
      → IsConsistent (elim outcome as (λ x. Proxy h.Env) [
        | resolve_ok ↦ open_socket h p address
        | failed ↦ fail_net h p (reason_from_resolve failed) (of_code error)
      ])
  resolved-IsConsistent p resolve_ok address error clock = open_socket-IsConsistent p address clock
  resolved-IsConsistent p resolve_not_found address error clock =
      fail_net-IsConsistent h behaved p _ _ clock
  resolved-IsConsistent p resolve_failed address error clock =
      fail_net-IsConsistent h behaved p _ _ clock
  resolved-IsConsistent p resolve_timed_out address error clock =
      fail_net-IsConsistent h behaved p _ _ clock

  pub on_resolved-IsConsistent :
      (p : Proxy h.Env) (result : ResolveOutcome × h.Address × ℕ)
      → IsConsistent p
      → IsConsistent (on_resolved h p result)
  unfolding on_resolved
  on_resolved-IsConsistent p (outcome, address, error) facts =
      keep_either h (not (is_state p.state resolving)) p _ facts
        (resolved-IsConsistent p outcome address error facts.clock)

  after_resolve_start-IsConsistent :
      (p : Proxy h.Env) (r : Option ℕ × h.Env) → IsIdle p → IsConsistent (after_resolve_start h p r)
  unfolding after_resolve_start
  after_resolve_start-IsConsistent p (some code, env) (idle, clock) =
      fail_net-IsConsistent h behaved (record p { env = env }) _ _ clock
  after_resolve_start-IsConsistent p (none, env) (idle, clock) =
      set_state-IsConsistent h behaved (record p { env = env; deadline_ms = 0 }) resolving
        (record { by_state = idle; clock = clock })

  attempt_to-IsConsistent :
      (p : Proxy h.Env) (address : Option h.Address)
      → IsIdle p
      → IsConsistent (attempt_to h p address)
  unfolding attempt_to
  attempt_to-IsConsistent p (some address) (idle, clock) = open_socket-IsConsistent p address clock
  attempt_to-IsConsistent p none idle =
      after_resolve_start-IsConsistent p (h.resolve_start p.env p.host p.port p.now_ms) idle

  pub attempt-IsConsistent : (p : Proxy h.Env) → IsIdle p → IsConsistent (attempt h p)
  unfolding attempt
  attempt-IsConsistent p idle =
      attempt_to-IsConsistent (record p { failure = no_failure }) (h.resolve_literal p.host p.port)
        idle
