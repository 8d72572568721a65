-- ===== src/Net/Reason.antt =====
-- net/reason.c: what a failed link is put down to. An errno is a constructor where the code names
-- it, and a number otherwise; none is 0.
use inkwell.Prelude.{ℕ, Bool, true, false}

pub data NetErrno : Type 0 where
  etimedout econnreset epipe eagain eintr ewouldblock enotconn enobufs einprogress : NetErrno
  other_errno : ℕ → NetErrno

pub data Reason : Type 0 where
  net_ok net_bad_address unknown_host lookup_failed lookup_timed_out : Reason
  unreachable timed_out closed tls_failed clock_behind : Reason

pub data ResolveOutcome : Type 0 where
  resolve_ok resolve_not_found resolve_failed resolve_timed_out : ResolveOutcome

pub reason_from_errno : NetErrno → Reason
reason_from_errno etimedout = timed_out
reason_from_errno econnreset = closed
reason_from_errno epipe = closed
reason_from_errno _ = unreachable

pub reason_from_resolve : ResolveOutcome → Reason
reason_from_resolve resolve_ok = net_ok
reason_from_resolve resolve_not_found = unknown_host
reason_from_resolve resolve_timed_out = lookup_timed_out
reason_from_resolve resolve_failed = lookup_failed

-- `inkwell_net_failed` on the reason of a record.
abbrev pub is_failure : Reason → Bool
is_failure net_ok = false
is_failure _ = true
