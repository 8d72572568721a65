-- ===== src/Net/Mqtt/Client/Failing.antt =====
-- How an attempt of net/mqtt.c ends: the connection is released and a retry is armed.
use inkwell.Prelude.{
  u64, ℕ, ◌+◌, ◌-◌, ◌*◌, ◌^◌, Bool, true, false, ◌||◌, [], ltb, ◌==◌, if◌then◌else◌,
}
use inkwell.Net.Reason.{Reason, is_failure}
use inkwell.Net.Mqtt.Client.{
  ClientState, waiting, is_state, Refusal, refusal_none, Detail, of_code, Failure, Proxy, Host,
  backoff_base_ms, backoff_max_ms, backoff_shift_max, empty_queue,
}

abbrev pub is_refusal : Refusal → Bool
is_refusal refusal_none = false
is_refusal _ = true

unfoldable pub has_failure : Failure → Bool
has_failure f = is_failure f.reason || is_refusal f.refusal

-- Twice as long for each failure in a row, up to a limit.
unfoldable pub backoff_delay : ℕ → ℕ
backoff_delay failures =
    let over = if ltb backoff_shift_max (failures - 1) then backoff_shift_max else failures - 1 in
    let shift = if ltb 1 failures then over else 0 in
    let delay = backoff_base_ms * 2 ^ shift in
    if ltb backoff_max_ms delay then backoff_max_ms else delay

module _ (h : Host) where
  -- False where the callback replaced the connection.
  unfoldable pub set_state : Proxy h.Env → ClientState → Bool × Proxy h.Env
  set_state p state =
      let told = h.on_state state (record p { state = state }) in
      if is_state p.state state then (true, p) else (told.generation == p.generation, told)

  abbrev pub released : h.Env → Bool → h.Env
  released env has_socket =
      let env' = h.tls_stop (h.resolve_cancel env) in
      if has_socket then h.socket_close (h.remove_watch env') else env'

  unfoldable pub close : Proxy h.Env → Proxy h.Env
  close p = record p {
    env = released p.env p.has_socket;
    has_socket = false;
    want_write = false;
    buffered = [];
    skip_remaining = 0;
    more_to_read = false;
    read_wants_write = false;
    queue = empty_queue;
    filter_sent = 0;
    subscribe_id = 0;
    deadline_ms = 0;
    next_ping_ms = 0;
    last_heard_ms = 0;
  }

  -- Closed, counted, and a retry armed; the state is still that of the attempt.
  unfoldable pub retry_armed : Proxy h.Env → Proxy h.Env
  unfolding close backoff_delay
  retry_armed p =
      let failures = if ltb p.failures 4294967295 then p.failures + 1 else p.failures in
      record (close p) {
        failures = failures;
        retry_at_ms = u64 (p.now_ms + backoff_delay failures);
      }

  unfoldable pub back_off : Proxy h.Env → Proxy h.Env
  unfolding set_state retry_armed
  back_off p = (set_state (retry_armed p) waiting).1

  -- The first failure is kept until it is cleared.
  unfoldable pub fail_net : Proxy h.Env → Reason → Detail → Proxy h.Env
  unfolding back_off has_failure
  fail_net p reason detail = back_off (
      if has_failure p.failure
      then p
      else record p { failure = record p.failure { reason = reason; detail = detail } })

  unfoldable pub fail_own : Proxy h.Env → Refusal → ℕ → Proxy h.Env
  unfolding back_off has_failure
  fail_own p refusal code = back_off (
      if has_failure p.failure
      then p
      else record p { failure = record p.failure { refusal = refusal; code = code } })

  unfoldable pub fail_tls : Proxy h.Env → Proxy h.Env
  unfolding fail_net
  fail_tls p = fail_net p (h.tls_reason p.env) (of_code (h.tls_code p.env))
