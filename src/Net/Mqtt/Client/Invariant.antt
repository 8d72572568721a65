-- ===== src/Net/Mqtt/Client/Invariant.antt =====
-- The invariant of the client of net/mqtt.c, and that the end of an attempt establishes it.
use mathlib.Core.Bool.{false≢true}
use inkwell.Prelude.{
  u64, ℕ, zero, suc, ◌+◌, ◌^◌, ◌≤◌, ◌<◌, ◌≡◌, refl, sym, subst, ap, arith, ==_iff, ltb, ◌-◌, ◌*◌,
  Bool, true, false, some, [], Bytes, ◌==◌, if◌then◌else◌, ◌∙◌, Bool-cases, inl, inr,
}
use inkwell.Net.Mqtt.Queue.{Queue}
use inkwell.Net.Mqtt.Client.{
  ClientState, off, resolving, connecting, securing, greeting, ready, waiting, is_state, state_code,
  backoff_shift_max, Refusal, Detail, Proxy, Host, handshake_timeout_ms, backoff_base_ms,
  backoff_max_ms, empty_queue,
}
use inkwell.Net.Reason.{Reason}
use inkwell.Net.Mqtt.Client.Failing.{
  backoff_delay, set_state, close, retry_armed, back_off, has_failure, fail_net, fail_own, fail_tls,
}

-- No connection, and nothing left of the last one.
abbrev pub Idle : Bool → Queue → Bytes → ℕ → ℕ → Type 0
Idle has_socket queue buffered skip_remaining subscribe_id =
    (has_socket ≡ false)
    × (queue ≡ empty_queue)
    × (buffered ≡ [])
    × (skip_remaining ≡ 0)
    × (subscribe_id ≡ 0)

-- A connection whose far end has until a deadline, which is set and near.
abbrev pub Timed : Bool → ℕ → ℕ → Type 0
Timed has_socket deadline_ms now_ms =
    (has_socket ≡ true) × (0 < deadline_ms) × (deadline_ms ≤ now_ms + handshake_timeout_ms)

abbrev pub ByState : ClientState → Bool → Queue → Bytes → ℕ → ℕ → ℕ → ℕ → ℕ → Type 0
ByState off has q b k i d r n = Idle has q b k i
ByState resolving has q b k i d r n = Idle has q b k i
ByState connecting has q b k i d r n = Timed has d n
ByState securing has q b k i d r n = Timed has d n
ByState greeting has q b k i d r n = Timed has d n
ByState ready has q b k i d r n = has ≡ true
ByState waiting has q b k i d r n = (r ≤ n + backoff_max_ms) × Idle has q b k i

-- The clock is far from the end of its 64 bits.
pub record Facts (state : ClientState) (has_socket : Bool) (queue : Queue) (buffered : Bytes)
    (skip_remaining subscribe_id deadline_ms retry_at_ms now_ms : ℕ) : Type 0 where
  pub by_state :
      ByState state has_socket queue buffered skip_remaining subscribe_id deadline_ms retry_at_ms
        now_ms
  pub clock : now_ms < 9223372036854775808

abbrev pub IsConsistent : {E : Type 0} → Proxy E → Type 0
IsConsistent p =
    Facts p.state p.has_socket p.queue p.buffered p.skip_remaining p.subscribe_id p.deadline_ms
      p.retry_at_ms p.now_ms

abbrev pub IsLive : {E : Type 0} → Proxy E → Type 0
IsLive p = (p.has_socket ≡ true) × IsConsistent p

abbrev pub IsIdle : {E : Type 0} → Proxy E → Type 0
IsIdle p =
    Idle p.has_socket p.queue p.buffered p.skip_remaining p.subscribe_id
    × (p.now_ms < 9223372036854775808)

-- What the invariant asks of the callbacks: they leave a consistent client, as they do when they
-- change it by its public calls; and one that is told of a TLS handshake and does not start or stop
-- the client leaves the connection open.
pub record WellBehaved (h : Host) : Type 0 where
  pub state_told :
      (s : ClientState) (p : Proxy h.Env) → IsConsistent p → IsConsistent (h.on_state s p)
  pub securing_told :
      (p : Proxy h.Env)
      → p.has_socket ≡ true
      → (h.on_state securing p).generation ≡ p.generation
      → (h.on_state securing p).has_socket ≡ true
  pub message_told :
      (f : Bytes → Bytes → Proxy h.Env → Proxy h.Env) (topic payload : Bytes) (p : Proxy h.Env)
      → h.on_message ≡ some f
      → IsConsistent p
      → IsConsistent (f topic payload p)

of_state_code : ℕ → ClientState
of_state_code n =
    if n == 0
    then off
    else if n == 1
    then resolving
    else if n == 2
    then connecting
    else if n == 3
    then securing
    else if n == 4
    then greeting
    else if n == 5
    then ready
    else waiting

of_state_code-state_code : (s : ClientState) → of_state_code (state_code s) ≡ s
unfolding of_state_code
of_state_code-state_code off = refl
of_state_code-state_code resolving = refl
of_state_code-state_code connecting = refl
of_state_code-state_code securing = refl
of_state_code-state_code greeting = refl
of_state_code-state_code ready = refl
of_state_code-state_code waiting = refl

pub same_state : (s t : ClientState) → is_state s t ≡ true → s ≡ t
same_state s t e =
    sym (of_state_code-state_code s)
    ∙ ap of_state_code ((==_iff (state_code s) (state_code t)).0 e)
    ∙ of_state_code-state_code t

-- What the invariant says at a state that a test has found.
pub at_state :
    {E : Type 0} (p : Proxy E) (s : ClientState)
    → is_state p.state s ≡ true
    → IsConsistent p
    → ByState s p.has_socket p.queue p.buffered p.skip_remaining p.subscribe_id p.deadline_ms
        p.retry_at_ms p.now_ms
at_state p s e facts =
    subst
      (λ (t : ClientState).
        ByState t p.has_socket p.queue p.buffered p.skip_remaining p.subscribe_id p.deadline_ms
          p.retry_at_ms p.now_ms)
      (same_state p.state s e) facts.by_state

pub of_state :
    {E : Type 0} (p : Proxy E) (s : ClientState)
    → is_state p.state s ≡ true
    → IsConsistent (record p { state = s })
    → IsConsistent p
of_state p s e facts =
    subst (λ (t : ClientState). IsConsistent (record p { state = t }))
      (sym (same_state p.state s e)) facts

pub u64_small : (x : ℕ) → x < 18446744073709551616 → u64 x ≡ x
u64_small x hyp = omega arith

-- The buffers of an open connection may hold anything.
pub live_buffers :
    {has_socket : Bool} {q q' : Queue} {b b' : Bytes} {k k' i i' d r n : ℕ} (s : ClientState)
    → has_socket ≡ true
    → Facts s has_socket q b k i d r n
    → Facts s has_socket q' b' k' i' d r n
live_buffers off live f = absurd (false≢true (sym f.by_state.0 ∙ live))
live_buffers resolving live f = absurd (false≢true (sym f.by_state.0 ∙ live))
live_buffers waiting live f = absurd (false≢true (sym f.by_state.1.0 ∙ live))
live_buffers connecting live f = record { by_state = f.by_state; clock = f.clock }
live_buffers securing live f = record { by_state = f.by_state; clock = f.clock }
live_buffers greeting live f = record { by_state = f.by_state; clock = f.clock }
live_buffers ready live f = record { by_state = f.by_state; clock = f.clock }

-- A state with a deadline is entered with a connection and a deadline set just now.
pub enter_timed :
    {has_socket : Bool} {q : Queue} {b : Bytes} {k i r n : ℕ} (timeout : ℕ)
    → has_socket ≡ true
    → n < 9223372036854775808
    → 0 < timeout
    → timeout ≤ handshake_timeout_ms
    → (Facts connecting has_socket q b k i (u64 (n + timeout)) r n)
      × (Facts securing has_socket q b k i (u64 (n + timeout)) r n)
      × (Facts greeting has_socket q b k i (u64 (n + timeout)) r n)
enter_timed {has_socket = has_socket} {n = n} timeout live clock some_time short =
    let same = u64_small (n + timeout) (omega arith) in
    let timed : Timed has_socket (u64 (n + timeout)) n =
      (live, omega (arith, same), omega (arith, same)) in
    (
      record { by_state = timed; clock = clock },
      record { by_state = timed; clock = clock },
      record { by_state = timed; clock = clock },
    )

power_positive : (n : ℕ) → 1 ≤ 2 ^ n
power_positive zero = omega arith
power_positive (suc n) = let hyp = power_positive n in omega arith

delay_within :
    (delay : ℕ)
    → backoff_base_ms ≤ delay
    → (backoff_base_ms ≤ (if ltb backoff_max_ms delay then backoff_max_ms else delay))
      × ((if ltb backoff_max_ms delay then backoff_max_ms else delay) ≤ backoff_max_ms)
delay_within delay some_delay = (ground arith, ground arith)

-- Whatever the count of failures in a row, the next attempt is at least five seconds and at most
-- five minutes away.
pub backoff_delay_bounds :
    (failures : ℕ)
    → (backoff_base_ms ≤ backoff_delay failures) × (backoff_delay failures ≤ backoff_max_ms)
backoff_delay_bounds failures =
    let over = if ltb backoff_shift_max (failures - 1) then backoff_shift_max else failures - 1 in
    let shift = if ltb 1 failures then over else 0 in
    let some_delay = power_positive shift in
    (unfold backoff_delay in delay_within (backoff_base_ms * 2 ^ shift) (omega arith))

module _ (h : Host) (behaved : WellBehaved h) where
  pub set_state-IsConsistent :
      (p : Proxy h.Env) (s : ClientState)
      → IsConsistent (record p { state = s })
      → IsConsistent (set_state h p s).1
  unfolding set_state
  set_state-IsConsistent p s facts = elim (Bool-cases (is_state p.state s)) [
    | inl same ↦ rw same (of_state p s same facts)
    | inr other ↦ rw other (behaved.state_told s (record p { state = s }) facts)
  ]

  pub close-IsIdle : (p : Proxy h.Env) → p.now_ms < 9223372036854775808 → IsIdle (close h p)
  unfolding close
  close-IsIdle p clock = ((refl, refl, refl, refl, refl), clock)

  pub back_off-IsConsistent :
      (p : Proxy h.Env) → p.now_ms < 9223372036854775808 → IsConsistent (back_off h p)
  unfolding back_off retry_armed close
  back_off-IsConsistent p clock =
      let armed = retry_armed h p in
      let (least, most) = backoff_delay_bounds armed.failures in
      set_state-IsConsistent armed waiting (record {
        by_state = (
          omega (arith, u64_small (p.now_ms + backoff_delay armed.failures) (omega (arith, most))),
          (refl, refl, refl, refl, refl),
        );
        clock = clock;
      })

  back_off_either :
      (b : Bool) (p q : Proxy h.Env)
      → p.now_ms < 9223372036854775808
      → q.now_ms < 9223372036854775808
      → IsConsistent (back_off h (if b then p else q))
  back_off_either true p q clock clock' = back_off-IsConsistent p clock
  back_off_either false p q clock clock' = back_off-IsConsistent q clock'

  pub fail_net-IsConsistent :
      (p : Proxy h.Env) (reason : Reason) (detail : Detail)
      → p.now_ms < 9223372036854775808
      → IsConsistent (fail_net h p reason detail)
  unfolding fail_net
  fail_net-IsConsistent p reason of clock = back_off_either (has_failure p.failure) p _ clock clock

  pub fail_own-IsConsistent :
      (p : Proxy h.Env) (refusal : Refusal) (code : ℕ)
      → p.now_ms < 9223372036854775808
      → IsConsistent (fail_own h p refusal code)
  unfolding fail_own
  fail_own-IsConsistent p refusal code clock =
      back_off_either (has_failure p.failure) p _ clock clock

  pub fail_tls-IsConsistent :
      (p : Proxy h.Env) → p.now_ms < 9223372036854775808 → IsConsistent (fail_tls h p)
  unfolding fail_tls
  fail_tls-IsConsistent p clock = fail_net-IsConsistent p _ _ clock
