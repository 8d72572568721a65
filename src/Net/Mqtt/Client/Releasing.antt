-- ===== src/Net/Mqtt/Client/Releasing.antt =====
-- How a failure ends an attempt of net/mqtt.c: what is released, what is kept, and the retry.
use mathlib.Core.Bool.{false≢true}
use inkwell.Prelude.{
  ◌+◌, ◌≡◌, ◌≢◌, ◌≤◌, ◌<◌, refl, sym, ◌∙◌, ap, arith, Bool, true, false, if◌then◌else◌, [],
  Bool-cases, inl, inr,
}
use inkwell.Net.Reason.{
  Reason, net_ok, net_bad_address, unknown_host, lookup_failed, lookup_timed_out, unreachable,
  timed_out, closed, tls_failed, clock_behind, is_failure,
}
use inkwell.Net.Mqtt.Client.{
  ClientState, waiting, is_state, Refusal, refusal_none, bad_address, no_tls, protocol, bad_login,
  not_allowed, broker_busy, other_refusal, Detail, Failure, Proxy, Host, empty_queue,
}
use inkwell.Net.Mqtt.Client.Failing.{
  backoff_delay, is_refusal, has_failure, released, set_state, close, retry_armed, back_off,
  fail_net,
}
use inkwell.Net.Mqtt.Client.Invariant.{backoff_delay_bounds, u64_small}

no_reason_left : (r : Reason) → is_failure r ≡ false → r ≡ net_ok
no_reason_left net_ok e = refl
no_reason_left net_bad_address e = absurd (false≢true (sym e))
no_reason_left unknown_host e = absurd (false≢true (sym e))
no_reason_left lookup_failed e = absurd (false≢true (sym e))
no_reason_left lookup_timed_out e = absurd (false≢true (sym e))
no_reason_left unreachable e = absurd (false≢true (sym e))
no_reason_left timed_out e = absurd (false≢true (sym e))
no_reason_left closed e = absurd (false≢true (sym e))
no_reason_left tls_failed e = absurd (false≢true (sym e))
no_reason_left clock_behind e = absurd (false≢true (sym e))

no_refusal_left : (r : Refusal) → is_refusal r ≡ false → r ≡ refusal_none
no_refusal_left refusal_none e = refl
no_refusal_left bad_address e = absurd (false≢true (sym e))
no_refusal_left no_tls e = absurd (false≢true (sym e))
no_refusal_left protocol e = absurd (false≢true (sym e))
no_refusal_left bad_login e = absurd (false≢true (sym e))
no_refusal_left not_allowed e = absurd (false≢true (sym e))
no_refusal_left broker_busy e = absurd (false≢true (sym e))
no_refusal_left other_refusal e = absurd (false≢true (sym e))

module _ (h : Host) where
  -- The calls that let go of an attempt: the lookup is cancelled, the TLS session stopped, and then
  -- an open socket taken from the loop and closed.
  abbrev pub LetGo : h.Env → Bool → h.Env → Type 0
  LetGo before true env =
      env ≡ h.socket_close (h.remove_watch (h.tls_stop (h.resolve_cancel before)))
  LetGo before false env = env ≡ h.tls_stop (h.resolve_cancel before)

  let_go :
      (before : h.Env) (has_socket : Bool) → LetGo before has_socket (released h before has_socket)
  let_go before true = refl
  let_go before false = refl

  -- A failure that is kept: one with a reason or a refusal stays, and else the new reason is set.
  pub record Kept (old : Failure) (reason : Reason) (of : Detail) (kept : Failure) : Type 0 where
    pub reason_stays : old.reason ≢ net_ok → kept ≡ old
    pub refusal_stays : old.refusal ≢ refusal_none → kept ≡ old
    pub new_set :
        old.reason ≡ net_ok
        → old.refusal ≡ refusal_none
        → kept ≡ record old { reason = reason; detail = of }

  -- A client as `on_state` is told of it behind a failure of the client `p`.
  pub record Released (p : Proxy h.Env) (reason : Reason) (of : Detail) (told : Proxy h.Env)
      : Type 0 where
    pub told_waiting : told.state ≡ waiting
    pub env_released : LetGo p.env p.has_socket told.env
    pub no_socket : told.has_socket ≡ false
    pub no_queue : told.queue ≡ empty_queue
    pub no_bytes : told.buffered ≡ []
    pub first_failure : Kept p.failure reason of told.failure
    pub same_generation : told.generation ≡ p.generation
    pub not_yet : p.now_ms + 5000 ≤ told.retry_at_ms
    pub soon : told.retry_at_ms ≤ p.now_ms + 300000

  set_state_told :
      (p : Proxy h.Env) (s : ClientState)
      → is_state p.state s ≡ false
      → (set_state h p s).1 ≡ h.on_state s (record p { state = s })
  unfolding set_state
  set_state_told p s e = rw e refl

  -- Which failure is kept, on what the two tests say of the one that was there.
  tests-Kept :
      (old : Failure) (reason : Reason) (of : Detail)
      → Kept old reason of
          (if has_failure old then old else record old { reason = reason; detail = of })
  unfolding has_failure
  tests-Kept old reason of = elim (Bool-cases (is_failure old.reason)) [
    | inl failed ↦ rw failed (record {
      reason_stays = λ some_reason. refl;
      refusal_stays = λ some_refusal. refl;
      new_set = λ no_reason no_refusal.
          absurd (false≢true (sym (ap (λ (r : Reason). is_failure r) no_reason) ∙ failed));
    })
    | inr fine ↦ elim (Bool-cases (is_refusal old.refusal)) [
      | inl refused ↦
          rw (fine, refused)
            (record {
              reason_stays = λ some_reason. refl;
              refusal_stays = λ some_refusal. refl;
              new_set = λ no_reason no_refusal.
                  absurd
                    (false≢true (sym (ap (λ (r : Refusal). is_refusal r) no_refusal) ∙ refused));
            })
      | inr accepted ↦
          rw (fine, accepted)
            (record {
              reason_stays = λ some_reason. absurd (some_reason (no_reason_left old.reason fine));
              refusal_stays =
                  λ some_refusal. absurd (some_refusal (no_refusal_left old.refusal accepted));
              new_set = λ no_reason no_refusal. refl;
            })
    ]
  ]

  back_off-Released :
      (p q : Proxy h.Env) (reason : Reason) (of : Detail)
      → is_state p.state waiting ≡ false
      → p.now_ms < 9223372036854775808
      → Kept p.failure reason of q.failure
      → q ≡ record p { failure = q.failure }
      → (told : Proxy h.Env) × (back_off h q ≡ h.on_state waiting told) × Released p reason of told
  unfolding back_off retry_armed close
  back_off-Released p q reason of running clock kept same =
      let armed = retry_armed h (record p { failure = q.failure }) in
      let (least, most) = backoff_delay_bounds armed.failures in
      let at = u64_small (p.now_ms + backoff_delay armed.failures) (omega (arith, most)) in
      (
        record armed { state = waiting },
        ap (λ (r : Proxy h.Env). back_off h r) same ∙ set_state_told armed waiting running,
        record {
          told_waiting = refl;
          env_released = let_go p.env p.has_socket;
          no_socket = refl;
          no_queue = refl;
          no_bytes = refl;
          first_failure = kept;
          same_generation = refl;
          not_yet = omega (arith, at, least);
          soon = omega (arith, at, most);
        },
      )

  same_but_failure :
      (b : Bool) (p : Proxy h.Env) (new : Failure)
      → (if b then p else record p { failure = new })
        ≡ record p { failure = if b then p.failure else new }
  same_but_failure true p new = refl
  same_but_failure false p new = refl

  -- A failure of an attempt that runs, on a clock below 2^63: `on_state` is told of waiting, on a
  -- client whose lookup is cancelled and whose TLS session is stopped, whose socket, if it had one, is
  -- taken from the loop and then closed, and whose buffers are empty, with a retry due at least five
  -- seconds and at most five minutes from its clock; a failure that has a reason or a refusal is
  -- kept, and else this one is set. Nothing else is called, and the result is what `on_state` leaves.
  pub fail_net-Released :
      (p : Proxy h.Env) (reason : Reason) (of : Detail)
      → is_state p.state waiting ≡ false
      → p.now_ms < 9223372036854775808
      → (told : Proxy h.Env) × (fail_net h p reason of ≡ h.on_state waiting told)
        × Released p reason of told
  unfolding fail_net
  fail_net-Released p reason of running clock =
      let new = record p.failure { reason = reason; detail = of } in
      let failing = record p { failure = if has_failure p.failure then p.failure else new } in
      let (told, e, facts) =
        back_off-Released p failing reason of running clock (tests-Kept p.failure reason of) refl in
      (
        told,
        ap (λ (q : Proxy h.Env). back_off h q) (same_but_failure (has_failure p.failure) p new) ∙ e,
        facts,
      )
