-- ===== src/Net/Mqtt/Inbound/Framing.antt =====
-- How the stream is cut into reads does not matter to the packets that are taken off it.
use inkwell.Prelude.{
  ℕ, zero, suc, ◌-◌, ◌≤◌, ◌<◌, ◌≡◌, ◌∙◌, refl, sym, ap, subst, arith, Option, some, [], ◌++◌, Bytes,
  length, take, drop, ltb, Result, ok, err, ◌⊎◌, inl, inr, length-append, length-drop, drop-append,
  drop-append_past, take-append, Bool-cases, ltb→lt, ltb→le,
}
use inkwell.Codec.Mqtt.Packet.{Header}
use inkwell.Codec.Mqtt.Decode.{decode_header}
use inkwell.Codec.Mqtt.Decode.Stream.{Decided, decode_header-append, decode_header_bounds}
use inkwell.Net.Mqtt.Inbound.{
  Handled, going, gone, Client, Inbound, Round, again, stop, dropped, after_handle, round, resume,
  consume_loop, consume,
}
use inkwell.Net.Mqtt.Inbound.Rounds.{
  View, skip_more, skip_done, waiting, refused, oversized, arriving, whole, View-round, round-View,
}
use inkwell.Net.Mqtt.Inbound.Progress.{Shorter, round-Shorter, consume_loop_enough, resume_enough}

-- More bytes behind those that are buffered.
abbrev pub receive : {C : Type 0} → Inbound C → Bytes → Inbound C
receive i bytes = record i { buffered = i.buffered ++ bytes }

module _ (c : Client) where
  -- A round on more bytes: the same, or, where the loop stopped, what goes on from there.
  abbrev Extends : Bytes → Round c.State → Round c.State → Type 0
  Extends more (again i) r = r ≡ again (receive i more)
  Extends more (stop i) r = round c (receive i more) ≡ r
  Extends more (dropped s) r = r ≡ dropped s

  after_handle-Extends :
      (rest more : Bytes) (handled : Handled c.State)
      → Extends more (after_handle c rest handled) (after_handle c (rest ++ more) handled)
  unfolding after_handle
  after_handle-Extends rest more (going s) = refl
  after_handle-Extends rest more (gone s) = refl

  decode_more :
      (xs more : Bytes) (decoded : Result (Option Header))
      → Decided decoded
      → decode_header (some xs) ≡ decoded
      → decode_header (some (xs ++ more)) ≡ decoded
  decode_more xs more decoded decided d =
      decode_header-append xs more (subst Decided (sym d) decided) ∙ d

  abbrev skipped : Inbound c.State → Bytes → ℕ → Inbound c.State
  skipped i bytes left = record i { buffered = bytes; skip_remaining = left }

  skip_more-Extends :
      (i : Inbound c.State) (more : Bytes)
      → length i.buffered < i.skip_remaining
      → round c (skipped i more (i.skip_remaining - length i.buffered)) ≡ round c (receive i more)
  skip_more-Extends i more h =
      let left = i.skip_remaining - length i.buffered in
      let joined = length-append i.buffered more in
      elim (Bool-cases (ltb (length more) left)) [
        | inl short ↦
            View-round c (skipped i more left) _ (skip_more (ltb→lt _ _ short))
            ∙ ap (λ k. stop (skipped i [] k)) {x = left - length more}
                {y = i.skip_remaining - length (i.buffered ++ more)} (omega (arith, joined))
            ∙ sym (
                View-round c (receive i more) _
                  (skip_more (omega (arith, joined, ltb→lt _ _ short))))
        | inr long ↦
            View-round c (skipped i more left) _ (skip_done (omega arith) (ltb→le _ _ long))
            ∙ ap (λ bytes. again (skipped i bytes 0))
                (sym (drop-append_past i.skip_remaining i.buffered more (omega arith)))
            ∙ sym (
                View-round c (receive i more) _
                  (skip_done (omega arith) (omega (arith, joined, ltb→le _ _ long))))
      ]

  View-Extends :
      (i : Inbound c.State) (more : Bytes) (r : Round c.State)
      → View c i r
      → Extends more r (round c (receive i more))
  View-Extends i more r (skip_more h) = skip_more-Extends i more h
  View-Extends i more r (skip_done h k) =
      View-round c (receive i more) _ (skip_done h (omega (arith, length-append i.buffered more)))
      ∙ ap (λ bytes. again (skipped i bytes 0)) (drop-append i.skip_remaining i.buffered more k)
  View-Extends i more r (waiting z d) = refl
  View-Extends i more r (refused e z d) =
      View-round c (receive i more) _ (refused e z (decode_more i.buffered more (err e) tt d))
  View-Extends i more r (oversized h z d big) =
      let (two, five, here, small, legal) = decode_header_bounds i.buffered h d in
      View-round c (receive i more) _
        (oversized h z (decode_more i.buffered more (ok (some h)) tt d) big)
      ∙ ap
          (λ bytes. again (record {
            buffered = bytes;
            skip_remaining = h.remaining;
            client = c.count_skipped i.client;
          }))
          (drop-append h.header_len i.buffered more here)
  View-Extends i more r (arriving h z d fits few) = refl
  View-Extends i more r (whole h z d fits all) =
      let (two, five, here, small, legal) = decode_header_bounds i.buffered h d in
      let body = drop h.header_len i.buffered in
      let enough : h.remaining ≤ length body = omega (arith, length-drop h.header_len i.buffered) in
      rw
        (
          View-round c (receive i more) _ (
              whole h z (decode_more i.buffered more (ok (some h)) tt d) fits
                (omega (arith, length-append i.buffered more))),
          drop-append h.header_len i.buffered more here,
          drop-append h.remaining body more enough,
          take-append h.remaining body more enough,
        )
        (after_handle-Extends (drop h.remaining body) more
          (c.handle i.client h (take h.remaining body)))

  -- Reading on from what a run has left.
  abbrev pub read_on : Bytes → Inbound c.State ⊎ c.State → Inbound c.State ⊎ c.State
  read_on more (inl i) = consume c (receive i more)
  read_on more (inr s) = inr s

  round-Extends :
      (i : Inbound c.State) (more : Bytes) → Extends more (round c i) (round c (receive i more))
  round-Extends i more =
      let (r, v) = round-View c i in rw (View-round c i r v) (View-Extends i more r v)

  same_round : (i j : Inbound c.State) → round c i ≡ round c j → consume c i ≡ consume c j
  unfolding consume consume_loop
  same_round i j e =
      resume_enough c (length i.buffered) (length j.buffered) (round c i) (round-Shorter c i)
        (rw e (round-Shorter c j))
      ∙ ap (resume c (consume_loop c (length j.buffered))) e

  consume_again :
      (i j : Inbound c.State)
      → length j.buffered < length i.buffered
      → round c i ≡ again j
      → consume c j ≡ consume c i
  unfolding consume consume_loop resume
  consume_again i j fewer e =
      consume_loop_enough c (suc (length j.buffered)) (length i.buffered) j (omega arith) fewer
      ∙ sym (ap (resume c (consume_loop c (length i.buffered))) e)

  consume_dropped :
      (i : Inbound c.State) (s : c.State) → round c i ≡ dropped s → inr s ≡ consume c i
  unfolding consume consume_loop resume
  consume_dropped i s e = sym (ap (resume c (consume_loop c (length i.buffered))) e)

  resume_on :
      (n : ℕ) (i : Inbound c.State) (more : Bytes) (r : Round c.State)
      → ((j : Inbound c.State)
          → length j.buffered < length i.buffered
          → read_on more (consume_loop c n j) ≡ consume c (receive j more))
      → Shorter c (length i.buffered) r
      → Extends more r (round c (receive i more))
      → read_on more (resume c (consume_loop c n) r) ≡ consume c (receive i more)
  unfolding resume
  resume_on n i more (again j) hyp shorter e =
      hyp j shorter
      ∙ consume_again (receive i more) (receive j more)
          (omega (arith, shorter, length-append i.buffered more, length-append j.buffered more)) e
  resume_on n i more (stop j) hyp shorter e = same_round (receive j more) (receive i more) e
  resume_on n i more (dropped s) hyp shorter e = consume_dropped (receive i more) s e

  consume_loop-receive :
      (n : ℕ) (i : Inbound c.State) (more : Bytes)
      → length i.buffered < n
      → read_on more (consume_loop c n i) ≡ consume c (receive i more)
  unfolding consume_loop
  consume_loop-receive zero i more h = absurd (omega arith)
  consume_loop-receive (suc n) i more h =
      resume_on n i more (round c i) (λ j fewer. consume_loop-receive n j more (omega arith))
        (round-Shorter c i) (round-Extends i more)

  -- Taking packets off a buffer and then off what is left with more bytes behind it, unless the
  -- connection was dropped on the way, has the result of taking them off all the bytes at once: the
  -- same handlers run on the same packets in the same order, oversized ones are skipped alike, and
  -- the same bytes are left.
  pub consume-receive :
      (i : Inbound c.State) (more : Bytes) → consume c (receive i more) ≡ read_on more (consume c i)
  consume-receive i more =
      sym (unfold consume in consume_loop-receive (suc (length i.buffered)) i more (omega arith))
