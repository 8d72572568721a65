-- ===== src/Net/Mqtt/Inbound/Rounds.antt =====
-- The rounds of the loop that takes packets off the inbound buffer, case by case.
use inkwell.Prelude.{
  ◌+◌, ◌-◌, ◌≤◌, ◌<◌, ◌≡◌, refl, arith, Option, none, some, [], Bytes, length, take, drop, ltb,
  if◌then◌else◌, Result, ok, err, Errno, inl, inr, length-drop, Bool-cases, ltb→lt, ltb→le, lt→ltb,
  le→ltb, nil_of_length,
}
use inkwell.Codec.Mqtt.Packet.{Header}
use inkwell.Codec.Mqtt.Decode.{decode_header}
use inkwell.Net.Mqtt.Inbound.{
  packet_max, Client, Inbound, Round, again, stop, dropped, skip_round, after_handle, packet_round,
  header_round, round,
}

module _ (c : Client) where
  -- A round, with the tests that lead to it.
  pub data View (i : Inbound c.State) : Round c.State → Type 0 where
    skip_more :
        length i.buffered < i.skip_remaining
        → View i (
            stop
              (record i { buffered = []; skip_remaining = i.skip_remaining - length i.buffered }))
    skip_done :
        0 < i.skip_remaining
        → i.skip_remaining ≤ length i.buffered
        → View i
            (again (record i { buffered = drop i.skip_remaining i.buffered; skip_remaining = 0 }))
    waiting : i.skip_remaining ≡ 0 → decode_header (some i.buffered) ≡ ok none → View i (stop i)
    refused :
        (e : Errno)
        → i.skip_remaining ≡ 0
        → decode_header (some i.buffered) ≡ err e
        → View i (dropped (c.fail_protocol i.client))
    oversized :
        (h : Header)
        → i.skip_remaining ≡ 0
        → decode_header (some i.buffered) ≡ ok (some h)
        → packet_max - h.header_len < h.remaining
        → View i (
            again (record {
              buffered = drop h.header_len i.buffered;
              skip_remaining = h.remaining;
              client = c.count_skipped i.client;
            }))
    arriving :
        (h : Header)
        → i.skip_remaining ≡ 0
        → decode_header (some i.buffered) ≡ ok (some h)
        → h.remaining ≤ packet_max - h.header_len
        → length i.buffered < h.header_len + h.remaining
        → View i (stop i)
    whole :
        (h : Header)
        → i.skip_remaining ≡ 0
        → decode_header (some i.buffered) ≡ ok (some h)
        → h.remaining ≤ packet_max - h.header_len
        → h.header_len + h.remaining ≤ length i.buffered
        → View i (
            after_handle c
              (drop h.remaining (drop h.header_len i.buffered))
              (c.handle i.client h (take h.remaining (drop h.header_len i.buffered))))

  drop_all : (xs : Bytes) → drop (length xs) xs ≡ []
  drop_all xs = nil_of_length (drop (length xs) xs) (omega (arith, length-drop (length xs) xs))

  skip_more_round :
      (i : Inbound c.State)
      → length i.buffered < i.skip_remaining
      → skip_round c i
        ≡ stop (record i { buffered = []; skip_remaining = i.skip_remaining - length i.buffered })
  unfolding skip_round
  skip_more_round i h =
      rw
        (
          le→ltb i.skip_remaining (length i.buffered) (omega arith),
          lt→ltb 0 (i.skip_remaining - length i.buffered) (omega arith),
          drop_all i.buffered,
        )
        refl

  skip_done_round :
      (i : Inbound c.State)
      → i.skip_remaining ≤ length i.buffered
      → skip_round c i
        ≡ again (record i { buffered = drop i.skip_remaining i.buffered; skip_remaining = 0 })
  unfolding skip_round
  skip_done_round i h =
      let chunk : (if ltb i.skip_remaining (length i.buffered)
            then i.skip_remaining
            else length i.buffered)
          ≡ i.skip_remaining =
        ground arith in
      let left : i.skip_remaining - i.skip_remaining ≡ 0 = omega arith in rw (chunk, left) refl

  pub View-round : (i : Inbound c.State) (r : Round c.State) → View i r → round c i ≡ r
  unfolding round header_round packet_round
  View-round i r (skip_more h) = rw (lt→ltb 0 i.skip_remaining (omega arith)) (skip_more_round i h)
  View-round i r (skip_done h k) = rw (lt→ltb 0 i.skip_remaining h) (skip_done_round i k)
  View-round i r (waiting z d) = rw (le→ltb 0 i.skip_remaining (omega arith), d) refl
  View-round i r (refused e z d) = rw (le→ltb 0 i.skip_remaining (omega arith), d) refl
  View-round i r (oversized h z d big) =
      rw
        (
          le→ltb 0 i.skip_remaining (omega arith),
          d,
          lt→ltb (packet_max - h.header_len) h.remaining big,
        )
        refl
  View-round i r (arriving h z d fits few) =
      rw
        (
          le→ltb 0 i.skip_remaining (omega arith),
          d,
          le→ltb (packet_max - h.header_len) h.remaining fits,
          lt→ltb (length i.buffered) (h.header_len + h.remaining) few,
        )
        refl
  View-round i r (whole h z d fits all) =
      rw
        (
          le→ltb 0 i.skip_remaining (omega arith),
          d,
          le→ltb (packet_max - h.header_len) h.remaining fits,
          le→ltb (length i.buffered) (h.header_len + h.remaining) all,
        )
        refl

  header-View :
      (i : Inbound c.State) (decoded : Result (Option Header))
      → i.skip_remaining ≡ 0
      → decode_header (some i.buffered) ≡ decoded
      → (r : Round c.State) × View i r
  header-View i (ok none) z d = (_, waiting z d)
  header-View i (err e) z d = (_, refused e z d)
  header-View i (ok (some h)) z d =
      elim (Bool-cases (ltb (packet_max - h.header_len) h.remaining)) [
        | inl big ↦ (_, oversized h z d (ltb→lt _ _ big))
        | inr fits ↦ elim (Bool-cases (ltb (length i.buffered) (h.header_len + h.remaining))) [
          | inl few ↦ (_, arriving h z d (ltb→le _ _ fits) (ltb→lt _ _ few))
          | inr all ↦ (_, whole h z d (ltb→le _ _ fits) (ltb→le _ _ all))
        ]
      ]

  pub round-View : (i : Inbound c.State) → (r : Round c.State) × View i r
  round-View i = elim (Bool-cases (ltb 0 i.skip_remaining)) [
    | inl skipping ↦ elim (Bool-cases (ltb (length i.buffered) i.skip_remaining)) [
      | inl more ↦ (_, skip_more (ltb→lt _ _ more))
      | inr done ↦ (_, skip_done (ltb→lt _ _ skipping) (ltb→le _ _ done))
    ]
    | inr idle ↦
        header-View i (decode_header (some i.buffered)) (omega (arith, ltb→le _ _ idle)) refl
  ]
