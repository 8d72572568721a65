-- ===== src/Net/Mqtt/Inbound/Progress.antt =====
-- The loop that takes packets off the inbound buffer: its rounds, its end and the room it leaves.
use inkwell.Prelude.{
  ℕ, zero, suc, ◌<◌, ◌≡◌, refl, subst, arith, Bytes, length, take, drop, ◌⊎◌, inl, inr, length-drop,
}
use inkwell.Codec.Mqtt.Decode.Stream.{decode_header_bounds, decode_header_waits}
use inkwell.Net.Mqtt.Inbound.{
  packet_max, Handled, going, gone, Client, Inbound, Round, again, stop, dropped, after_handle,
  round, resume, consume_loop, consume,
}
use inkwell.Net.Mqtt.Inbound.Rounds.{
  View, skip_more, skip_done, waiting, refused, oversized, arriving, whole, View-round, round-View,
}

module _ (c : Client) where
  -- The bytes that a round leaves are fewer where the loop goes on.
  abbrev pub Shorter : ℕ → Round c.State → Type 0
  Shorter n (again i) = length i.buffered < n
  Shorter n (stop i) = Unit
  Shorter n (dropped s) = Unit

  after_handle-Shorter :
      (n : ℕ) (rest : Bytes) (handled : Handled c.State)
      → length rest < n
      → Shorter n (after_handle c rest handled)
  unfolding after_handle
  after_handle-Shorter n rest (going s) h = h
  after_handle-Shorter n rest (gone s) h = tt

  View-Shorter :
      (i : Inbound c.State) (r : Round c.State) → View c i r → Shorter (length i.buffered) r
  View-Shorter i r (skip_more h) = tt
  View-Shorter i r (skip_done h k) = omega (arith, length-drop i.skip_remaining i.buffered)
  View-Shorter i r (waiting z d) = tt
  View-Shorter i r (refused e z d) = tt
  View-Shorter i r (oversized h z d big) =
      let (two, five, here, small, legal) = decode_header_bounds i.buffered h d in
      omega (arith, length-drop h.header_len i.buffered, two, here)
  View-Shorter i r (arriving h z d fits few) = tt
  View-Shorter i r (whole h z d fits all) =
      let (two, five, here, small, legal) = decode_header_bounds i.buffered h d in
      after_handle-Shorter (length i.buffered) (drop h.remaining (drop h.header_len i.buffered)) _ (
        omega (
          arith,
          length-drop h.header_len i.buffered,
          length-drop h.remaining (drop h.header_len i.buffered),
          two,
          here,
        ))

  pub round-Shorter : (i : Inbound c.State) → Shorter (length i.buffered) (round c i)
  round-Shorter i = let (r, v) = round-View c i in rw (View-round c i r v) (View-Shorter i r v)

  resume_same :
      (rest rest' : Inbound c.State → Inbound c.State ⊎ c.State) (n : ℕ) (r : Round c.State)
      → ((i : Inbound c.State) → length i.buffered < n → rest i ≡ rest' i)
      → Shorter n r
      → resume c rest r ≡ resume c rest' r
  unfolding resume
  resume_same rest rest' n (again i) same shorter = same i shorter
  resume_same rest rest' n (stop i) same shorter = refl
  resume_same rest rest' n (dropped s) same shorter = refl

  pub consume_loop_enough :
      (n m : ℕ) (i : Inbound c.State)
      → length i.buffered < n
      → length i.buffered < m
      → consume_loop c n i ≡ consume_loop c m i
  unfolding consume_loop
  consume_loop_enough zero m i h k = absurd (omega arith)
  consume_loop_enough (suc n) zero i h k = absurd (omega arith)
  consume_loop_enough (suc n) (suc m) i h k =
      resume_same (consume_loop c n) (consume_loop c m) (length i.buffered) (round c i)
        (λ j shorter. consume_loop_enough n m j (omega arith) (omega arith)) (round-Shorter i)

  pub resume_enough :
      (n m : ℕ) (r : Round c.State)
      → Shorter n r
      → Shorter m r
      → resume c (consume_loop c n) r ≡ resume c (consume_loop c m) r
  unfolding resume
  resume_enough n m (again i) h k = consume_loop_enough n m i h k
  resume_enough n m (stop i) h k = refl
  resume_enough n m (dropped s) h k = refl

  -- A run of the source's loop, which has no count of rounds, to its end and what it leaves.
  pub data Ends : Inbound c.State → Inbound c.State ⊎ c.State → Type 0 where
    at_break : (i j : Inbound c.State) → round c i ≡ stop j → Ends i (inl j)
    at_return : (i : Inbound c.State) (s : c.State) → round c i ≡ dropped s → Ends i (inr s)
    after_round :
        (i j : Inbound c.State) (r : Inbound c.State ⊎ c.State)
        → round c i ≡ again j
        → Ends j r
        → Ends i r

  resume-Ends :
      (rest : Inbound c.State → Inbound c.State ⊎ c.State) (i : Inbound c.State) (r : Round c.State)
      → round c i ≡ r
      → Shorter (length i.buffered) r
      → ((j : Inbound c.State) → length j.buffered < length i.buffered → Ends j (rest j))
      → Ends i (resume c rest r)
  unfolding resume
  resume-Ends rest i (again j) e shorter ends = after_round i j (rest j) e (ends j shorter)
  resume-Ends rest i (stop j) e shorter ends = at_break i j e
  resume-Ends rest i (dropped s) e shorter ends = at_return i s e

  consume_loop-Ends :
      (n : ℕ) (i : Inbound c.State) → length i.buffered < n → Ends i (consume_loop c n i)
  unfolding consume_loop
  consume_loop-Ends zero i h = absurd (omega arith)
  consume_loop-Ends (suc n) i h =
      resume-Ends (consume_loop c n) i (round c i) refl (round-Shorter i)
        (λ j shorter. consume_loop-Ends n j (omega arith))

  -- The loop ends on every buffer: rounds follow each other until one breaks or returns, and what
  -- that one leaves is the result. No run is cut off by the count of rounds.
  pub consume-Ends : (i : Inbound c.State) → Ends i (consume c i)
  unfolding consume
  consume-Ends i = consume_loop-Ends (suc (length i.buffered)) i (omega arith)

  -- Where the loop stops, the buffer is not full.
  abbrev HasRoom : Round c.State → Type 0
  HasRoom (again i) = Unit
  HasRoom (stop i) = length i.buffered < packet_max
  HasRoom (dropped s) = Unit

  after_handle-HasRoom :
      (rest : Bytes) (handled : Handled c.State) → HasRoom (after_handle c rest handled)
  unfolding after_handle
  after_handle-HasRoom rest (going s) = tt
  after_handle-HasRoom rest (gone s) = tt

  View-HasRoom : (i : Inbound c.State) (r : Round c.State) → View c i r → HasRoom r
  View-HasRoom i r (skip_more h) = omega arith
  View-HasRoom i r (skip_done h k) = tt
  View-HasRoom i r (waiting z d) = omega (arith, decode_header_waits i.buffered d)
  View-HasRoom i r (refused e z d) = tt
  View-HasRoom i r (oversized h z d big) = tt
  View-HasRoom i r (arriving h z d fits few) =
      let (two, five, here, small, legal) = decode_header_bounds i.buffered h d in
      omega (arith, fits, few, five)
  View-HasRoom i r (whole h z d fits all) =
      after_handle-HasRoom (drop h.remaining (drop h.header_len i.buffered))
        (c.handle i.client h (take h.remaining (drop h.header_len i.buffered)))

  round-HasRoom : (i : Inbound c.State) → HasRoom (round c i)
  round-HasRoom i = let (r, v) = round-View c i in rw (View-round c i r v) (View-HasRoom i r v)

  abbrev EndsWithRoom : Inbound c.State ⊎ c.State → Type 0
  EndsWithRoom (inl j) = length j.buffered < packet_max
  EndsWithRoom (inr s) = Unit

  resume-EndsWithRoom :
      (rest : Inbound c.State → Inbound c.State ⊎ c.State) (n : ℕ) (r : Round c.State)
      → ((j : Inbound c.State) → length j.buffered < n → EndsWithRoom (rest j))
      → Shorter n r
      → HasRoom r
      → EndsWithRoom (resume c rest r)
  unfolding resume
  resume-EndsWithRoom rest n (again j) hyp shorter room = hyp j shorter
  resume-EndsWithRoom rest n (stop j) hyp shorter room = room
  resume-EndsWithRoom rest n (dropped s) hyp shorter room = tt

  consume_loop-EndsWithRoom :
      (n : ℕ) (i : Inbound c.State) → length i.buffered < n → EndsWithRoom (consume_loop c n i)
  unfolding consume_loop
  consume_loop-EndsWithRoom zero i h = absurd (omega arith)
  consume_loop-EndsWithRoom (suc n) i h =
      resume-EndsWithRoom (consume_loop c n) (length i.buffered) (round c i)
        (λ j fewer. consume_loop-EndsWithRoom n j (omega arith)) (round-Shorter i) (round-HasRoom i)

  -- Whatever was buffered, if the connection is kept then the buffer is left with room for at least
  -- one byte more: what is being waited for is always smaller than the buffer.
  pub consume_leaves_room :
      (i j : Inbound c.State) → consume c i ≡ inl j → length j.buffered < packet_max
  unfolding consume
  consume_leaves_room i j e =
      subst EndsWithRoom e (consume_loop-EndsWithRoom (suc (length i.buffered)) i (omega arith))
