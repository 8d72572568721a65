-- ===== src/Net/Mqtt/Queue/Retry.antt =====
-- A blocked write: TLS wants the same bytes again, whatever is queued behind them.
use inkwell.Prelude.{
  ℕ, zero, suc, ◌+◌, ◌≤◌, ◌<◌, ◌≡◌, refl, arith, false, none, some, Bytes, length, drop,
  length-drop, length-append, take-append, drop-append, lt→ltb, le→ltb,
}
use inkwell.Net.Mqtt.Queue.{
  outbound_max, Queue, would_block, Transport, Flushed, next_chunk, next_data, on_answer,
  flush_loop, settle, after_loop, flush, make_room, append_packet, queue_packet,
}
use inkwell.Net.Mqtt.Queue.Fifo.{IsSound}

next_chunk_pending : (q : Queue) → 0 < q.out_pending → next_chunk q ≡ q.out_pending
unfolding next_chunk
next_chunk_pending q blocked = rw (lt→ltb 0 q.out_pending blocked) refl

next_data-append :
    (q : Queue) (packet : Bytes)
    → IsSound q
    → 0 < q.out_pending
    → next_data (append_packet q packet) ≡ next_data q
next_data-append q packet sound blocked =
    rw
      (
        next_chunk_pending (append_packet q packet) blocked,
        next_chunk_pending q blocked,
        drop-append q.out_sent q.out packet (omega (arith, sound.pending_le)),
      )
      (take-append q.out_pending (drop q.out_sent q.out) packet
        (omega (arith, sound.pending_le, length-drop q.out_sent q.out)))

settle_more : (q : Queue) → q.out_sent < length q.out → settle q ≡ q
unfolding settle
settle_more q more = ground arith

module _ (t : Transport) where
  abbrev pub still_blocked : Queue → t.State → Flushed t
  still_blocked q s = record { queue = q; state = s; sent_something = false; fatal = none }

  flush_loop_blocked :
      (fuel : ℕ) (q : Queue) (s s' : t.State)
      → 0 < fuel
      → 0 < q.out_pending
      → q.out_sent < length q.out
      → t.write s (next_data q) ≡ (would_block, s')
      → flush_loop t fuel false q s ≡ still_blocked q s'
  unfolding flush_loop on_answer
  flush_loop_blocked zero q s s' fueled blocked more answer = absurd (omega arith)
  flush_loop_blocked (suc fuel) q s s' fueled blocked more answer =
      rw (lt→ltb q.out_sent (length q.out) more, answer, next_chunk_pending q blocked) refl

  flush_blocked :
      (q : Queue) (s s' : t.State)
      → 0 < q.out_pending
      → q.out_sent < length q.out
      → t.write s (next_data q) ≡ (would_block, s')
      → flush t q s ≡ still_blocked q s'
  unfolding flush after_loop
  flush_blocked q s s' blocked more answer =
      rw
        (
          flush_loop_blocked (length q.out) q s s' (omega arith) blocked more answer,
          settle_more q more,
        )
        refl

  -- While a write is blocked and the transport still blocks it, a packet that fits is put behind
  -- what is queued, nothing is sent, and the next write is of the very same bytes.
  pub queue_packet_blocked :
      (q : Queue) (s s' : t.State) (packet : Bytes)
      → IsSound q
      → 0 < q.out_pending
      → length q.out + length packet ≤ outbound_max
      → t.write s (next_data q) ≡ (would_block, s')
      → (queue_packet t q s packet
          ≡ (append_packet q packet, some (still_blocked (append_packet q packet) s')))
        × (next_data (append_packet q packet) ≡ next_data q)
  unfolding queue_packet make_room
  queue_packet_blocked q s s' packet sound blocked room answer =
      let same = next_data-append q packet sound blocked in
      let again =
        flush_blocked (append_packet q packet) s s' blocked
          (omega (arith, length-append q.out packet, sound.pending_le)) (rw same answer) in
      (
        rw
            (
              le→ltb outbound_max (length q.out + length packet) room,
              le→ltb outbound_max (length q.out + length packet) room,
              again,
            )
            refl,
        same,
      )
