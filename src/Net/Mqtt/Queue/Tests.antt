-- ===== src/Net/Mqtt/Queue/Tests.antt =====
-- Runs of the write queue over a transport that takes two bytes a write, and one that is blocked.
use inkwell.Prelude.{ℕ, suc, ◌≤◌, ◌<◌, ◌≡◌, refl, arith, some, [], ◌∷◌, ◌++◌, Bytes, length, take}
use inkwell.Net.Mqtt.Queue.{
  Queue, wrote, would_block, Transport, IsTransport, next_data, flush, append_packet, queue_packet,
}
use inkwell.Net.Mqtt.Queue.Fifo.{
  backlog, IsSound, IsFlushed, Queued, flush-IsFlushed, queue_packet-Queued,
}
use inkwell.Net.Mqtt.Queue.Retry.{still_blocked, queue_packet_blocked}

two_at_most : Bytes → ℕ
two_at_most [] = 0
two_at_most (x ∷ []) = 1
two_at_most (x ∷ y ∷ rest) = 2

-- The state is what has left.
abbrev by_twos : Transport
by_twos = record {
  State = Bytes;
  write = λ sent data'. (wrote (two_at_most data'), sent ++ take (two_at_most data') data');
  wire = λ sent. sent;
}

two_at_most_bounds :
    (data' : Bytes)
    → 0 < length data'
    → (0 < two_at_most data') × (two_at_most data' ≤ length data')
unfolding two_at_most
two_at_most_bounds [] h = absurd (omega arith)
two_at_most_bounds (x ∷ []) h = (omega arith, omega arith)
two_at_most_bounds (x ∷ y ∷ rest) h = (omega arith, omega arith)

by_twos-IsTransport : IsTransport by_twos
by_twos-IsTransport sent data' h =
    let (some_bytes, few) = two_at_most_bounds data' h in (some_bytes, few, refl)

abbrev a_queue : Queue
a_queue = record { out = 1 ∷ 2 ∷ 3 ∷ 4 ∷ []; out_sent = 1; out_pending = 0 }

a_queue-IsSound : IsSound a_queue
a_queue-IsSound = record { fits = omega arith; pending_le = omega arith }

flush-IsFlushed_example :
    IsFlushed by_twos ((9 ∷ []) ++ backlog a_queue) (flush by_twos a_queue (9 ∷ []))
flush-IsFlushed_example =
    flush-IsFlushed by_twos a_queue (9 ∷ []) by_twos-IsTransport a_queue-IsSound

queue_packet-Queued_example :
    Queued by_twos a_queue
      (9 ∷ [])
      (5 ∷ 6 ∷ [])
      (queue_packet by_twos a_queue (9 ∷ []) (5 ∷ 6 ∷ []))
queue_packet-Queued_example =
    queue_packet-Queued by_twos a_queue (9 ∷ []) (5 ∷ 6 ∷ []) by_twos-IsTransport a_queue-IsSound

-- The state counts the writes that were refused.
abbrev blocked_link : Transport
blocked_link = record {
  State = ℕ;
  write = λ refused data'. (would_block, suc refused);
  wire = λ refused. [];
}

abbrev a_blocked_queue : Queue
a_blocked_queue = record { out = 1 ∷ 2 ∷ 3 ∷ 4 ∷ []; out_sent = 1; out_pending = 2 }

queue_packet_blocked_example :
    (queue_packet blocked_link a_blocked_queue 0 (5 ∷ 6 ∷ []) ≡ (
      append_packet a_blocked_queue (5 ∷ 6 ∷ []),
      some (still_blocked blocked_link (append_packet a_blocked_queue (5 ∷ 6 ∷ [])) 1),
    ))
    × (next_data (append_packet a_blocked_queue (5 ∷ 6 ∷ [])) ≡ next_data a_blocked_queue)
queue_packet_blocked_example =
    queue_packet_blocked blocked_link a_blocked_queue 0 1 (5 ∷ 6 ∷ [])
      (record { fits = omega arith; pending_le = omega arith }) (omega arith) (omega arith) refl
