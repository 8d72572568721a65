-- ===== src/Net/Mqtt/Queue.antt =====
-- The write queue of net/mqtt.c. `out` holds the `out_len` bytes that the source's buffer has in
-- use; the transport below it, a socket or a TLS session, is a parameter with a state of its own.
pub mod Fifo
pub mod Retry
mod Tests
use inkwell.Prelude.{
  ℕ, zero, suc, ◌+◌, ◌-◌, ◌≤◌, ◌<◌, ◌≡◌, Bool, true, false, not, Option, none, some, List, [], ◌++◌,
  Bytes, length, take, drop, ltb, leb, ◌==◌, if◌then◌else◌,
}

abbrev pub outbound_max : ℕ
outbound_max = 4096

pub record Queue : Type 0 where
  pub out : Bytes
  pub out_sent : ℕ
  pub out_pending : ℕ

-- What `mqtt_raw_write` returns: a count, -EAGAIN, or another negative errno.
pub data Answer : Type 0 where
  wrote : ℕ → Answer
  would_block : Answer
  failed : ℕ → Answer

-- The transport: its state, the call that writes, and the bytes that have left by it.
pub record Transport : Type 1 where
  pub State : Type 0
  pub write : State → Bytes → Answer × State
  pub wire : State → Bytes

abbrev pub Wrote : (t : Transport) → t.State → Bytes → Answer × t.State → Type 0
Wrote t s data' (wrote n, s') =
    (0 < n) × (n ≤ length data') × (t.wire s' ≡ t.wire s ++ take n data')
Wrote t s data' (would_block, s') = t.wire s' ≡ t.wire s
Wrote t s data' (failed errno, s') = t.wire s' ≡ t.wire s

-- What send() and mbedtls_ssl_write() document: a write of some bytes that returns a count has sent
-- that many of them, one at least, from the front; one that returns an error has sent none.
abbrev pub IsTransport : Transport → Type 0
IsTransport t = (s : t.State) (data' : Bytes) → 0 < length data' → Wrote t s data' (t.write s data')

-- A flush: the queue and the transport it leaves, whether bytes went out, and a fatal errno.
pub record Flushed (t : Transport) : Type 0 where
  pub queue : Queue
  pub state : t.State
  pub sent_something : Bool
  pub fatal : Option ℕ

-- The bytes of the next write: those of the write that was blocked, or all that are left.
pub next_chunk : Queue → ℕ
next_chunk q = if ltb 0 q.out_pending then q.out_pending else length q.out - q.out_sent

abbrev pub next_data : Queue → Bytes
next_data q = take (next_chunk q) (drop q.out_sent q.out)

-- Behind the loop: a queue that is sent out starts again at the front.
pub settle : Queue → Queue
settle q =
    if leb (length q.out) q.out_sent then record { out = []; out_sent = 0; out_pending = 0 } else q

pub compact_out : Queue → Queue
compact_out q =
    if q.out_sent == 0
    then q
    else if ltb 0 q.out_pending
    then q
    else record { out = drop q.out_sent q.out; out_sent = 0; out_pending = q.out_pending }

pub make_room : Queue → ℕ → Queue
make_room q len = if ltb outbound_max (length q.out + len) then compact_out q else q

abbrev pub append_packet : Queue → Bytes → Queue
append_packet q packet = record q { out = q.out ++ packet }

module _ (t : Transport) where
  -- What the rest of a round makes of the answer; `rest` is the next round.
  pub on_answer : (Queue → t.State → Flushed t) → Queue → ℕ → Bool → Answer × t.State → Flushed t
  on_answer rest q chunk sent_something (wrote n, s) =
      rest (record q { out_pending = 0; out_sent = q.out_sent + n }) s
  on_answer rest q chunk sent_something (would_block, s) = record {
    queue = record q { out_pending = chunk };
    state = s;
    sent_something = sent_something;
    fatal = none;
  }
  on_answer rest q chunk sent_something (failed errno, s) = record {
    queue = q;
    state = s;
    sent_something = sent_something;
    fatal = some errno;
  }

  -- The loop of `mqtt_flush`; a round sends a byte at least.
  pub flush_loop : ℕ → Bool → Queue → t.State → Flushed t
  flush_loop zero sent_something q s = record {
    queue = q;
    state = s;
    sent_something = sent_something;
    fatal = none;
  }
  flush_loop (suc fuel) sent_something q s =
      if ltb q.out_sent (length q.out)
      then on_answer (flush_loop fuel true) q (next_chunk q) sent_something
          (t.write s (next_data q))
      else record { queue = q; state = s; sent_something = sent_something; fatal = none }

  pub after_loop : Flushed t → Option ℕ → Flushed t
  after_loop f (some errno) = f
  after_loop f none = record f { queue = settle f.queue }

  pub flush : Queue → t.State → Flushed t
  flush q s = let f = flush_loop (length q.out) false q s in after_loop f f.fatal

  -- `none` is -ENOSPC, beside the queue as it is then; otherwise the flush.
  pub queue_packet : Queue → t.State → Bytes → Queue × Option (Flushed t)
  queue_packet q s packet =
      let roomy = make_room q (length packet) in
      if ltb outbound_max (length roomy.out + length packet)
      then (roomy, none)
      else (append_packet roomy packet, some (flush (append_packet roomy packet) s))
