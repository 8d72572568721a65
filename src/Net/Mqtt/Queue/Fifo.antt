-- ===== src/Net/Mqtt/Queue/Fifo.antt =====
-- The write queue as a first-in first-out stream of bytes.
use inkwell.Prelude.{
  ℕ, zero, suc, ◌+◌, ◌-◌, ◌≤◌, ◌<◌, ◌≡◌, ◌⊎◌, inl, inr, refl, sym, ap, arith, Bool, true, false,
  Option, none, some, [], ◌++◌, Bytes, length, take, drop, ltb, leb, ◌==◌, if◌then◌else◌,
  length-take, length-drop, length-append, take-take, drop-add, drop-append, take-append-drop,
  append_assoc, Bool-cases, ltb→lt, ltb→le, subst, ◌∙◌, nil_of_length,
}
use inkwell.Net.Mqtt.Queue.{
  outbound_max, Queue, Answer, wrote, would_block, failed, Transport, Wrote, IsTransport, Flushed,
  next_chunk, next_data, on_answer, flush_loop, settle, after_loop, flush, compact_out, make_room,
  append_packet, queue_packet,
}

-- What is queued and has not left.
abbrev pub backlog : Queue → Bytes
backlog q = drop q.out_sent q.out

pub record IsSound (q : Queue) : Type 0 where
  pub fits : length q.out ≤ outbound_max
  pub pending_le : q.out_sent + q.out_pending ≤ length q.out

next_chunk_le : (q : Queue) → IsSound q → next_chunk q ≤ length q.out - q.out_sent
unfolding next_chunk
next_chunk_le q sound = ground (arith, sound.pending_le)

next_chunk_positive : (q : Queue) → IsSound q → q.out_sent < length q.out → 0 < next_chunk q
unfolding next_chunk
next_chunk_positive q sound more = ground arith

length-next_data : (q : Queue) → IsSound q → length (next_data q) ≡ next_chunk q
length-next_data q sound = omega (
  arith,
  next_chunk_le q sound,
  length-take (next_chunk q) (drop q.out_sent q.out),
  length-drop q.out_sent q.out,
)

-- The bytes that a count of them says have left are the front of the backlog.
taken :
    (n : ℕ) (q : Queue)
    → n ≤ next_chunk q
    → take n (next_data q) ++ drop (q.out_sent + n) q.out ≡ backlog q
taken n q few =
    rw (take-take n (next_chunk q) (drop q.out_sent q.out) few, drop-add q.out_sent n q.out)
      (take-append-drop n (drop q.out_sent q.out))

-- After a fatal error nothing is promised; otherwise nothing is queued, or a write is blocked.
abbrev pub Ended : Option ℕ → Queue → Type 0
Ended (some errno) q = Unit
Ended none q = (length q.out ≤ q.out_sent) ⊎ (0 < q.out_pending)

settle-backlog : (q : Queue) → backlog (settle q) ≡ backlog q
unfolding settle
settle-backlog q = elim (Bool-cases (leb (length q.out) q.out_sent)) [
  | inl done ↦
      rw done (sym (nil_of_length (backlog q) (ground (arith, length-drop q.out_sent q.out))))
  | inr more ↦ rw more refl
]

settle-IsSound : (q : Queue) → IsSound q → IsSound (settle q)
unfolding settle
settle-IsSound q sound = record {
  fits = ground (arith, sound.fits);
  pending_le = ground (arith, sound.pending_le);
}

settle-Ended : (q : Queue) → Ended none q → ((settle q).out ≡ []) ⊎ (0 < (settle q).out_pending)
unfolding settle
settle-Ended q (inl done) = elim (Bool-cases (leb (length q.out) q.out_sent)) [
  | inl e ↦ rw e (inl refl)
  | inr e ↦ absurd (ground arith)
]
settle-Ended q (inr blocked) = elim (Bool-cases (leb (length q.out) q.out_sent)) [
  | inl e ↦ rw e (inl refl)
  | inr e ↦ rw e (inr blocked)
]

module _ (t : Transport) where
  -- The stream is what has left and then what is queued.
  pub record Kept (stream : Bytes) (f : Flushed t) : Type 0 where
    pub same : t.wire f.state ++ backlog f.queue ≡ stream
    pub sound : IsSound f.queue
    pub ended : Ended f.fatal f.queue

  Kept-if :
      (stream : Bytes) (c : Bool) (f g : Flushed t)
      → (c ≡ true → Kept stream f)
      → (c ≡ false → Kept stream g)
      → Kept stream (if c then f else g)
  Kept-if stream true f g h k = h refl
  Kept-if stream false f g h k = k refl

  on_answer-Kept :
      (rest : Queue → t.State → Flushed t) (q : Queue) (sent_something : Bool) (s : t.State)
      → IsSound q
      → q.out_sent < length q.out
      → ((n : ℕ) (s' : t.State)
          → 0 < n
          → n ≤ next_chunk q
          → t.wire s' ++ drop (q.out_sent + n) q.out ≡ t.wire s ++ backlog q
          → Kept
              (t.wire s ++ backlog q)
              (rest (record q { out_pending = 0; out_sent = q.out_sent + n }) s'))
      → (answer : Answer × t.State) → Wrote t s (next_data q) answer
      → Kept (t.wire s ++ backlog q) (on_answer t rest q (next_chunk q) sent_something answer)
  unfolding on_answer
  on_answer-Kept rest q sent_something s sound more go (wrote n, s') (some_bytes, few, out) =
      let few' : n ≤ next_chunk q = omega (arith, few, length-next_data q sound) in
      go n s' some_bytes few' (
        rw
          (
            out,
            append_assoc (t.wire s) (take n (next_data q)) (drop (q.out_sent + n) q.out),
            taken n q few',
          )
          refl)
  on_answer-Kept rest q sent_something s sound more go (would_block, s') still = record {
    same = ap (λ w. w ++ backlog q) still;
    sound = record { fits = sound.fits; pending_le = omega (arith, next_chunk_le q sound) };
    ended = inr (next_chunk_positive q sound more);
  }
  on_answer-Kept rest q sent_something s sound more go (failed errno, s') still = record {
    same = ap (λ w. w ++ backlog q) still;
    sound = sound;
    ended = tt;
  }

  flush_loop-Kept :
      (fuel : ℕ) (sent_something : Bool) (q : Queue) (s : t.State)
      → IsTransport t
      → IsSound q
      → length q.out ≤ fuel + q.out_sent
      → Kept (t.wire s ++ backlog q) (flush_loop t fuel sent_something q s)
  unfolding flush_loop
  flush_loop-Kept zero sent_something q s honest sound enough = record {
    same = refl;
    sound = sound;
    ended = inl (omega arith);
  }
  flush_loop-Kept (suc fuel) sent_something q s honest sound enough =
      Kept-if (t.wire s ++ backlog q) (ltb q.out_sent (length q.out)) _ _
        (λ more.
          let more' : q.out_sent < length q.out = ltb→lt _ _ more in
          on_answer-Kept (flush_loop t fuel true) q sent_something s sound more'
            (λ n s' some_bytes few same.
              subst
                (λ stream. Kept stream (
                  flush_loop t fuel true (record q { out_pending = 0; out_sent = q.out_sent + n })
                    s'))
                same
                (flush_loop-Kept fuel true (record q { out_pending = 0; out_sent = q.out_sent + n })
                  s' honest
                  (record { fits = sound.fits; pending_le = omega (arith, next_chunk_le q sound) })
                  (omega arith)))
            (t.write s (next_data q))
            (honest s (next_data q)
              (omega (arith, length-next_data q sound, next_chunk_positive q sound more'))))
        (λ done. record { same = refl; sound = sound; ended = inl (ltb→le _ _ done) })

  -- What a flush leaves: the stream kept, and without a fatal error no bytes or a blocked write.
  abbrev pub Rested : Option ℕ → Queue → Type 0
  Rested (some errno) q = Unit
  Rested none q = (q.out ≡ []) ⊎ (0 < q.out_pending)

  pub record IsFlushed (stream : Bytes) (f : Flushed t) : Type 0 where
    pub same : t.wire f.state ++ backlog f.queue ≡ stream
    pub sound : IsSound f.queue
    pub rested : Rested f.fatal f.queue

  after_loop-IsFlushed :
      (stream : Bytes) (f : Flushed t) (fatal : Option ℕ)
      → f.fatal ≡ fatal
      → Kept stream f
      → IsFlushed stream (after_loop t f fatal)
  unfolding after_loop
  after_loop-IsFlushed stream f (some errno) e kept = record {
    same = kept.same;
    sound = kept.sound;
    rested = rw e tt;
  }
  after_loop-IsFlushed stream f none e kept =
      let ended : Ended none f.queue = rw e at kept.ended in
      record {
        same = rw (settle-backlog f.queue) kept.same;
        sound = settle-IsSound f.queue kept.sound;
        rested = rw e (settle-Ended f.queue ended);
      }

  -- A flush keeps the stream on every branch: what has left and then what is queued is what it was,
  -- so no byte is lost, sent twice or out of order; the queue stays sound; and where there is no
  -- fatal error the queue is empty or its next write is one that was blocked.
  pub flush-IsFlushed :
      (q : Queue) (s : t.State)
      → IsTransport t
      → IsSound q
      → IsFlushed (t.wire s ++ backlog q) (flush t q s)
  unfolding flush
  flush-IsFlushed q s honest sound =
      after_loop-IsFlushed (t.wire s ++ backlog q) (flush_loop t (length q.out) false q s)
        (flush_loop t (length q.out) false q s).fatal refl
        (flush_loop-Kept (length q.out) false q s honest sound (omega arith))

compact_out-backlog : (q : Queue) → backlog (compact_out q) ≡ backlog q
unfolding compact_out
compact_out-backlog q = elim (Bool-cases (q.out_sent == 0)) [
  | inl none_sent ↦ rw none_sent refl
  | inr some_sent ↦ elim (Bool-cases (ltb 0 q.out_pending)) [
    | inl blocked ↦ rw (some_sent, blocked) refl
    | inr free ↦ rw (some_sent, free) refl
  ]
]

compact_out-IsSound : (q : Queue) → IsSound q → IsSound (compact_out q)
unfolding compact_out
compact_out-IsSound q sound = record {
  fits = ground (arith, sound.fits, length-drop q.out_sent q.out);
  pending_le = ground (arith, sound.pending_le, length-drop q.out_sent q.out);
}

make_room-backlog : (q : Queue) (len : ℕ) → backlog (make_room q len) ≡ backlog q
unfolding make_room
make_room-backlog q len = elim (Bool-cases (ltb outbound_max (length q.out + len))) [
  | inl full ↦ rw full (compact_out-backlog q)
  | inr room ↦ rw room refl
]

make_room-IsSound : (q : Queue) (len : ℕ) → IsSound q → IsSound (make_room q len)
unfolding make_room
make_room-IsSound q len sound = elim (Bool-cases (ltb outbound_max (length q.out + len))) [
  | inl full ↦ rw full (compact_out-IsSound q sound)
  | inr room ↦ rw room sound
]

-- What became of a packet: refused for want of room, with the backlog as it was, or put behind the
-- backlog and flushed.
abbrev pub Queued : (t : Transport) → Queue → t.State → Bytes → Queue × Option (Flushed t) → Type 0
Queued t q s packet (left, none) =
    (backlog left ≡ backlog q) × IsSound left × (outbound_max < length left.out + length packet)
Queued t q s packet (left, some f) = IsFlushed t (t.wire s ++ (backlog q ++ packet)) f

Queued-if :
    (t : Transport) (q : Queue) (s : t.State) (packet : Bytes) (c : Bool)
    (refused accepted : Queue × Option (Flushed t))
    → (c ≡ true → Queued t q s packet refused)
    → (c ≡ false → Queued t q s packet accepted)
    → Queued t q s packet (if c then refused else accepted)
Queued-if t q s packet true refused accepted h k = h refl
Queued-if t q s packet false refused accepted h k = k refl

-- A packet that is queued goes whole behind everything that was queued before, and one that does
-- not fit is refused with the backlog as it was.
pub queue_packet-Queued :
    (t : Transport) (q : Queue) (s : t.State) (packet : Bytes)
    → IsTransport t
    → IsSound q
    → Queued t q s packet (queue_packet t q s packet)
unfolding queue_packet
queue_packet-Queued t q s packet honest sound =
    let roomy = make_room q (length packet) in
    let roomy_sound = make_room-IsSound q (length packet) sound in
    let sent_le : roomy.out_sent ≤ length roomy.out = omega (arith, roomy_sound.pending_le) in
    Queued-if t q s packet (ltb outbound_max (length roomy.out + length packet)) (roomy, none)
      (append_packet roomy packet, some (flush t (append_packet roomy packet) s))
      (λ full. (make_room-backlog q (length packet), roomy_sound, ltb→lt _ _ full))
      (λ room.
        subst (λ stream. IsFlushed t (t.wire s ++ stream) (flush t (append_packet roomy packet) s))
          (drop-append roomy.out_sent roomy.out packet sent_le
            ∙ ap (λ b. b ++ packet) (make_room-backlog q (length packet)))
          (flush-IsFlushed t (append_packet roomy packet) s honest (record {
            fits = omega (arith, length-append roomy.out packet, ltb→le _ _ room);
            pending_le = omega (arith, length-append roomy.out packet, roomy_sound.pending_le);
          })))
