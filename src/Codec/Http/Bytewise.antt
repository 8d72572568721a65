-- ===== src/Codec/Http/Bytewise.antt =====
-- Feeding a response of codec/http.c runs of bytes is feeding it the bytes one by one.
use inkwell.Prelude.{
  ℕ, suc, ◌+◌, ◌-◌, ◌≤◌, ◌<◌, ◌≡◌, ◌∙◌, refl, sym, ap, subst, arith, Bool, true, false, [], ◌∷◌,
  ◌++◌, Bytes, length, take, drop, ltb, ◌==◌, Bool-cases, inl, inr, ◌⊎◌, u64, length-drop,
  nil_of_length, append-nil, ltb→lt,
}
use inkwell.Codec.Http.{
  in_head, in_length, in_chunk_size, in_chunk_data, in_chunk_end, in_chunk_end_lf, in_trailer,
  until_close, finished, broken, Phase, HttpResponse,
}
use inkwell.Codec.Http.Response.{
  head_byte, chunk_size_byte, chunk_end_byte, chunk_end_lf_byte, trailer_byte, FedResponse, given,
  at_most, take_body, take_rest, after_byte, feed_at, feed_bytes, response_feed,
}
use inkwell.Codec.Http.Framed.{
  SomeLeft, IsFramed, Framed, head_byte-IsFramed, chunk_size_byte-IsFramed, chunk_end_byte-IsFramed,
  chunk_end_lf_byte-IsFramed, trailer_byte-IsFramed,
}

-- One byte in a phase: the response it leaves, and the byte of the body that it is.
abbrev pub step_at : Phase → HttpResponse → ℕ → HttpResponse × Bytes
step_at in_head r c = ((head_byte r c).1, [])
step_at in_length r c = (given r finished 1, c ∷ [])
step_at in_chunk_size r c = ((chunk_size_byte r c).1, [])
step_at in_chunk_data r c = (given r in_chunk_end 1, c ∷ [])
step_at in_chunk_end r c = ((chunk_end_byte r c).1, [])
step_at in_chunk_end_lf r c = ((chunk_end_lf_byte r c).1, [])
step_at in_trailer r c = ((trailer_byte r c).1, [])
step_at until_close r c = (record r { body_received = u64 (r.body_received + 1) }, c ∷ [])
step_at finished r c = (r, [])
step_at broken r c = (r, [])

abbrev pub in_front : Bytes → HttpResponse × Bytes → HttpResponse × Bytes
in_front front p = (p.0, front ++ p.1)

pub run_bytes : Bytes → HttpResponse → HttpResponse × Bytes
run_bytes [] r = (r, [])
run_bytes (c ∷ bytes) r =
    let stepped = step_at r.phase r c in in_front stepped.1 (run_bytes bytes stepped.0)

-- Byte by byte behind what a call has taken.
abbrev pub run_behind : Bytes → FedResponse → HttpResponse × Bytes
run_behind bytes f = in_front f.body (run_bytes (drop f.consumed bytes) f.response)

given_again :
    (r : HttpResponse) (ended : Phase) (m : ℕ)
    → 1 < r.remaining
    → given (given r ended 1) ended m ≡ given r ended (suc m)
given_again r ended m several =
    let left : r.remaining - 1 - m ≡ r.remaining - suc m = omega arith in
    let sum : u64 (u64 (r.body_received + 1) + m) ≡ u64 (r.body_received + suc m) = omega arith in
    let more : (r.remaining - 1 == 0) ≡ false = ground arith in rw (more, left, sum) refl

-- In a body of known length, or in a chunk, each byte is one of the body.
abbrev IsBodyPhase : Phase → Phase → Type 0
IsBodyPhase ph ended = (r : HttpResponse) (c : ℕ) → step_at ph r c ≡ (given r ended 1, c ∷ [])

-- Byte by byte behind `n` bytes of the body.
abbrev taken : HttpResponse → Phase → ℕ → Bytes → HttpResponse × Bytes
taken r ended n bytes = in_front (take n bytes) (run_bytes (drop n bytes) (given r ended n))

step_body :
    (ph ended : Phase) (c : ℕ) (bytes : Bytes) (r : HttpResponse)
    → IsBodyPhase ph ended
    → r.phase ≡ ph
    → run_bytes (c ∷ bytes) r ≡ in_front (c ∷ []) (run_bytes bytes (given r ended 1))
unfolding run_bytes
step_body ph ended c bytes r steps e =
    ap (λ (s : HttpResponse × Bytes). in_front s.1 (run_bytes bytes s.0))
      (ap (λ (t : Phase). step_at t r c) e ∙ steps r c)

still_in :
    (ph ended : Phase) (r : HttpResponse)
    → r.phase ≡ ph
    → 1 < r.remaining
    → (given r ended 1).phase ≡ ph
still_in ph ended r e several =
    let more : (r.remaining - 1 == 0) ≡ false = ground arith in rw more e

last_byte :
    (ph ended : Phase) (c : ℕ) (bytes : Bytes) (r : HttpResponse)
    → IsBodyPhase ph ended
    → r.phase ≡ ph
    → at_most r.remaining (suc (length bytes)) ≡ 1
    → run_bytes (c ∷ bytes) r ≡ run_behind (c ∷ bytes) (take_body r ended (c ∷ bytes))
unfolding take_body
last_byte ph ended c bytes r steps e one =
    step_body ph ended c bytes r steps e ∙ sym (ap (λ (n : ℕ). taken r ended n (c ∷ bytes)) one)

run_body :
    (ph ended : Phase) (c : ℕ) (bytes : Bytes) (r : HttpResponse)
    → IsBodyPhase ph ended
    → r.phase ≡ ph
    → 0 < r.remaining
    → run_bytes (c ∷ bytes) r ≡ run_behind (c ∷ bytes) (take_body r ended (c ∷ bytes))
unfolding take_body
run_body ph ended c [] r steps e left = last_byte ph ended c [] r steps e (ground arith)
run_body ph ended c (d ∷ bytes) r steps e left = elim (Bool-cases (ltb 1 r.remaining)) [
  | inl several ↦
      let m = at_most (r.remaining - 1) (suc (length bytes)) in
      let next : at_most r.remaining (suc (suc (length bytes))) ≡ suc m = ground arith in
      step_body ph ended c (d ∷ bytes) r steps e
      ∙ ap (in_front (c ∷ [])) (
          run_body ph ended d bytes (given r ended 1) steps
            (still_in ph ended r e (ltb→lt _ _ several)) (omega (arith, ltb→lt _ _ several)))
      ∙ ap
          (λ (q : HttpResponse).
            in_front (c ∷ take m (d ∷ bytes)) (run_bytes (drop m (d ∷ bytes)) q))
          (given_again r ended m (ltb→lt _ _ several))
      ∙ sym (ap (λ (n : ℕ). taken r ended n (c ∷ d ∷ bytes)) next)
  | inr last ↦ last_byte ph ended c (d ∷ bytes) r steps e (ground arith)
]

run_rest :
    (c : ℕ) (bytes : Bytes) (r : HttpResponse)
    → r.phase ≡ until_close
    → run_bytes (c ∷ bytes) r
      ≡ (record r { body_received = u64 (r.body_received + suc (length bytes)) }, c ∷ bytes)
unfolding run_bytes
run_rest c [] r e =
    ap (λ (t : Phase). in_front (step_at t r c).1 (run_bytes [] (step_at t r c).0)) e
run_rest c (d ∷ bytes) r e =
    let sum : u64 (u64 (r.body_received + 1) + suc (length bytes))
        ≡ u64 (r.body_received + suc (suc (length bytes))) =
      omega arith in
    ap (λ (t : Phase). in_front (step_at t r c).1 (run_bytes (d ∷ bytes) (step_at t r c).0)) e
    ∙ ap (in_front (c ∷ []))
        (run_rest d bytes (record r { body_received = u64 (r.body_received + 1) }) e)
    ∙ ap (λ (n : ℕ). (record r { body_received = n }, c ∷ d ∷ bytes)) sum

drop_all : (bytes : Bytes) → drop (length bytes) bytes ≡ []
drop_all bytes =
    nil_of_length (drop (length bytes) bytes) (omega (arith, length-drop (length bytes) bytes))

run_until_close :
    (c : ℕ) (bytes : Bytes) (r : HttpResponse)
    → r.phase ≡ until_close
    → run_bytes (c ∷ bytes) r ≡ run_behind (c ∷ bytes) (take_rest r (c ∷ bytes))
unfolding take_rest run_bytes
run_until_close c bytes r e = rw (drop_all bytes, append-nil bytes) (run_rest c bytes r e)

-- What a call has to do with the bytes that it was given.
pub record IsBytewise (bytes : Bytes) (r : HttpResponse) (f : FedResponse) : Type 0 where
  pub same : run_bytes bytes r ≡ run_behind bytes f
  pub inside : f.consumed ≤ length bytes
  pub framed : Framed f.response

at_most_right : (n m : ℕ) → at_most n m ≤ m
at_most_right n m = ground arith

phase-IsFramed : {ph ph' : Phase} {n : ℕ} → ph ≡ ph' → IsFramed ph n → IsFramed ph' n
phase-IsFramed {n = n} e f = subst (λ (t : Phase). IsFramed t n) e f

body-Framed :
    (ended : Phase) (r : HttpResponse) (n : ℕ)
    → ((m : ℕ) → SomeLeft ended m)
    → (r.phase ≡ in_length) ⊎ (r.phase ≡ in_chunk_data)
    → Framed (given r ended n)
body-Framed ended r n over here = elim (Bool-cases (r.remaining - n == 0)) [
  | inl empty ↦ rw empty (record { some_left = over (r.remaining - n) })
  | inr more ↦ rw more (elim here [
    | inl e ↦ phase-IsFramed (sym e) (record { some_left = ground arith })
    | inr e ↦ phase-IsFramed (sym e) (record { some_left = ground arith })
  ])
]

after_byte-IsBytewise :
    (c : ℕ) (bytes : Bytes) (r : HttpResponse) (result : Bool × HttpResponse)
    → run_bytes (c ∷ bytes) r ≡ run_bytes bytes result.1
    → Framed result.1
    → ((q : HttpResponse) → Framed q → IsBytewise bytes q (feed_bytes bytes q))
    → IsBytewise (c ∷ bytes) r (after_byte (feed_bytes bytes) result)
after_byte-IsBytewise c bytes r (true, q) step framed hyp = record {
  same = step;
  inside = omega arith;
  framed = framed;
}
after_byte-IsBytewise c bytes r (false, q) step framed hyp =
    let f = hyp q framed in
    record { same = step ∙ f.same; inside = omega (arith, f.inside); framed = f.framed }

framing_step :
    (ph : Phase) (c : ℕ) (bytes : Bytes) (r q : HttpResponse)
    → r.phase ≡ ph
    → step_at ph r c ≡ (q, [])
    → run_bytes (c ∷ bytes) r ≡ run_bytes bytes q
unfolding run_bytes
framing_step ph c bytes r q e step =
    ap (λ (s : HttpResponse × Bytes). in_front s.1 (run_bytes bytes s.0))
      (ap (λ (t : Phase). step_at t r c) e ∙ step)

feed_at-IsBytewise :
    (ph : Phase) (c : ℕ) (bytes : Bytes) (r : HttpResponse)
    → r.phase ≡ ph
    → Framed r
    → ((q : HttpResponse) → Framed q → IsBytewise bytes q (feed_bytes bytes q))
    → IsBytewise (c ∷ bytes) r (feed_at ph (feed_bytes bytes) r c bytes)
unfolding take_rest take_body
feed_at-IsBytewise in_head c bytes r e f hyp =
    after_byte-IsBytewise c bytes r (head_byte r c) (framing_step in_head c bytes r _ e refl)
      (head_byte-IsFramed r c f) hyp
feed_at-IsBytewise in_chunk_size c bytes r e f hyp =
    after_byte-IsBytewise c bytes r (chunk_size_byte r c)
      (framing_step in_chunk_size c bytes r _ e refl) (chunk_size_byte-IsFramed r c f) hyp
feed_at-IsBytewise in_chunk_end c bytes r e f hyp =
    after_byte-IsBytewise c bytes r (chunk_end_byte r c)
      (framing_step in_chunk_end c bytes r _ e refl) (chunk_end_byte-IsFramed r c) hyp
feed_at-IsBytewise in_chunk_end_lf c bytes r e f hyp =
    after_byte-IsBytewise c bytes r (chunk_end_lf_byte r c)
      (framing_step in_chunk_end_lf c bytes r _ e refl) (chunk_end_lf_byte-IsFramed r c) hyp
feed_at-IsBytewise in_trailer c bytes r e f hyp =
    after_byte-IsBytewise c bytes r (trailer_byte r c) (framing_step in_trailer c bytes r _ e refl)
      (trailer_byte-IsFramed r c f) hyp
feed_at-IsBytewise in_length c bytes r e f hyp =
    let left : 0 < r.remaining = (phase-IsFramed e f).some_left in
    record {
      same = run_body in_length finished c bytes r (λ q d. refl) e left;
      inside = at_most_right r.remaining (suc (length bytes));
      framed = body-Framed finished r _ (λ m. tt) (inl e);
    }
feed_at-IsBytewise in_chunk_data c bytes r e f hyp =
    let left : 0 < r.remaining = (phase-IsFramed e f).some_left in
    record {
      same = run_body in_chunk_data in_chunk_end c bytes r (λ q d. refl) e left;
      inside = at_most_right r.remaining (suc (length bytes));
      framed = body-Framed in_chunk_end r _ (λ m. tt) (inr e);
    }
feed_at-IsBytewise until_close c bytes r e f hyp = record {
  same = run_until_close c bytes r e;
  inside = omega arith;
  framed = f;
}
feed_at-IsBytewise finished c bytes r e f hyp = record {
  same = refl;
  inside = omega arith;
  framed = f;
}
feed_at-IsBytewise broken c bytes r e f hyp = record {
  same = refl;
  inside = omega arith;
  framed = f;
}

feed_bytes-IsBytewise :
    (bytes : Bytes) (r : HttpResponse) → Framed r → IsBytewise bytes r (feed_bytes bytes r)
unfolding feed_bytes run_bytes
feed_bytes-IsBytewise [] r f = record { same = refl; inside = omega arith; framed = f }
feed_bytes-IsBytewise (c ∷ bytes) r f =
    feed_at-IsBytewise r.phase c bytes r refl f (feed_bytes-IsBytewise bytes)

-- A call does with a run of bytes what feeding them one by one does: the body it returns, and behind
-- it what the bytes that it has not taken give from the response that it leaves, are the body and the
-- response of all the bytes, one at a time. It takes no more than it was given, and it leaves a
-- response like the one it needs, of which some is left inside a body of known length or a chunk.
pub response_feed-IsBytewise :
    (bytes : Bytes) (r : HttpResponse) → Framed r → IsBytewise bytes r (response_feed r bytes)
unfolding response_feed
response_feed-IsBytewise bytes r f = feed_bytes-IsBytewise bytes r f
