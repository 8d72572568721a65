-- ===== src/Codec/EspRom/Reader/Bounds.antt =====
-- The reader's buffer.
use inkwell.Prelude.{
  ℕ, suc, ◌+◌, ◌≤◌, ◌≡◌, refl, arith, true, false, none, some, [], ◌∷◌, Bytes, length,
  length-append, ◌==◌, Bool-cases, Option-cases, inl, inr,
}
use inkwell.Codec.EspRom.Request.{slip_end, slip_esc}
use inkwell.Codec.EspRom.Reader.{
  frame_max, Reader, Response, Fed, finished, closed, opened, take_byte, feed_loop, feed,
}

-- The reader never holds more than the source's buffer, and holds nothing between frames.
pub record IsBounded (r : Reader) : Type 0 where
  pub fits : length r.frame ≤ frame_max
  pub between : r.in_frame ≡ false → r.frame ≡ []

take_byte-IsBounded : (r : Reader) (byte : ℕ) → IsBounded r → IsBounded (take_byte r byte)
unfolding take_byte
take_byte-IsBounded r byte b = ground (
  arith,
  b.between,
  length-append r.frame (byte ∷ []),
  length-append r.frame (slip_end ∷ []),
  length-append r.frame (slip_esc ∷ []),
)

module _ (r : Reader) (x : ℕ) (bytes : Bytes) (i : ℕ) where
  feed_delimiter :
      (x == slip_end) ≡ true
      → finished r ≡ none
      → feed_loop (x ∷ bytes) i r ≡ feed_loop bytes (i + 1) opened
  unfolding feed_loop
  feed_delimiter e n = ground arith

  feed_stop :
      (out : Response)
      → (x == slip_end) ≡ true
      → finished r ≡ some out
      → feed_loop (x ∷ bytes) i r
        ≡ record { consumed = i + 1; reader = closed r; response = some out }
  unfolding feed_loop
  feed_stop out e n = ground arith

  feed_take :
      (x == slip_end) ≡ false → feed_loop (x ∷ bytes) i r ≡ feed_loop bytes (i + 1) (take_byte r x)
  unfolding feed_loop
  feed_take e = ground arith

opened-IsBounded : IsBounded opened
opened-IsBounded = record { fits = omega arith; between = λ e. refl }

closed-IsBounded : (r : Reader) → IsBounded (closed r)
closed-IsBounded r = record { fits = omega arith; between = λ e. refl }

one_more :
    (i : ℕ) (bytes : Bytes) (f : Fed)
    → IsBounded f.reader × (f.consumed ≤ i + 1 + length bytes)
    → IsBounded f.reader × (f.consumed ≤ i + suc (length bytes))
one_more i bytes f (kept, few) = (kept, omega arith)

feed_loop-IsBounded :
    (bytes : Bytes) (i : ℕ) (r : Reader)
    → IsBounded r
    → IsBounded (feed_loop bytes i r).reader × ((feed_loop bytes i r).consumed ≤ i + length bytes)
feed_loop-IsBounded [] i r b = unfold feed_loop in (b, omega arith)
feed_loop-IsBounded (x ∷ bytes) i r b = elim (Bool-cases (x == slip_end)) [
  | inl e ↦ elim (Option-cases (finished r)) [
    | inl n ↦ rw (feed_delimiter r x bytes i e n) (
        one_more i bytes (feed_loop bytes (i + 1) opened)
          (feed_loop-IsBounded bytes (i + 1) opened opened-IsBounded))
    | inr (out, s) ↦ rw (feed_stop r x bytes i out e s) (closed-IsBounded r, omega arith)
  ]
  | inr e ↦ rw (feed_take r x bytes i e) (
      one_more i bytes (feed_loop bytes (i + 1) (take_byte r x))
        (feed_loop-IsBounded bytes (i + 1) (take_byte r x) (take_byte-IsBounded r x b)))
]

-- From a reader within its buffer, whatever bytes come, the reader stays within it, holds nothing
-- between frames, and consumes no more than it was given.
pub feed-IsBounded :
    (r : Reader) (bytes : Bytes)
    → IsBounded r
    → IsBounded (feed r bytes).reader × ((feed r bytes).consumed ≤ length bytes)
unfolding feed
feed-IsBounded r bytes b = let (kept, few) = feed_loop-IsBounded bytes 0 r b in (kept, omega arith)
