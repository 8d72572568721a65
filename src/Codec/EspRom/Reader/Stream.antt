-- ===== src/Codec/EspRom/Reader/Stream.antt =====
-- The reader on a stream that arrives in pieces, and a response between two delimiters.
use native.Mathlib.Nat.{add_assoc, add-zero}
use inkwell.Prelude.{
  ℕ, ◌+◌, ◌≤◌, ◌<◌, ◌≡◌, ◌∙◌, ap, refl, arith, true, false, none, some, [], ◌∷◌, ◌++◌, append_assoc,
  append-nil, Bytes, length, length-append,
}
use inkwell.Codec.EspRom.Request.{slip_end}
use inkwell.Codec.EspRom.Request.Slip.{escape_byte, escaped}
use inkwell.Codec.EspRom.Reader.{
  frame_max, reader_reset, Reader, Response, Fed, parse, finished, opened, take_byte, feed_loop,
  feed,
}

-- A piece in which no response ended, and then the rest, is the same as the whole at once: how a
-- serial line cuts the stream does not matter.
feed_loop-append :
    (xs ys : Bytes) (i : ℕ) (r : Reader)
    → (feed_loop xs i r).response ≡ none
    → feed_loop (xs ++ ys) i r ≡ feed_loop ys (i + length xs) (feed_loop xs i r).reader
unfolding feed_loop
feed_loop-append [] ys i r h = ap (λ k. feed_loop ys k r) {x = i} {y = i + 0} (omega arith)
feed_loop-append (x ∷ xs) ys i r h =
    ground
      (arith, feed_loop-append xs ys (i + 1) opened, feed_loop-append xs ys (i + 1) (take_byte r x))

-- The same result, `n` bytes further on.
abbrev pub later : ℕ → Fed → Fed
later n f = record f { consumed = n + f.consumed }

feed_loop-later :
    (xs : Bytes) (i j : ℕ) (r : Reader) → feed_loop xs (j + i) r ≡ later j (feed_loop xs i r)
unfolding feed_loop
feed_loop-later [] i j r = refl
feed_loop-later (x ∷ xs) i j r =
    let e : j + (i + 1) ≡ j + i + 1 = omega arith in
    ground (
      arith,
      rw e at (feed_loop-later xs (i + 1) j opened),
      rw e at (feed_loop-later xs (i + 1) j (take_byte r x)),
    )

-- While no response has ended, a stream fed in two pieces has the result that it has at once, so how
-- a serial line cuts the stream does not matter.
pub feed-append :
    (r : Reader) (xs ys : Bytes)
    → (feed r xs).response ≡ none
    → feed r (xs ++ ys) ≡ later (length xs) (feed (feed r xs).reader ys)
unfolding feed
feed-append r xs ys h =
    feed_loop-append xs ys 0 r h
    ∙ ap (λ k. feed_loop ys k (feed_loop xs 0 r).reader) {x = 0 + length xs} {y = length xs + 0}
        (omega arith)
    ∙ feed_loop-later ys 0 (length xs) (feed_loop xs 0 r).reader

-- A reader inside a frame that holds `frame`.
abbrev pub reading : Bytes → Reader
reading frame = record { frame = frame; in_frame = true; escape = false; overflow = false }

feed_byte :
    (b : ℕ) (tail : Bytes) (i : ℕ) (frame : Bytes)
    → length frame < frame_max
    → feed_loop (escape_byte b ++ tail) i (reading frame)
      ≡ feed_loop tail (i + length (escape_byte b)) (reading (frame ++ (b ∷ [])))
unfolding feed_loop take_byte escape_byte
feed_byte b tail i frame h = ground arith

feed_escaped :
    (bytes tail : Bytes) (i : ℕ) (frame : Bytes)
    → length frame + length bytes ≤ frame_max
    → feed_loop (escaped bytes ++ tail) i (reading frame)
      ≡ feed_loop tail (i + length (escaped bytes)) (reading (frame ++ bytes))
unfolding escaped
feed_escaped [] tail i frame h = rw (append-nil, add-zero)
feed_escaped (b ∷ bytes) tail i frame h =
    rw
      (
        append_assoc (escape_byte b) (escaped bytes) tail,
        length-append (escape_byte b) (escaped bytes),
        ← append_assoc frame (b ∷ []) bytes,
        ← add_assoc i (length (escape_byte b)) (length (escaped bytes)),
      )
      (feed_byte b (escaped bytes ++ tail) i frame (omega arith)
        ∙ feed_escaped bytes tail (i + length (escape_byte b)) (frame ++ (b ∷ []))
            (omega (arith, length-append frame (b ∷ []))))

-- A delimiter where no response ends opens a frame.
pub feed_start :
    (r : Reader) (bytes : Bytes) (i : ℕ)
    → finished r ≡ none
    → feed_loop (slip_end ∷ bytes) i r ≡ feed_loop bytes (i + 1) opened
unfolding feed_loop
feed_start r bytes i idle = ground arith

parse-nonempty : (frame : Bytes) (out : Response) → parse frame ≡ some out → 0 < length frame
unfolding parse
parse-nonempty [] out h = cc
parse-nonempty (x ∷ frame) out h = omega arith

-- The delimiter at the end of a response.
feed_end :
    (frame rest : Bytes) (i : ℕ) (out : Response)
    → parse frame ≡ some out
    → feed_loop (slip_end ∷ rest) i (reading frame)
      ≡ record { consumed = i + 1; reader = reader_reset; response = some out }
unfolding feed_loop finished
feed_end frame rest i out h = ground (arith, parse-nonempty frame out h)

-- Whatever the reader was in the middle of, unless that is itself a response that ends here: a
-- response of 128 bytes at most, escaped between two delimiters, is what the reader returns, having
-- consumed just those bytes, and the reader is then between frames.
pub feed-response :
    (r : Reader) (frame rest : Bytes) (out : Response)
    → finished r ≡ none
    → length frame ≤ frame_max
    → parse frame ≡ some out
    → feed r (slip_end ∷ (escaped frame ++ (slip_end ∷ rest)))
      ≡ record { consumed = 2 + length (escaped frame); reader = reader_reset; response = some out }
unfolding feed
feed-response r frame rest out idle fits is_response =
    feed_start r (escaped frame ++ (slip_end ∷ rest)) 0 idle
    ∙ feed_escaped frame (slip_end ∷ rest) 1 [] (omega arith)
    ∙ feed_end frame rest (1 + length (escaped frame)) out is_response
    ∙ ap (λ n. record { consumed = n; reader = reader_reset; response = some out })
        {x = 1 + length (escaped frame) + 1} {y = 2 + length (escaped frame)} (omega arith)
