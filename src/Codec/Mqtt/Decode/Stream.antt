-- ===== src/Codec/Mqtt/Decode/Stream.antt =====
-- What the decoders promise on a stream: a decision on a prefix stands, and lengths stay in bounds.
use mathlib.Core.Option
use native.Mathlib.Nat.{pow-suc}
use inkwell.Prelude.{
  ℕ, zero, suc, ◌+◌, ◌*◌, ◌^◌, ◌≤◌, ◌<◌, ◌≡◌, ap, arith, Option, none, some, [], ◌∷◌, ◌++◌, Bytes,
  low_bits, u32, length, Result, ok, err, ◌>>=◌, true, shr, refl,
}
use inkwell.Codec.Mqtt.Varint.{read_varint_loop, read_varint, remaining_max}
use inkwell.Codec.Mqtt.Packet.{Header, packet_type, flags_are_legal}
use inkwell.Codec.Mqtt.Decode.{decode_header, header_of}

-- Whether a decoder has decided: it found what it looks for, or refused the input.
abbrev pub Decided {ℓ} : {A : Type ℓ} → Result (Option A) → Type 0
Decided (ok none) = ⊥
Decided (ok (some a)) = Unit
Decided (err e) = Unit

read_varint_loop-append :
    (rounds : ℕ) (xs ys : Bytes) (i value m : ℕ)
    → Decided (read_varint_loop rounds xs i value m)
    → read_varint_loop rounds (xs ++ ys) i value m ≡ read_varint_loop rounds xs i value m
unfolding read_varint_loop
read_varint_loop-append zero xs ys i value m d = ground arith
read_varint_loop-append (suc r) [] ys i value m d = absurd d
read_varint_loop-append (suc r) (b ∷ xs) ys i value m d = ground (
  arith,
  read_varint_loop-append r xs ys (i + 1) (u32 (value + low_bits b 7 * m)) (u32 (m * 128)),
)

-- A header that was found, or refused, on a prefix of the stream is found, or refused, alike
-- whatever bytes follow.
pub decode_header-append :
    (xs ys : Bytes)
    → Decided (decode_header (some xs))
    → decode_header (some (xs ++ ys)) ≡ decode_header (some xs)
unfolding decode_header read_varint
decode_header-append [] ys d = absurd d
decode_header-append (x ∷ xs) ys d = ground (arith, read_varint_loop-append 4 xs ys 0 0 1)

read_varint_loop_takes :
    (rounds : ℕ) (xs : Bytes) (i value m used v : ℕ)
    → read_varint_loop rounds xs i value m ≡ ok (some (used, v))
    → (i < used) × (used ≤ i + rounds) × (used ≤ i + length xs)
unfolding read_varint_loop
read_varint_loop_takes zero xs i value m used v e = ground arith
read_varint_loop_takes (suc r) [] i value m used v e = ground arith
read_varint_loop_takes (suc r) (b ∷ xs) i value m used v e = ground (
  arith,
  read_varint_loop_takes r xs (i + 1) (u32 (value + low_bits b 7 * m)) (u32 (m * 128)) used v,
)

one-le-pow : (r : ℕ) → 1 ≤ 128 ^ r
one-le-pow zero = omega arith
one-le-pow (suc r) = omega (arith, one-le-pow r)

read_varint_loop-lt :
    (rounds : ℕ) (xs : Bytes) (i value m used v : ℕ)
    → value < m
    → m * 128 ^ rounds ≤ 2 ^ 28
    → read_varint_loop rounds xs i value m ≡ ok (some (used, v))
    → v < 2 ^ 28
unfolding read_varint_loop
read_varint_loop-lt zero xs i value m used v h fits e = ground arith
read_varint_loop-lt (suc r) [] i value m used v h fits e = ground arith
read_varint_loop-lt (suc r) (b ∷ xs) i value m used v h fits e = ground (
  arith,
  room.0,
  step,
  read_varint_loop-lt r xs (i + 1) (value + low_bits b 7 * m) (m * 128) used v step room.1,
)
  where
    step : value + low_bits b 7 * m < m * 128
    step = grind arith

    room : (m * 128 ≤ 2 ^ 28) × (m * 128 * 128 ^ r ≤ 2 ^ 28)
    room =
        let p : 1 ≤ 128 ^ r = one-le-pow r in grind (arith, ap (λ (t : ℕ). m * t) (pow-suc 128 r))

read_varint_loop_waits :
    (rounds : ℕ) (xs : Bytes) (i value m : ℕ)
    → read_varint_loop rounds xs i value m ≡ ok none
    → length xs < rounds
unfolding read_varint_loop
read_varint_loop_waits zero xs i value m e = ground arith
read_varint_loop_waits (suc r) [] i value m e = omega arith
read_varint_loop_waits (suc r) (b ∷ xs) i value m e =
    ground
      (arith, read_varint_loop_waits r xs (i + 1) (u32 (value + low_bits b 7 * m)) (u32 (m * 128)))

-- The decoder asks for more bytes only while it has fewer than five.
pub decode_header_waits : (xs : Bytes) → decode_header (some xs) ≡ ok none → length xs < 5
unfolding decode_header read_varint
decode_header_waits [] e = omega arith
decode_header_waits (x ∷ xs) e = ground (arith, read_varint_loop_waits 4 xs 0 0 1)

header_found :
    (x : ℕ) (h : Header) (r : Result (Option (ℕ × ℕ)))
    → (r >>= λ varint. ok (Option.map (header_of x) varint)) ≡ ok (some h)
    → (used : ℕ) × (v : ℕ) × (r ≡ ok (some (used, v))) × (h ≡ header_of x (used, v))
header_found x h (ok none) e = cc
header_found x h (ok (some (used, v))) e = (used, v, refl, cc)
header_found x h (err c) e = cc

-- The two refusals passed, and the varint was read.
header_checks :
    (x : ℕ) (xs : Bytes) (h : Header)
    → decode_header (some (x ∷ xs)) ≡ ok (some h)
    → (flags_are_legal (packet_type (shr x 4)) (low_bits x 4) ≡ true)
      × ((read_varint xs >>= λ varint. ok (Option.map (header_of x) varint)) ≡ ok (some h))
unfolding decode_header
header_checks x xs h e = ground arith

read_varint_bounds :
    (xs : Bytes) (used v : ℕ)
    → read_varint xs ≡ ok (some (used, v))
    → (0 < used) × (used ≤ 4) × (used ≤ length xs) × (v ≤ remaining_max)
unfolding read_varint
read_varint_bounds xs used v e = omega (
  arith,
  read_varint_loop_takes 4 xs 0 0 1 used v e,
  read_varint_loop-lt 4 xs 0 0 1 used v (omega arith) (omega arith) e,
)

-- A header that is found takes 2 to 5 bytes, all of them at hand, its flags are legal for its
-- type, and the length that it announces is at most the protocol's maximum.
pub decode_header_bounds :
    (xs : Bytes) (h : Header)
    → decode_header (some xs) ≡ ok (some h)
    → (2 ≤ h.header_len)
      × (h.header_len ≤ 5)
      × (h.header_len ≤ length xs)
      × (h.remaining ≤ remaining_max)
      × (flags_are_legal h.type h.flags ≡ true)
decode_header_bounds [] h e = unfold decode_header in cc
decode_header_bounds (x ∷ xs) h e =
    let (legal, bound) = header_checks x xs h e in
    let (used, v, read, found) = header_found x h (read_varint xs) bound in
    let (some_byte, four, at_hand, small) = read_varint_bounds xs used v read in
    rw found (omega arith, omega arith, omega arith, small, legal)
