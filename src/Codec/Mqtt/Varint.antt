-- ===== src/Codec/Mqtt/Varint.antt =====
-- The variable-length integer of codec/mqtt.c: seven bits of value a byte, little end first.
use native.Mathlib.Decide.{dec_le, dec_lt}
use native.Mathlib.Bridge.{le_prop}
use native.Mathlib.Nat.{div-add-mod}
use mathlib.Core.Logic.{dite, dif_pos, dif_neg}
use mathlib.Core.WellFounded.{Acc}
use inkwell.Prelude.{
  ℕ, zero, suc, ◌+◌, ◌*◌, ◌/◌, ◌%◌, ◌^◌, ◌≤◌, ◌<◌, ◌≡◌, ap, ◌∙◌, arith, bit_or, Option, none, some,
  [], ◌∷◌, ◌++◌, Bytes, low_bits, bit, u8, u32, length, ◌==◌, if◌then◌else◌, Result, ok, err,
  ebadmsg, set_top_bit,
}
use inkwell.Prelude.Order.{lt_wf}

abbrev pub remaining_bytes_max : ℕ
remaining_bytes_max = 4

abbrev pub remaining_max : ℕ
remaining_max = 268435455

-- The loop of `mqtt_read_varint` over the bytes not yet read; `ok none` is its 0.
unfoldable pub read_varint_loop : ℕ → Bytes → ℕ → ℕ → ℕ → Result (Option (ℕ × ℕ))
read_varint_loop zero bytes i value multiplier = err ebadmsg
read_varint_loop (suc rounds) [] i value multiplier = ok none
read_varint_loop (suc rounds) (byte ∷ bytes) i value multiplier =
    let value' = u32 (value + low_bits byte 7 * multiplier) in
    let rest = read_varint_loop rounds bytes (i + 1) value' (u32 (multiplier * 128)) in
    if bit byte 7 == 0 then ok (some (i + 1, value')) else rest

-- The bytes consumed and the value.
unfoldable pub read_varint : Bytes → Result (Option (ℕ × ℕ))
read_varint bytes = read_varint_loop remaining_bytes_max bytes 0 0 1

quotient_falls : (value : ℕ) → 0 < value / 128 → value / 128 < value
quotient_falls value h = omega arith

-- One pass of the do loop, and the rest while the quotient is not 0.
write_varint_loop : (value : ℕ) → Acc ◌<◌ value → Bytes
write_varint_loop value (Acc.intro _ smaller) =
    dite (dec_lt 0 (value / 128))
      (λ more.
        bit_or (u8 (value % 128)) 0x80
        ∷ write_varint_loop (value / 128) (smaller _ (quotient_falls value more)))
      (λ _. u8 (value % 128) ∷ [])

unfoldable pub write_varint : ℕ → Bytes
unfolding write_varint_loop quotient_falls lt_wf dec_lt
write_varint value = write_varint_loop value (lt_wf.apply value)

at_least_falls : (value : ℕ) → 128 ≤ value → value / 128 < value
at_least_falls value h = omega arith

varint_width_loop : (value : ℕ) → Acc ◌<◌ value → ℕ
varint_width_loop value (Acc.intro _ smaller) =
    dite (dec_le 128 value)
      (λ more. 1 + varint_width_loop (value / 128) (smaller _ (at_least_falls value more))) (λ _. 1)

unfoldable pub varint_width : ℕ → ℕ
unfolding varint_width_loop at_least_falls lt_wf dec_le
varint_width value = varint_width_loop value (lt_wf.apply value)

length-write_varint_loop :
    (k value : ℕ) (w v : Acc ◌<◌ value)
    → value < k
    → length (write_varint_loop value w) ≡ varint_width_loop value v
unfolding write_varint_loop varint_width_loop
length-write_varint_loop zero value w v h = absurd (omega arith)
length-write_varint_loop (suc k) value (Acc.intro _ s) (Acc.intro _ t) h = grind (
  arith,
  λ (p q : value / 128 < value).
      length-write_varint_loop k (value / 128) (s _ p) (t _ q) (omega arith),
)

-- The width computed before the body is written is the number of bytes written.
pub length-write_varint : (value : ℕ) → length (write_varint value) ≡ varint_width value
unfolding write_varint varint_width
length-write_varint value =
    length-write_varint_loop (suc value) value (lt_wf.apply value) (lt_wf.apply value) (omega arith)

split_group : (v m : ℕ) → v * m ≡ v % 128 * m + v / 128 * (m * 128)
split_group v m = omega (arith, ap (λ (t : ℕ). t * m) (div-add-mod v 128))

-- The multiplier is below 2^32 wherever a further byte needs it.
shift_fits : (v value m : ℕ) → 0 < v / 128 → value + v * m < 2 ^ 32 → m * 128 < 2 ^ 32
shift_fits v value m p fits = grind arith

pair_eq : {a b c d : ℕ} → a ≡ b → c ≡ d → ◌≡◌ {A = ℕ × ℕ} (a, c) (b, d)
pair_eq p q = λ i. (p i, q i)

last_byte :
    (rounds v i value m : ℕ) (rest : Bytes)
    → v < 128
    → value + v * m < 2 ^ 32
    → read_varint_loop (suc rounds) (u8 (v % 128) ∷ rest) i value m
      ≡ ok (some (i + 1, value + v * m))
unfolding read_varint_loop
last_byte rounds v i value m rest h fits = ground arith

inner_byte :
    (rounds g i value m : ℕ) (rest : Bytes)
    → g < 128
    → value + g * m < 2 ^ 32
    → m * 128 < 2 ^ 32
    → read_varint_loop (suc rounds) (bit_or (u8 g) 0x80 ∷ rest) i value m
      ≡ read_varint_loop rounds rest (i + 1) (value + g * m) (m * 128)
unfolding read_varint_loop
inner_byte rounds g i value m rest h fits room = rw (byte, set_top_bit g h, top, low, sum, bound)
  where
    byte : u8 g ≡ g
    byte = omega arith

    low : (g + 128) % 2 ^ 7 ≡ g
    low = omega arith

    top : (g + 128) / 2 ^ 7 % 2 ≡ 1
    top = omega arith

    sum : u32 (value + g * m) ≡ value + g * m
    sum = omega arith

    bound : u32 (m * 128) ≡ m * 128
    bound = omega arith

read-write_varint_loop :
    (k v i value m : ℕ) (rest : Bytes) (w : Acc ◌<◌ v)
    → v < 128 ^ suc k
    → value + v * m < 2 ^ 32
    → read_varint_loop (suc k) (write_varint_loop v w ++ rest) i value m
      ≡ ok (some (i + length (write_varint_loop v w), value + v * m))
unfolding write_varint_loop
read-write_varint_loop zero v i value m rest (Acc.intro _ s) h fits =
    ground (arith, last_byte 0 v i value m rest)
read-write_varint_loop (suc k) v i value m rest (Acc.intro _ s) h fits = elim (dec_lt 0 (v / 128)) [
  | yes p ↦ rw (dif_pos _ le_prop p) (
      inner_byte (suc k) (v % 128) i value m _ (omega arith) (omega (arith, split_group v m))
        (shift_fits v value m p fits)
      ∙ read-write_varint_loop k (v / 128) (i + 1) (value + v % 128 * m) (m * 128) rest
          (s _ (quotient_falls v p)) (omega arith) (omega (arith, split_group v m))
      ∙ ap (λ r. ok (some r)) (pair_eq (omega arith) (omega (arith, split_group v m))))
  | no n ↦ rw (dif_neg _ n) (last_byte (suc k) v i value m rest (omega arith) fits)
]

-- A remaining length that was written is read back, whatever follows it.
pub read-write_varint :
    (v : ℕ) (rest : Bytes)
    → v ≤ remaining_max
    → read_varint (write_varint v ++ rest) ≡ ok (some (varint_width v, v))
unfolding read_varint write_varint
read-write_varint v rest h = ground (
  arith,
  length-write_varint v,
  read-write_varint_loop 3 v 0 0 1 rest (lt_wf.apply v) (omega arith),
)
