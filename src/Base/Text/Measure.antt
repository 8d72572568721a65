-- ===== src/Base/Text/Measure.antt =====
-- The characters of a text in base/text.c: how many, and where they start.
use inkwell.Prelude.{
  ℕ, zero, suc, ◌+◌, ◌≤◌, ◌<◌, ◌≡◌, ap, refl, arith, false, Option, none, some, [], ◌∷◌, Bytes,
  length, length-take, length-drop, take, drop, ltb, ◌==◌, if◌then◌else◌, Bool-cases, inl, inr,
}
use inkwell.Base.Text.{lead_row, row_len, utf8_sequence_len, utf8_next}

-- The bytes that the next character takes.
abbrev pub step_of : Bytes → ℕ
step_of text = (utf8_next text).0

-- A character takes a byte at least.
unfoldable pub length_loop : ℕ → Bytes → ℕ
length_loop zero text = 0
length_loop (suc fuel) text =
    let rest = length_loop fuel (drop (step_of text) text) in
    if step_of text == 0 then 0 else suc rest

unfoldable pub utf8_length : Option Bytes → ℕ
unfolding length_loop
utf8_length none = 0
utf8_length (some text) = length_loop (length text) text

unfoldable pub offset_loop : ℕ → Bytes → ℕ
offset_loop zero text = 0
offset_loop (suc index) text =
    let rest = offset_loop index (drop (step_of text) text) in
    if step_of text == 0 then 0 else step_of text + rest

unfoldable pub utf8_offset : Option Bytes → ℕ → ℕ
unfolding offset_loop
utf8_offset none index = 0
utf8_offset (some text) index = offset_loop index text

unfoldable pub utf8_truncate : Option Bytes → ℕ → Option Bytes
unfolding utf8_offset
utf8_truncate none max_chars = none
utf8_truncate (some text) max_chars = some (take (utf8_offset (some text) max_chars) text)

row_len_le : (bytes : Bytes) (row : Option (ℕ × ℕ × ℕ)) → row_len bytes row ≤ length bytes
unfolding row_len
row_len_le bytes none = omega arith
row_len_le bytes (some (count, second_min, second_max)) = ground arith

sequence_len_le : (bytes : Bytes) → utf8_sequence_len bytes ≤ length bytes
unfolding utf8_sequence_len
sequence_len_le [] = omega arith
sequence_len_le (lead ∷ bytes) = elim (Bool-cases (ltb lead 0x80)) [
  | inl ascii ↦ rw ascii (omega arith)
  | inr high ↦ rw high (row_len_le (lead ∷ bytes) (lead_row lead))
]

step_le : (byte : ℕ) (text : Bytes) → step_of (byte ∷ text) ≤ length (byte ∷ text)
unfolding utf8_next
step_le byte text =
    let few = sequence_len_le (take 4 (byte ∷ text)) in
    let four = length-take 4 (byte ∷ text) in
    elim (Bool-cases (utf8_sequence_len (take 4 (byte ∷ text)) == 0)) [
      | inl broken ↦ rw (step_of, broken) (omega arith)
      | inr whole ↦ rw (step_of, whole) (omega (arith, few, four))
    ]

step_positive : (byte : ℕ) (text : Bytes) → 0 < step_of (byte ∷ text)
unfolding utf8_next
step_positive byte text = elim (Bool-cases (utf8_sequence_len (take 4 (byte ∷ text)) == 0)) [
  | inl broken ↦ rw (step_of, broken) (omega arith)
  | inr whole ↦ rw (step_of, whole) (ground arith)
]

offset-length_step :
    (fuel byte : ℕ) (text rest : Bytes)
    → rest ≡ drop (step_of (byte ∷ text)) (byte ∷ text)
    → offset_loop (length_loop fuel rest) rest ≡ length rest
    → offset_loop (length_loop (suc fuel) (byte ∷ text)) (byte ∷ text) ≡ length (byte ∷ text)
unfolding length_loop offset_loop
offset-length_step fuel byte text rest e hyp =
    let some_bytes : (step_of (byte ∷ text) == 0) ≡ false =
      ground (arith, step_positive byte text) in
    rw (step_of, some_bytes)
      (rw (step_of, some_bytes, ← e, hyp)
        (omega (
          arith,
          step_le byte text,
          length-drop (step_of (byte ∷ text)) (byte ∷ text),
          ap (λ l. length l) e,
        )))

offset-length_loop :
    (fuel : ℕ) (text : Bytes)
    → length text ≤ fuel
    → offset_loop (length_loop fuel text) text ≡ length text
unfolding length_loop offset_loop utf8_next
offset-length_loop zero [] h = refl
offset-length_loop zero (byte ∷ text) h = absurd (omega arith)
offset-length_loop (suc fuel) [] h = refl
offset-length_loop (suc fuel) (byte ∷ text) h =
    offset-length_step fuel byte text (drop (step_of (byte ∷ text)) (byte ∷ text)) refl (
      offset-length_loop fuel (drop (step_of (byte ∷ text)) (byte ∷ text)) (
        omega
          (arith, h, step_positive byte text, length-drop (step_of (byte ∷ text)) (byte ∷ text))))

-- The characters of a text end where it ends: stepping over as many as were counted comes to the end
-- of the text, neither short of it nor past it, malformed bytes counted one by one.
pub utf8_offset-utf8_length :
    (text : Bytes) → utf8_offset (some text) (utf8_length (some text)) ≡ length text
unfolding utf8_offset utf8_length
utf8_offset-utf8_length text = offset-length_loop (length text) text (omega arith)
