-- ===== src/Base/Text/Rows.antt =====
-- The rows of the decoder's table: which lead and second bytes a code point has.
use inkwell.Prelude.{
  ℕ, suc, ◌+◌, ◌*◌, ◌/◌, ◌%◌, ◌≤◌, ◌<◌, ◌≡◌, ◌⊎◌, inl, inr, ap, refl, arith, false, some, ◌∷◌,
  Bytes, length, take, ltb, ◌==◌, le→ltb, ltb→lt, ltb→le, Bool-cases,
}
use inkwell.Base.Text.{lead_row, continues, row_len, utf8_sequence_len, sequence_value, utf8_next}

-- A lead byte and a second byte that a row of the table allows.
abbrev pub Allowed : ℕ → ℕ → ℕ → Type 0
Allowed count lead b1 =
    (0x80 ≤ lead)
    × ((second_min : ℕ) × (second_max : ℕ) × (lead_row lead ≡ some (count, second_min, second_max))
        × (second_min ≤ b1)
        × (b1 ≤ second_max))

abbrev pub IsContinuation : ℕ → Type 0
IsContinuation b = (0x80 ≤ b) × (b ≤ 0xBF)

pub sequence_two :
    (lead b1 : ℕ) (rest : Bytes) → Allowed 2 lead b1 → utf8_sequence_len (lead ∷ b1 ∷ rest) ≡ 2
unfolding utf8_sequence_len row_len continues
sequence_two lead b1 rest (high, (lo, hi, row, h, k)) =
    rw
      (
        le→ltb lead 0x80 high,
        row,
        le→ltb (length (lead ∷ b1 ∷ rest)) 2 (omega arith),
        le→ltb b1 lo h,
        le→ltb hi b1 k,
      )
      refl

pub sequence_three :
    (lead b1 b2 : ℕ) (rest : Bytes)
    → Allowed 3 lead b1
    → IsContinuation b2
    → utf8_sequence_len (lead ∷ b1 ∷ b2 ∷ rest) ≡ 3
unfolding utf8_sequence_len row_len continues
sequence_three lead b1 b2 rest (high, (lo, hi, row, h, k)) (l, m) =
    rw
      (
        le→ltb lead 0x80 high,
        row,
        le→ltb (length (lead ∷ b1 ∷ b2 ∷ rest)) 3 (omega arith),
        le→ltb b1 lo h,
        le→ltb hi b1 k,
        le→ltb b2 0x80 l,
        le→ltb 0xBF b2 m,
      )
      refl

pub sequence_four :
    (lead b1 b2 b3 : ℕ) (rest : Bytes)
    → Allowed 4 lead b1
    → IsContinuation b2
    → IsContinuation b3
    → utf8_sequence_len (lead ∷ b1 ∷ b2 ∷ b3 ∷ rest) ≡ 4
unfolding utf8_sequence_len row_len continues
sequence_four lead b1 b2 b3 rest (high, (lo, hi, row, h, k)) (l, m) (n, o) =
    rw
      (
        le→ltb lead 0x80 high,
        row,
        le→ltb (length (lead ∷ b1 ∷ b2 ∷ b3 ∷ rest)) 4 (omega arith),
        le→ltb b1 lo h,
        le→ltb hi b1 k,
        le→ltb b2 0x80 l,
        le→ltb 0xBF b2 m,
        le→ltb b3 0x80 n,
        le→ltb 0xBF b3 o,
      )
      refl

pub next_sequence :
    (byte n : ℕ) (text : Bytes)
    → utf8_sequence_len (take 4 (byte ∷ text)) ≡ suc n
    → utf8_next (byte ∷ text) ≡ (suc n, sequence_value (suc n) (byte ∷ text))
unfolding utf8_next
next_sequence byte n text e =
    let some_bytes : (suc n == 0) ≡ false = ground arith in rw (e, some_bytes) refl

pub row_two : (c : ℕ) → 0x80 ≤ c → c < 0x800 → Allowed 2 (0xC0 + c / 64) (0x80 + c % 64)
unfolding lead_row
row_two c h k = (omega arith, (0x80, 0xBF, ground arith, omega arith, omega arith))

row_plain :
    (lead : ℕ)
    → ((0xE1 ≤ lead) × (lead ≤ 0xEC)) ⊎ ((0xEE ≤ lead) × (lead ≤ 0xEF))
    → lead_row lead ≡ some (3, 0x80, 0xBF)
unfolding lead_row
row_plain lead h = ground arith

pub row_three :
    (c : ℕ)
    → 0x800 ≤ c
    → c < 0x10000
    → (c < 0xD800) ⊎ (0xDFFF < c)
    → Allowed 3 (0xE0 + c / 4096) (0x80 + c / 64 % 64)
unfolding lead_row
row_three c h k whole = elim (Bool-cases (ltb c 0x1000)) [
  | inl low ↦
      let below : c < 0x1000 = ltb→lt _ _ low in
      let lead : 0xE0 + c / 4096 ≡ 0xE0 = omega arith in
      (omega arith, (0xA0, 0xBF, ap lead_row lead, omega arith, omega arith))
  | inr above ↦
      let least : 0x1000 ≤ c = ltb→le _ _ above in
      elim (Bool-cases (ltb c 0xD000)) [
        | inl low ↦
            let below : c < 0xD000 = ltb→lt _ _ low in
            let row = row_plain (0xE0 + c / 4096) (inl (omega arith, omega arith)) in
            (omega arith, (0x80, 0xBF, row, omega arith, omega arith))
        | inr middle ↦
            let from : 0xD000 ≤ c = ltb→le _ _ middle in
            elim (Bool-cases (ltb c 0xE000)) [
              | inl low ↦
                  let below : c < 0xE000 = ltb→lt _ _ low in
                  let lead : 0xE0 + c / 4096 ≡ 0xED = omega arith in
                  (omega arith, (0x80, 0x9F, ap lead_row lead, omega arith, omega arith))
              | inr high ↦
                  let last : 0xE000 ≤ c = ltb→le _ _ high in
                  let row = row_plain (0xE0 + c / 4096) (inr (omega arith, omega arith)) in
                  (omega arith, (0x80, 0xBF, row, omega arith, omega arith))
            ]
      ]
]

row_middle : (lead : ℕ) → 0xF1 ≤ lead → lead ≤ 0xF3 → lead_row lead ≡ some (4, 0x80, 0xBF)
unfolding lead_row
row_middle lead h k = ground arith

pub row_four :
    (c : ℕ) → 0x10000 ≤ c → c < 0x110000 → Allowed 4 (0xF0 + c / 262144) (0x80 + c / 4096 % 64)
unfolding lead_row
row_four c h k = elim (Bool-cases (ltb c 0x40000)) [
  | inl low ↦
      let below : c < 0x40000 = ltb→lt _ _ low in
      let lead : 0xF0 + c / 262144 ≡ 0xF0 = omega arith in
      (omega arith, (0x90, 0xBF, ap lead_row lead, omega arith, omega arith))
  | inr above ↦
      let least : 0x40000 ≤ c = ltb→le _ _ above in
      elim (Bool-cases (ltb c 0x100000)) [
        | inl low ↦
            let below : c < 0x100000 = ltb→lt _ _ low in
            let row = row_middle (0xF0 + c / 262144) (omega arith) (omega arith) in
            (omega arith, (0x80, 0xBF, row, omega arith, omega arith))
        | inr high ↦
            let last : 0x100000 ≤ c = ltb→le _ _ high in
            let lead : 0xF0 + c / 262144 ≡ 0xF4 = omega arith in
            (omega arith, (0x80, 0x8F, ap lead_row lead, omega arith, omega arith))
      ]
]

pub value_two : (c : ℕ) → c < 0x800 → (0xC0 + c / 64) % 32 * 64 + (0x80 + c % 64) % 64 ≡ c
value_two c h = omega arith

pub value_three :
    (c : ℕ)
    → c < 0x10000
    → (0xE0 + c / 4096) % 16 * 4096 + (0x80 + c / 64 % 64) % 64 * 64 + (0x80 + c % 64) % 64 ≡ c
value_three c h = omega arith

pub value_four :
    (c : ℕ)
    → c < 0x110000
    → (0xF0 + c / 262144) % 8 * 262144
        + (0x80 + c / 4096 % 64) % 64 * 4096
        + (0x80 + c / 64 % 64) % 64 * 64
        + (0x80 + c % 64) % 64
      ≡ c
value_four c h = omega arith
