-- ===== src/Base/Text.antt =====
-- base/text.c: UTF-8. A C string is its bytes before the NUL, and `none` is NULL.
pub mod Copy
pub mod Decode
pub mod Measure
pub mod Pieces
pub mod Rows
mod Tests
use inkwell.Prelude.{
  ℕ, zero, suc, ◌+◌, ◌-◌, ◌*◌, Bool, true, false, ◌&&◌, ◌||◌, not, Option, none, some, List, [],
  ◌∷◌, ◌++◌, Bytes, low_bits, length, get_or, take, drop, ltb, leb, ◌==◌, if◌then◌else◌,
}

abbrev pub invalid_codepoint : ℕ
invalid_codepoint = 0xFFFD

-- What a lead byte above ASCII says: the length, and the range of the second byte.
pub lead_row : ℕ → Option (ℕ × ℕ × ℕ)
lead_row lead =
    if leb 0xC2 lead && leb lead 0xDF
    then some (2, 0x80, 0xBF)
    else if lead == 0xE0
    then some (3, 0xA0, 0xBF)
    else if lead == 0xED
    then some (3, 0x80, 0x9F)
    else if (leb 0xE1 lead && leb lead 0xEC) || lead == 0xEE || lead == 0xEF
    then some (3, 0x80, 0xBF)
    else if lead == 0xF0
    then some (4, 0x90, 0xBF)
    else if leb 0xF1 lead && leb lead 0xF3
    then some (4, 0x80, 0xBF)
    else if lead == 0xF4
    then some (4, 0x80, 0x8F)
    else none

-- The loop over the bytes behind the second.
pub continues : Bytes → Bool
continues [] = true
continues (byte ∷ bytes) =
    let rest = continues bytes in if ltb byte 0x80 || ltb 0xBF byte then false else rest

pub row_len : Bytes → Option (ℕ × ℕ × ℕ) → ℕ
row_len bytes none = 0
row_len bytes (some (count, second_min, second_max)) =
    if ltb (length bytes) count
    then 0
    else if ltb (get_or bytes 1 0) second_min || ltb second_max (get_or bytes 1 0)
    then 0
    else if continues (drop 2 (take count bytes))
    then count
    else 0

-- The length of the character at the front; 0 where there is none.
pub utf8_sequence_len : Bytes → ℕ
unfolding row_len lead_row continues
utf8_sequence_len [] = 0
utf8_sequence_len (lead ∷ bytes) =
    if ltb lead 0x80 then 1 else row_len (lead ∷ bytes) (lead_row lead)

pub sequence_value : ℕ → Bytes → ℕ
sequence_value count bytes =
    let b0 = get_or bytes 0 0 in
    let b1 = low_bits (get_or bytes 1 0) 6 in
    let b2 = low_bits (get_or bytes 2 0) 6 in
    let b3 = low_bits (get_or bytes 3 0) 6 in
    if count == 1
    then b0
    else if count == 2
    then low_bits b0 5 * 64 + b1
    else if count == 3
    then low_bits b0 4 * 4096 + b1 * 64 + b2
    else low_bits b0 3 * 262144 + b1 * 4096 + b2 * 64 + b3

-- The bytes taken and the code point. Only four bytes are looked at.
pub utf8_next : Bytes → ℕ × ℕ
utf8_next [] = (0, 0)
utf8_next (byte ∷ text) =
    let count = utf8_sequence_len (take 4 (byte ∷ text)) in
    if count == 0 then (1, invalid_codepoint) else (count, sequence_value count (byte ∷ text))
