-- ===== src/Base/Text/Pieces.antt =====
-- The length and the offsets of a text in base/text.c, for a text of which the pieces are known.
use inkwell.Prelude.{
  ℕ, zero, suc, ◌+◌, ◌≤◌, ◌<◌, ◌≡◌, ◌⊎◌, refl, ap, sym, ◌∙◌, arith, false, none, some, List, [],
  ◌∷◌, ◌++◌, Bytes, All, length, take, drop, ltb, ◌==◌, if◌then◌else◌, length-append,
  drop-append_self,
}
use inkwell.Base.Text.{lead_row, row_len, utf8_sequence_len, utf8_next}
use inkwell.Base.Text.Decode.{utf8_bytes, IsScalar, utf8_next-utf8_bytes}
use inkwell.Base.Text.Measure.{step_of, length_loop, utf8_length, offset_loop, utf8_offset}

-- A character, or a byte that starts none: a continuation, or a lead byte that UTF-8 does not have.
pub data TextPiece : Type 0 where
  whole : ℕ → TextPiece
  stray : ℕ → TextPiece

abbrev pub IsPiece : TextPiece → Type 0
IsPiece (whole c) = (0 < c) × IsScalar c
IsPiece (stray byte) = ((0x80 ≤ byte) × (byte < 0xC2)) ⊎ ((0xF5 ≤ byte) × (byte ≤ 0xFF))

abbrev pub bytes_of : TextPiece → Bytes
bytes_of (whole c) = utf8_bytes c
bytes_of (stray byte) = byte ∷ []

abbrev pub text_of : List TextPiece → Bytes
text_of [] = []
text_of (piece ∷ pieces) = bytes_of piece ++ text_of pieces

no_row : (byte : ℕ) → IsPiece (stray byte) → lead_row byte ≡ none
unfolding lead_row
no_row byte h = ground arith

not_ascii : (byte : ℕ) → IsPiece (stray byte) → ltb byte 0x80 ≡ false
not_ascii byte h = ground arith

step_of_stray : (byte : ℕ) (rest : Bytes) → IsPiece (stray byte) → step_of (byte ∷ rest) ≡ 1
unfolding utf8_next utf8_sequence_len row_len
step_of_stray byte rest h = rw (step_of, not_ascii byte h, no_row byte h) refl

step_of_piece :
    (piece : TextPiece) (rest : Bytes)
    → IsPiece piece
    → step_of (bytes_of piece ++ rest) ≡ length (bytes_of piece)
step_of_piece (whole c) rest (present, scalar) =
    ap (λ (r : ℕ × ℕ). r.0) (utf8_next-utf8_bytes c rest present scalar)
step_of_piece (stray byte) rest h = step_of_stray byte rest h

some_of_utf8 : (c : ℕ) → 0 < length (utf8_bytes c)
unfolding utf8_bytes
some_of_utf8 c = ground arith

some_bytes_of : (piece : TextPiece) → 0 < length (bytes_of piece)
some_bytes_of (whole c) = some_of_utf8 c
some_bytes_of (stray byte) = omega arith

step_past :
    (piece : TextPiece) (rest : Bytes)
    → IsPiece piece
    → drop (step_of (bytes_of piece ++ rest)) (bytes_of piece ++ rest) ≡ rest
step_past piece rest h =
    ap (λ (n : ℕ). drop n (bytes_of piece ++ rest)) (step_of_piece piece rest h)
    ∙ drop-append_self (length (bytes_of piece)) (bytes_of piece) rest refl

step_not_zero :
    (piece : TextPiece) (rest : Bytes)
    → IsPiece piece
    → (step_of (bytes_of piece ++ rest) == 0) ≡ false
step_not_zero piece rest h =
    let some_left = some_bytes_of piece in let same = step_of_piece piece rest h in ground arith

length_loop_pieces :
    (fuel : ℕ) (pieces : List TextPiece)
    → All IsPiece pieces
    → length (text_of pieces) ≤ fuel
    → length_loop fuel (text_of pieces) ≡ length pieces
unfolding length_loop utf8_next
length_loop_pieces zero [] h enough = refl
length_loop_pieces (suc fuel) [] h enough = refl
length_loop_pieces zero (piece ∷ pieces) h enough =
    absurd (omega (arith, some_bytes_of piece, length-append (bytes_of piece) (text_of pieces)))
length_loop_pieces (suc fuel) (piece ∷ pieces) (h, others) enough =
    let text = bytes_of piece ++ text_of pieces in
    ap (λ b. if b then 0 else suc (length_loop fuel (drop (step_of text) text)))
      (step_not_zero piece (text_of pieces) h)
    ∙ ap (λ (t : Bytes). suc (length_loop fuel t)) (step_past piece (text_of pieces) h)
    ∙ ap (λ (n : ℕ). suc n)
        (length_loop_pieces fuel pieces others
          (omega (arith, some_bytes_of piece, length-append (bytes_of piece) (text_of pieces))))

offset_loop_pieces :
    (index : ℕ) (pieces : List TextPiece)
    → All IsPiece pieces
    → offset_loop index (text_of pieces) ≡ length (text_of (take index pieces))
unfolding offset_loop utf8_next
offset_loop_pieces zero pieces h = refl
offset_loop_pieces (suc index) [] h = refl
offset_loop_pieces (suc index) (piece ∷ pieces) (h, others) =
    let text = bytes_of piece ++ text_of pieces in
    ap (λ b. if b then 0 else step_of text + offset_loop index (drop (step_of text) text))
      (step_not_zero piece (text_of pieces) h)
    ∙ ap (λ (t : Bytes). step_of text + offset_loop index t) (step_past piece (text_of pieces) h)
    ∙ ap (λ (n : ℕ). step_of text + n) (offset_loop_pieces index pieces others)
    ∙ ap (λ (n : ℕ). n + length (text_of (take index pieces)))
        (step_of_piece piece (text_of pieces) h)
    ∙ sym (length-append (bytes_of piece) (text_of (take index pieces)))

-- Of a text that is characters in UTF-8 and bytes that start none, in any order: its length counts
-- each of them once, and the offset of an index is where the piece of that index starts, or the end
-- of the text where there are fewer.
pub utf8_offset-text_of :
    (pieces : List TextPiece) (index : ℕ)
    → All IsPiece pieces
    → (utf8_length (some (text_of pieces)) ≡ length pieces)
      × (utf8_offset (some (text_of pieces)) index ≡ length (text_of (take index pieces)))
unfolding utf8_length utf8_offset
utf8_offset-text_of pieces index h = (
  length_loop_pieces (length (text_of pieces)) pieces h (omega arith),
  offset_loop_pieces index pieces h,
)
