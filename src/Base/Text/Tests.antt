-- ===== src/Base/Text/Tests.antt =====
-- A run of base/text.c on the euro sign.
use inkwell.Prelude.{
  ◌+◌, ◌≤◌, ◌≡◌, refl, arith, some, List, take, inr, [], ◌∷◌, ◌++◌, Bytes, length, inl,
}
use inkwell.Base.Text.{utf8_next, utf8_sequence_len, row_len, lead_row}
use inkwell.Base.Text.Copy.{sanitise, sanitise_fits}
use inkwell.Base.Text.Measure.{utf8_length, utf8_offset}
use inkwell.Base.Text.Pieces.{TextPiece, whole, stray, text_of, utf8_offset-text_of}
use inkwell.Base.Text.Decode.{utf8_bytes, IsScalar, utf8_next-utf8_bytes}

euro-IsScalar : IsScalar 0x20AC
euro-IsScalar = record { small = omega arith; whole = inl (omega arith) }

utf8_next-utf8_bytes_example :
    utf8_next (utf8_bytes 0x20AC ++ (b'!' ∷ [])) ≡ (length (utf8_bytes 0x20AC), 0x20AC)
utf8_next-utf8_bytes_example = utf8_next-utf8_bytes 0x20AC (b'!' ∷ []) (omega arith) euro-IsScalar

sanitise_fits_example :
    (text : Bytes) × (sanitise (some (b'a' ∷ 10 ∷ 0xFF ∷ 0xC3 ∷ 0xA9 ∷ [])) (some 5) ≡ some text)
    × (length text + 1 ≤ 5)
sanitise_fits_example = sanitise_fits (b'a' ∷ 10 ∷ 0xFF ∷ 0xC3 ∷ 0xA9 ∷ []) 5 (omega arith)

-- A letter, a byte that starts no character, and the euro sign.
abbrev some_pieces : List TextPiece
some_pieces = whole b'a' ∷ stray 0xFF ∷ whole 0x20AC ∷ []

utf8_offset-text_of_example :
    (utf8_length (some (text_of some_pieces)) ≡ 3)
    × (utf8_offset (some (text_of some_pieces)) 2 ≡ length (text_of (take 2 some_pieces)))
utf8_offset-text_of_example = utf8_offset-text_of some_pieces 2 (
  (omega arith, record { small = omega arith; whole = inl (omega arith) }),
  (inr (omega arith, omega arith), ((omega arith, euro-IsScalar), tt)),
)

malformed_run : utf8_next (0xE2 ∷ b'a' ∷ []) ≡ (1, 0xFFFD)
unfolding utf8_next utf8_sequence_len row_len lead_row
malformed_run = refl
