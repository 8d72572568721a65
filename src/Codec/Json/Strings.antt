-- ===== src/Codec/Json/Strings.antt =====
-- The strings of codec/json.c, behind their opening quote.
use inkwell.Prelude.{
  ℕ, zero, suc, ◌+◌, ◌-◌, ◌*◌, ◌/◌, ◌%◌, Bool, true, false, ◌&&◌, not, Option, none, some, [], ◌∷◌,
  ◌++◌, Bytes, length, get_or, take, ltb, leb, ◌==◌, if◌then◌else◌,
}

-- True at the closing quote.
unfoldable pub skip_string_body : Bytes → Bool × Bytes
skip_string_body [] = (false, [])
skip_string_body (c ∷ []) = if c == 34 then (true, []) else (false, [])
skip_string_body (c ∷ d ∷ text) =
    let plain = skip_string_body (d ∷ text) in
    let escaped = skip_string_body text in
    if c == 34 then (true, d ∷ text) else if c == 92 then escaped else plain

abbrev pub hex4_digit : ℕ → Option ℕ
hex4_digit c =
    if leb 48 c && leb c 57
    then some (c - 48)
    else if leb 97 c && leb c 102
    then some (c - 87)
    else if leb 65 c && leb c 70
    then some (c - 55)
    else none

abbrev pub next_hex : Option ℕ → Option ℕ → Option ℕ
next_hex none digit = none
next_hex (some value) none = none
next_hex (some value) (some digit) = some (value * 16 + digit)

unfoldable pub hex4 : ℕ → ℕ → ℕ → ℕ → Option ℕ
hex4 a b c d =
    next_hex (next_hex (next_hex (next_hex (some 0) (hex4_digit a)) (hex4_digit b)) (hex4_digit c))
      (hex4_digit d)

-- Of at most 16 bits.
unfoldable pub encode_utf8 : ℕ → Bytes
encode_utf8 value =
    if ltb value 0x80
    then value ∷ []
    else if ltb value 0x800
    then (0xC0 + value / 64) ∷ (0x80 + value % 64) ∷ []
    else (0xE0 + value / 4096) ∷ (0x80 + value / 64 % 64) ∷ (0x80 + value % 64) ∷ []

-- Half of a surrogate pair is not a character.
abbrev whole_value : ℕ → ℕ
whole_value value = if leb 0xD800 value && leb value 0xDFFF then 63 else value

abbrev escaped_byte : ℕ → ℕ
escaped_byte c =
    if c == 110
    then 10
    else if c == 116
    then 9
    else if c == 114
    then 13
    else if c == 98
    then 8
    else if c == 102
    then 12
    else c

-- A step through a string: its end, a character and what is behind it, or a refusal.
pub data Piece : Type 0 where
  closing : Bytes → Piece
  character : Bytes → Bytes → Piece
  refused : Bytes → Piece

abbrev pub decoded_hex : Option ℕ → Bytes → Bytes → Piece
decoded_hex none digits rest = refused digits
decoded_hex (some value) digits rest = character (encode_utf8 (whole_value value)) rest

unfoldable pub unicode_piece : Bytes → Piece
unicode_piece (a ∷ b ∷ c ∷ d ∷ rest) = decoded_hex (hex4 a b c d) (a ∷ b ∷ c ∷ d ∷ rest) rest
unicode_piece text = refused text

abbrev pub escape_piece : Bytes → Piece
escape_piece [] = refused []
escape_piece (e ∷ rest) =
    if e == 117 then unicode_piece rest else character (escaped_byte e ∷ []) rest

unfoldable pub next_piece : Bytes → Piece
next_piece [] = refused []
next_piece (c ∷ rest) =
    if c == 34 then closing rest else if c == 92 then escape_piece rest else character (c ∷ []) rest

-- Where a text that was cut ends, so that it does not end inside a character.
abbrev is_continuation : Bytes → ℕ → Bool
is_continuation out lead = get_or out (lead - 1) 0 / 64 == 2

unfoldable pub lead_of : ℕ → Bytes → ℕ → ℕ
lead_of zero out lead = lead
lead_of (suc back) out lead =
    let before = lead_of back out (lead - 1) in
    if ltb 0 lead && is_continuation out lead then before else lead

abbrev promised : ℕ → ℕ
promised first =
    if leb 0xF0 first then 4 else if leb 0xE0 first then 3 else if leb 0xC0 first then 2 else 1

unfoldable pub whole_characters : Bytes → Bytes
whole_characters out =
    let lead = lead_of 3 out (length out) in
    let need = promised (get_or out (lead - 1) 0) in
    if lead == 0
    then out
    else if ltb 1 need && ltb (length out - (lead - 1)) need
    then take (lead - 1) out
    else out

-- What a read leaves: the cursor, and the text where it succeeded.
pub record StringRead : Type 0 where
  pub success : Bool
  pub rest : Bytes
  pub text : Bytes

abbrev pub added : ℕ → Bytes → Bool → Bytes → Bytes × Bool
added room written full decoded =
    if not full && leb (length written + length decoded) room
    then (written ++ decoded, full)
    else (written, true)

abbrev pub read_piece : (Bytes → Bool → Bytes → StringRead) → ℕ → Bytes → Bool → Piece → StringRead
read_piece more room written full (closing rest) = record {
  success = true;
  rest = rest;
  text = if full then whole_characters written else written;
}
read_piece more room written full (refused rest) = record {
  success = false;
  rest = rest;
  text = [];
}
read_piece more room written full (character decoded rest) =
    let (text, cut) = added room written full decoded in more text cut rest

-- A piece takes a byte at least, so `fuel` is the length of the text, and one.
unfoldable pub string_loop : ℕ → ℕ → Bytes → Bool → Bytes → StringRead
string_loop zero room written full text = record { success = false; rest = text; text = [] }
string_loop (suc fuel) room written full text =
    read_piece (string_loop fuel room) room written full (next_piece text)

-- `room` is the capacity less the NUL, or 0 where nothing is to be written.
unfoldable pub read_string_body : ℕ → Bytes → StringRead
read_string_body room text = string_loop (suc (length text)) room [] false text
