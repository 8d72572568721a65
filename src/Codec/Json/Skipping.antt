-- ===== src/Codec/Json/Skipping.antt =====
-- codec/json.c: the walk that skips a string against the walk that reads one.
use inkwell.Prelude.{
  ℕ, zero, suc, ◌≡◌, refl, sym, ap, ◌∙◌, Bool, true, false, Option, none, some, [], ◌∷◌, Bytes,
  length, ◌==◌, if◌then◌else◌, Bool-cases, inl, inr, ==_iff,
}
use mathlib.Core.Bool.{false≢true}
use mathlib.Core.Option.{none-ne-some}
use inkwell.Codec.Json.Strings.{
  skip_string_body, hex4_digit, next_hex, hex4, Piece, closing, character, refused, decoded_hex,
  unicode_piece, escape_piece, next_piece, StringRead, added, read_piece, string_loop,
  read_string_body,
}

-- What skipping makes of a step that reading takes.
abbrev SkipAgrees : Bytes → Piece → Type 0
SkipAgrees text (closing rest) = skip_string_body text ≡ (true, rest)
SkipAgrees text (character decoded rest) = skip_string_body text ≡ skip_string_body rest
SkipAgrees text (refused rest) = Unit

skip_plain :
    (c : ℕ) (text : Bytes)
    → (c == 34) ≡ false
    → (c == 92) ≡ false
    → skip_string_body (c ∷ text) ≡ skip_string_body text
unfolding skip_string_body
skip_plain c [] quote slash = ap (λ b. if b then (true, []) else (false, [])) quote
skip_plain c (d ∷ text) quote slash =
    ap
      (λ b.
        if b
        then (true, d ∷ text)
        else if c == 92
        then skip_string_body text
        else skip_string_body (d ∷ text))
      quote
    ∙ ap (λ b. if b then skip_string_body text else skip_string_body (d ∷ text)) slash

-- A hex digit is no byte that is not one.
digit_is_not :
    (c other v : ℕ) → hex4_digit other ≡ none → hex4_digit c ≡ some v → (c == other) ≡ false
digit_is_not c other v no_digit digit = elim (Bool-cases (c == other)) [
  | inl same ↦
      absurd (none-ne-some v (sym no_digit ∙ ap hex4_digit (sym ((==_iff c other).0 same)) ∙ digit))
  | inr differs ↦ differs
]

skip_digit :
    (c v : ℕ) (text : Bytes)
    → hex4_digit c ≡ some v
    → skip_string_body (c ∷ text) ≡ skip_string_body text
skip_digit c v text digit =
    skip_plain c text (digit_is_not c 34 v refl digit) (digit_is_not c 92 v refl digit)

digits_of :
    (value digit : Option ℕ) (v : ℕ)
    → next_hex value digit ≡ some v
    → ((u : ℕ) × (value ≡ some u)) × ((w : ℕ) × (digit ≡ some w))
digits_of none digit v e = absurd (none-ne-some v e)
digits_of (some u) none v e = absurd (none-ne-some v e)
digits_of (some u) (some w) v e = ((u, refl), (w, refl))

skip_hex4 :
    (a b c d v : ℕ) (rest : Bytes)
    → hex4 a b c d ≡ some v
    → skip_string_body (a ∷ b ∷ c ∷ d ∷ rest) ≡ skip_string_body rest
unfolding hex4
skip_hex4 a b c d v rest e =
    let upto_c =
      next_hex (next_hex (next_hex (some 0) (hex4_digit a)) (hex4_digit b)) (hex4_digit c) in
    let upto_b = next_hex (next_hex (some 0) (hex4_digit a)) (hex4_digit b) in
    let ((vc, ec), (wd, ed)) = digits_of upto_c (hex4_digit d) v e in
    let ((vb, eb), (wc, digit_c)) = digits_of upto_b (hex4_digit c) vc ec in
    let ((va, ea), (wb, digit_b)) =
      digits_of (next_hex (some 0) (hex4_digit a)) (hex4_digit b) vb eb in
    let (start, (wa, digit_a)) = digits_of (some 0) (hex4_digit a) va ea in
    skip_digit a wa (b ∷ c ∷ d ∷ rest) digit_a
    ∙ skip_digit b wb (c ∷ d ∷ rest) digit_b
    ∙ skip_digit c wc (d ∷ rest) digit_c
    ∙ skip_digit d wd rest ed

decoded_hex-SkipAgrees :
    (value : Option ℕ) (digits rest : Bytes)
    → ((v : ℕ) → value ≡ some v → skip_string_body digits ≡ skip_string_body rest)
    → SkipAgrees digits (decoded_hex value digits rest)
decoded_hex-SkipAgrees none digits rest skips = tt
decoded_hex-SkipAgrees (some v) digits rest skips = skips v refl

unicode_piece-SkipAgrees : (text : Bytes) → SkipAgrees text (unicode_piece text)
unfolding unicode_piece
unicode_piece-SkipAgrees [] = tt
unicode_piece-SkipAgrees (a ∷ []) = tt
unicode_piece-SkipAgrees (a ∷ b ∷ []) = tt
unicode_piece-SkipAgrees (a ∷ b ∷ c ∷ []) = tt
unicode_piece-SkipAgrees (a ∷ b ∷ c ∷ d ∷ rest) =
    decoded_hex-SkipAgrees (hex4 a b c d) (a ∷ b ∷ c ∷ d ∷ rest) rest
      (λ v. skip_hex4 a b c d v rest)

SkipAgrees-of_same :
    (text behind : Bytes) (p : Piece)
    → skip_string_body text ≡ skip_string_body behind
    → SkipAgrees behind p
    → SkipAgrees text p
SkipAgrees-of_same text behind (closing rest) same agrees = same ∙ agrees
SkipAgrees-of_same text behind (character decoded rest) same agrees = same ∙ agrees
SkipAgrees-of_same text behind (refused rest) same agrees = tt

SkipAgrees-if :
    (text : Bytes) (b : Bool) (p q : Piece)
    → (b ≡ true → SkipAgrees text p)
    → (b ≡ false → SkipAgrees text q)
    → SkipAgrees text (if b then p else q)
SkipAgrees-if text true p q holds fails = holds refl
SkipAgrees-if text false p q holds fails = fails refl

skip_escaped :
    (c e : ℕ) (rest : Bytes)
    → (c == 34) ≡ false
    → (c == 92) ≡ true
    → skip_string_body (c ∷ e ∷ rest) ≡ skip_string_body rest
unfolding skip_string_body
skip_escaped c e rest quote slash =
    ap
      (λ b.
        if b
        then (true, e ∷ rest)
        else if c == 92
        then skip_string_body rest
        else skip_string_body (e ∷ rest))
      quote
    ∙ ap (λ b. if b then skip_string_body rest else skip_string_body (e ∷ rest)) slash

skip_closing :
    (c : ℕ) (rest : Bytes) → (c == 34) ≡ true → skip_string_body (c ∷ rest) ≡ (true, rest)
unfolding skip_string_body
skip_closing c [] quote = ap (λ b. if b then (true, []) else (false, [])) quote
skip_closing c (d ∷ rest) quote =
    ap
      (λ b.
        if b
        then (true, d ∷ rest)
        else if c == 92
        then skip_string_body rest
        else skip_string_body (d ∷ rest))
      quote

escape_piece-SkipAgrees :
    (c : ℕ) (rest : Bytes)
    → (c == 34) ≡ false
    → (c == 92) ≡ true
    → SkipAgrees (c ∷ rest) (escape_piece rest)
escape_piece-SkipAgrees c [] quote slash = tt
escape_piece-SkipAgrees c (e ∷ rest) quote slash =
    let skips = skip_escaped c e rest quote slash in
    SkipAgrees-if (c ∷ e ∷ rest) (e == 117) (unicode_piece rest) _
      (λ u.
        SkipAgrees-of_same (c ∷ e ∷ rest) rest (unicode_piece rest) skips
          (unicode_piece-SkipAgrees rest))
      (λ other. skips)

next_piece-SkipAgrees : (text : Bytes) → SkipAgrees text (next_piece text)
unfolding next_piece
next_piece-SkipAgrees [] = tt
next_piece-SkipAgrees (c ∷ rest) =
    SkipAgrees-if (c ∷ rest) (c == 34) (closing rest) _ (skip_closing c rest) (λ quote.
      SkipAgrees-if (c ∷ rest) (c == 92) (escape_piece rest) _
        (escape_piece-SkipAgrees c rest quote) (skip_plain c rest quote))

-- A read and a skip of the same text come to the same end, where the read has one.
SameEnd : Bytes → StringRead → Type 0
SameEnd text read = read.success ≡ true → skip_string_body text ≡ (true, read.rest)

read_piece-SameEnd :
    (more : Bytes → Bool → Bytes → StringRead) (room : ℕ) (written : Bytes) (full : Bool)
    (text : Bytes) (p : Piece)
    → ((w : Bytes) (f : Bool) (t : Bytes) → SameEnd t (more w f t))
    → SkipAgrees text p
    → SameEnd text (read_piece more room written full p)
unfolding SameEnd
read_piece-SameEnd more room written full text (closing rest) ih agrees success = agrees
read_piece-SameEnd more room written full text (refused rest) ih agrees success =
    absurd (false≢true success)
read_piece-SameEnd more room written full text (character decoded rest) ih agrees success =
    let kept = added room written full decoded in agrees ∙ ih kept.0 kept.1 rest success

string_loop-SameEnd :
    (fuel room : ℕ) (written : Bytes) (full : Bool) (text : Bytes)
    → SameEnd text (string_loop fuel room written full text)
unfolding string_loop SameEnd
string_loop-SameEnd zero room written full text success = absurd (false≢true success)
string_loop-SameEnd (suc fuel) room written full text success =
    read_piece-SameEnd (string_loop fuel room) room written full text (next_piece text)
      (string_loop-SameEnd fuel room) (next_piece-SkipAgrees text) success

-- Where the body of a string is read, with any room for its text, it is skipped to the same place.
pub skip_string_body-read :
    (room : ℕ) (text : Bytes)
    → (read_string_body room text).success ≡ true
    → skip_string_body text ≡ (true, (read_string_body room text).rest)
unfolding read_string_body SameEnd
skip_string_body-read room text = string_loop-SameEnd (suc (length text)) room [] false text
