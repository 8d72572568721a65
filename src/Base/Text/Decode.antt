-- ===== src/Base/Text/Decode.antt =====
-- The decoder against UTF-8 as it is defined: from the code point to its shortest form.
use inkwell.Prelude.{
  ℕ, ◌+◌, ◌/◌, ◌%◌, ◌≤◌, ◌<◌, ◌≡◌, ◌⊎◌, ap, refl, arith, Bool, true, false, [], ◌∷◌, ◌++◌, Bytes,
  length, take, ltb, if◌then◌else◌, lt→ltb, ◌∙◌, ltb→lt, ltb→le,
}
use inkwell.Base.Text.{utf8_sequence_len, sequence_value, utf8_next}
use inkwell.Base.Text.Rows.{
  sequence_two, sequence_three, sequence_four, next_sequence, row_two, row_three, row_four,
  value_two, value_three, value_four,
}

-- The bytes of a code point, by the ranges of the Unicode standard.
unfoldable pub utf8_bytes : ℕ → Bytes
utf8_bytes c =
    if ltb c 0x80
    then c ∷ []
    else if ltb c 0x800
    then (0xC0 + c / 64) ∷ (0x80 + c % 64) ∷ []
    else if ltb c 0x10000
    then (0xE0 + c / 4096) ∷ (0x80 + c / 64 % 64) ∷ (0x80 + c % 64) ∷ []
    else (0xF0 + c / 262144) ∷ (0x80 + c / 4096 % 64) ∷ (0x80 + c / 64 % 64) ∷ (0x80 + c % 64) ∷ []

-- A code point that is no half of a surrogate pair.
pub record IsScalar (c : ℕ) : Type 0 where
  pub small : c < 0x110000
  pub whole : (c < 0xD800) ⊎ (0xDFFF < c)

abbrev Decodes : ℕ → Bytes → Type 0
Decodes c bytes = (rest : Bytes) → utf8_next (bytes ++ rest) ≡ (length bytes, c)

decode_one : (c : ℕ) → c < 0x80 → Decodes c (c ∷ [])
unfolding utf8_sequence_len sequence_value
decode_one c h rest = next_sequence c 0 rest (rw (lt→ltb c 0x80 h) refl)

decode_two : (c : ℕ) → 0x80 ≤ c → c < 0x800 → Decodes c ((0xC0 + c / 64) ∷ (0x80 + c % 64) ∷ [])
unfolding sequence_value
decode_two c h k rest =
    next_sequence (0xC0 + c / 64) 1 ((0x80 + c % 64) ∷ rest)
      (sequence_two (0xC0 + c / 64) (0x80 + c % 64) (take 2 rest) (row_two c h k))
    ∙ ap (λ v. (2, v)) (value_two c k)

decode_three :
    (c : ℕ)
    → 0x800 ≤ c
    → c < 0x10000
    → (c < 0xD800) ⊎ (0xDFFF < c)
    → Decodes c ((0xE0 + c / 4096) ∷ (0x80 + c / 64 % 64) ∷ (0x80 + c % 64) ∷ [])
unfolding sequence_value
decode_three c h k whole rest =
    next_sequence (0xE0 + c / 4096) 2 ((0x80 + c / 64 % 64) ∷ (0x80 + c % 64) ∷ rest) (
      sequence_three (0xE0 + c / 4096) (0x80 + c / 64 % 64) (0x80 + c % 64) (take 1 rest)
        (row_three c h k whole) (omega arith, omega arith))
    ∙ ap (λ v. (3, v)) (value_three c k)

decode_four :
    (c : ℕ)
    → 0x10000 ≤ c
    → c < 0x110000
    → Decodes c
        ((0xF0 + c / 262144) ∷ (0x80 + c / 4096 % 64) ∷ (0x80 + c / 64 % 64) ∷ (0x80 + c % 64) ∷ [])
unfolding sequence_value
decode_four c h k rest =
    next_sequence (0xF0 + c / 262144) 3
      ((0x80 + c / 4096 % 64) ∷ (0x80 + c / 64 % 64) ∷ (0x80 + c % 64) ∷ rest)
      (sequence_four (0xF0 + c / 262144) (0x80 + c / 4096 % 64) (0x80 + c / 64 % 64) (0x80 + c % 64)
        [] (row_four c h k) (omega arith, omega arith) (omega arith, omega arith))
    ∙ ap (λ v. (4, v)) (value_four c k)

Decodes-if :
    (c : ℕ) (test : Bool) (a b : Bytes)
    → (test ≡ true → Decodes c a)
    → (test ≡ false → Decodes c b)
    → Decodes c (if test then a else b)
Decodes-if c true a b h k = h refl
Decodes-if c false a b h k = k refl

utf8_bytes-Decodes : (c : ℕ) → IsScalar c → Decodes c (utf8_bytes c)
unfolding utf8_bytes
utf8_bytes-Decodes c scalar =
    Decodes-if c (ltb c 0x80) _ _ (λ low. decode_one c (ltb→lt _ _ low))
      (λ one.
        Decodes-if c (ltb c 0x800) _ _ (λ low. decode_two c (ltb→le _ _ one) (ltb→lt _ _ low))
          (λ two.
            Decodes-if c (ltb c 0x10000) _ _
              (λ low. decode_three c (ltb→le _ _ two) (ltb→lt _ _ low) scalar.whole)
              (λ three. decode_four c (ltb→le _ _ three) scalar.small)))

-- Every code point but NUL, encoded as UTF-8 says, is read back, with just its bytes taken, whatever
-- follows it.
pub utf8_next-utf8_bytes :
    (c : ℕ) (rest : Bytes)
    → 0 < c
    → IsScalar c
    → utf8_next (utf8_bytes c ++ rest) ≡ (length (utf8_bytes c), c)
utf8_next-utf8_bytes c rest present scalar = utf8_bytes-Decodes c scalar rest
