-- ===== src/Codec/Base64/RoundTrip.antt =====
-- What is encoded decodes to the bytes that it was made of.
use inkwell.Prelude.{
  ℕ, zero, suc, ◌+◌, ◌-◌, ◌*◌, ◌/◌, ◌%◌, ◌≤◌, ◌<◌, ◌≡◌, ◌≢◌, ◌∙◌, ap, ap₂, ◌⊎◌, refl, arith, Bool,
  true, false, ◌&&◌, ◌||◌, not, Option, none, some, [], ◌∷◌, ◌++◌, append_assoc, append-nil, Bytes,
  IsByte, All, shr, u8, length, length-append, length-replicate, replicate, get_or,
  take-append_self, ltb, ◌==◌, ==_iff, if◌then◌else◌, table_holds, table_entry, le→ltb,
}
use inkwell.Codec.Base64.{
  letter, sextet, triple_of, encode_groups, encoded_len, encode, base64_value, Form, padded, any,
  payload_len, put_group, quad_of, decode_groups, is_padded, decode,
}

-- Whether a letter decodes to its index, and is no padding.
is_value : Option ℕ → ℕ → Bool
is_value none index = false
is_value (some v) index = v == index

is_value-eq : (o : Option ℕ) (index : ℕ) → is_value o index ≡ true → o ≡ some index
unfolding is_value
is_value-eq none index h = cc
is_value-eq (some v) index h = ap some ((==_iff v index).0 h)

abbrev letter_row : Bool → ℕ → Bool
letter_row url_safe index =
    is_value (base64_value (letter url_safe index)) index && not (letter url_safe index == b'=')

letter_table : (url_safe : Bool) → table_holds (letter_row url_safe) 64 ≡ true
unfolding table_holds is_value base64_value letter
letter_table true = refl
letter_table false = refl

letter_facts :
    (url_safe : Bool) (index : ℕ)
    → index < 64
    → (base64_value (letter url_safe index) ≡ some index) × (letter url_safe index ≢ b'=')
letter_facts url_safe index h =
    let row = table_entry (letter_row url_safe) 64 index (letter_table url_safe) h in
    (is_value-eq _ index (ground (arith, row)), λ e. ground (arith, row))

-- The letters of the encoding, without its padding.
letters : Bool → Bytes → Bytes
letters url_safe [] = []
letters url_safe (b0 ∷ []) =
    letter url_safe (sextet (triple_of b0 0 0) 18)
    ∷ letter url_safe (sextet (triple_of b0 0 0) 12)
    ∷ []
letters url_safe (b0 ∷ b1 ∷ []) =
    letter url_safe (sextet (triple_of b0 b1 0) 18)
    ∷ letter url_safe (sextet (triple_of b0 b1 0) 12)
    ∷ letter url_safe (sextet (triple_of b0 b1 0) 6)
    ∷ []
letters url_safe (b0 ∷ b1 ∷ b2 ∷ bytes) =
    letter url_safe (sextet (triple_of b0 b1 b2) 18)
    ∷ letter url_safe (sextet (triple_of b0 b1 b2) 12)
    ∷ letter url_safe (sextet (triple_of b0 b1 b2) 6)
    ∷ letter url_safe (sextet (triple_of b0 b1 b2) 0)
    ∷ letters url_safe bytes

abbrev pads : Bool → Bytes → ℕ
pads true bytes = 0
pads false bytes = (3 - length bytes % 3) % 3

abbrev padding : Bool → Bytes → Bytes
padding url_safe bytes = replicate (pads url_safe bytes) b'='

-- The encoding is its letters and its padding.
encode_groups-letters :
    (url_safe : Bool) (bytes : Bytes)
    → encode_groups url_safe bytes ≡ letters url_safe bytes ++ padding url_safe bytes
unfolding encode_groups letters
encode_groups-letters true [] = refl
encode_groups-letters false [] = refl
encode_groups-letters true (b0 ∷ []) = refl
encode_groups-letters false (b0 ∷ []) = refl
encode_groups-letters true (b0 ∷ b1 ∷ []) = refl
encode_groups-letters false (b0 ∷ b1 ∷ []) = refl
encode_groups-letters true (b0 ∷ b1 ∷ b2 ∷ bytes) = ground (arith, encode_groups-letters true bytes)
encode_groups-letters false (b0 ∷ b1 ∷ b2 ∷ bytes) = rw (three, encode_groups-letters false bytes)
  where
    three : suc (suc (suc (length bytes))) % 3 ≡ length bytes % 3
    three = omega arith

length-letters :
    (url_safe : Bool) (bytes : Bytes) → length (letters url_safe bytes) ≡ (4 * length bytes + 2) / 3
unfolding letters
length-letters url_safe [] = refl
length-letters url_safe (b0 ∷ []) = refl
length-letters url_safe (b0 ∷ b1 ∷ []) = refl
length-letters url_safe (b0 ∷ b1 ∷ b2 ∷ bytes) = omega (arith, length-letters url_safe bytes)

letters-ne_pad :
    (url_safe : Bool) (bytes : Bytes)
    → All IsByte bytes
    → All (λ c. c ≢ b'=') (letters url_safe bytes)
unfolding letters
letters-ne_pad url_safe [] h = tt
letters-ne_pad url_safe (b0 ∷ []) h =
    ((letter_facts url_safe _ (omega arith)).1, ((letter_facts url_safe _ (omega arith)).1, tt))
letters-ne_pad url_safe (b0 ∷ b1 ∷ []) h = (
  (letter_facts url_safe _ (omega arith)).1,
  ((letter_facts url_safe _ (omega arith)).1, ((letter_facts url_safe _ (omega arith)).1, tt)),
)
letters-ne_pad url_safe (b0 ∷ b1 ∷ b2 ∷ bytes) (h0, (h1, (h2, h))) = (
  (letter_facts url_safe _ (omega arith)).1,
  (
    (letter_facts url_safe _ (omega arith)).1,
    (
      (letter_facts url_safe _ (omega arith)).1,
      ((letter_facts url_safe _ (omega arith)).1, letters-ne_pad url_safe bytes h),
    ),
  ),
)

get_or-append : (xs ys : Bytes) (i : ℕ) → get_or (xs ++ ys) (length xs + i) 0 ≡ get_or ys i 0
get_or-append [] ys i = ap (λ k. get_or ys k 0) {x = 0 + i} {y = i} (omega arith)
get_or-append (x ∷ xs) ys i = rw (shift (length xs) i) (get_or-append xs ys i)
  where
    shift : (j k : ℕ) → suc j + k ≡ suc (j + k)
    shift j k = omega arith

get_or-replicate : (k i : ℕ) → i < k → (get_or (replicate k b'=') i 0 == b'=') ≡ true
get_or-replicate zero i h = absurd (omega arith)
get_or-replicate (suc k) zero h = refl
get_or-replicate (suc k) (suc i) h = get_or-replicate k i (omega arith)

get_or-letter :
    (xs ys : Bytes) (i : ℕ)
    → All (λ c. c ≢ b'=') xs
    → i < length xs
    → (get_or (xs ++ ys) i 0 == b'=') ≡ false
get_or-letter [] ys i h lt = absurd (omega arith)
get_or-letter (x ∷ xs) ys zero (h, _) lt = ground (arith, h)
get_or-letter (x ∷ xs) ys (suc i) (_, h) lt = get_or-letter xs ys i h (omega arith)

payload_len_step :
    (text : Bytes) (n : ℕ)
    → payload_len text (suc n) ≡ (if get_or text n 0 == b'=' then payload_len text n else suc n)
unfolding payload_len
payload_len_step text n = refl

-- The padding is taken off, from the end.
payload_len-pads :
    (xs : Bytes) (k j : ℕ)
    → j ≤ k
    → payload_len (xs ++ replicate k b'=') (length xs + j)
      ≡ payload_len (xs ++ replicate k b'=') (length xs)
payload_len-pads xs k zero h =
    ap (payload_len (xs ++ replicate k b'=')) {x = length xs + 0} {y = length xs} (omega arith)
payload_len-pads xs k (suc j) h =
    ap (payload_len (xs ++ replicate k b'=')) {x = length xs + suc j} {y = suc (length xs + j)}
      (omega arith)
    ∙ payload_len_step (xs ++ replicate k b'=') (length xs + j)
    ∙ rw (get_or-append xs (replicate k b'=') j, get_or-replicate k j h)
        (payload_len-pads xs k j (omega arith))

-- What is left ends in no padding.
payload_len-letters :
    (xs ys : Bytes) → All (λ c. c ≢ b'=') xs → payload_len (xs ++ ys) (length xs) ≡ length xs
payload_len-letters [] ys h = unfold payload_len in refl
payload_len-letters (x ∷ xs) ys h =
    payload_len_step (x ∷ xs ++ ys) (length xs)
    ∙ rw (get_or-letter (x ∷ xs) ys (length xs) h (omega arith))

module _ (out_cap : ℕ) (out : Bytes) (c0 c1 : ℕ) {v0 v1 : ℕ} (e0 : base64_value c0 ≡ some v0)
    (e1 : base64_value c1 ≡ some v1) where
  decode_two :
      length out + 1 ≤ out_cap
      → decode_groups out_cap out (c0 ∷ c1 ∷ [])
        ≡ some (out ++ (u8 (shr (quad_of v0 v1 0 0) 16) ∷ []))
  unfolding decode_groups put_group
  decode_two fits = rw (e0, e1) (ground arith)

  decode_three :
      (c2 : ℕ) {v2 : ℕ}
      → base64_value c2 ≡ some v2
      → length out + 2 ≤ out_cap
      → decode_groups out_cap out (c0 ∷ c1 ∷ c2 ∷ [])
        ≡ some (out ++ (u8 (shr (quad_of v0 v1 v2 0) 16) ∷ u8 (shr (quad_of v0 v1 v2 0) 8) ∷ []))
  unfolding decode_groups put_group
  decode_three c2 e2 fits = rw (e0, e1, e2) (ground arith)

  decode_four :
      (c2 c3 : ℕ) {v2 v3 : ℕ} (text : Bytes)
      → base64_value c2 ≡ some v2
      → base64_value c3 ≡ some v3
      → length out + 3 ≤ out_cap
      → decode_groups out_cap out (c0 ∷ c1 ∷ c2 ∷ c3 ∷ text)
        ≡ decode_groups out_cap
            (out
              ++ (u8 (shr (quad_of v0 v1 v2 v3) 16)
                  ∷ u8 (shr (quad_of v0 v1 v2 v3) 8)
                  ∷ u8 (quad_of v0 v1 v2 v3)
                  ∷ []))
            text
  unfolding decode_groups put_group
  decode_four c2 c3 text e2 e3 fits = rw (e0, e1, e2, e3) (ground arith)

module _ (b0 b1 b2 : ℕ) (h0 : b0 < 256) (h1 : b1 < 256) (h2 : b2 < 256) where
  abbrev triple : ℕ
  triple = triple_of b0 b1 b2

  abbrev quad : ℕ
  quad = quad_of (sextet triple 18) (sextet triple 12) (sextet triple 6) (sextet triple 0)

  -- Four sextets hold the three bytes.
  quad-triple : quad ≡ triple
  quad-triple = omega arith

  triple_bytes : (u8 (shr triple 16) ≡ b0) × (u8 (shr triple 8) ≡ b1) × (u8 triple ≡ b2)
  triple_bytes = omega arith

one_byte :
    (b0 : ℕ)
    → b0 < 256
    → u8 (shr (quad_of (sextet (triple_of b0 0 0) 18) (sextet (triple_of b0 0 0) 12) 0 0) 16) ≡ b0
one_byte b0 h0 = omega arith

abbrev short_quad : ℕ → ℕ → ℕ
short_quad b0 b1 =
    quad_of (sextet (triple_of b0 b1 0) 18) (sextet (triple_of b0 b1 0) 12)
      (sextet (triple_of b0 b1 0) 6) 0

two_bytes :
    (b0 b1 : ℕ)
    → b0 < 256
    → b1 < 256
    → (u8 (shr (short_quad b0 b1) 16) ≡ b0) × (u8 (shr (short_quad b0 b1) 8) ≡ b1)
two_bytes b0 b1 h0 h1 = omega arith

module _ (url_safe : Bool) (out_cap : ℕ) where
  decode_groups-letters :
      (out bytes : Bytes)
      → All IsByte bytes
      → length out + length bytes ≤ out_cap
      → decode_groups out_cap out (letters url_safe bytes) ≡ some (out ++ bytes)
  unfolding letters
  decode_groups-letters out [] h fits = unfold decode_groups in rw append-nil
  decode_groups-letters out (b0 ∷ []) (h0, _) fits =
      decode_two out_cap out _ _ (letter_facts url_safe _ (omega arith)).0
        (letter_facts url_safe _ (omega arith)).0 fits
      ∙ ap (λ b. some (out ++ (b ∷ []))) (one_byte b0 h0)
  decode_groups-letters out (b0 ∷ b1 ∷ []) (h0, (h1, _)) fits =
      let (first, second) = two_bytes b0 b1 h0 h1 in
      decode_three out_cap out _ _ (letter_facts url_safe _ (omega arith)).0
        (letter_facts url_safe _ (omega arith)).0 _ (letter_facts url_safe _ (omega arith)).0 fits
      ∙ ap₂ (λ a b. some (out ++ (a ∷ b ∷ []))) first second
  decode_groups-letters out (b0 ∷ b1 ∷ b2 ∷ bytes) (h0, (h1, (h2, h))) fits =
      decode_four out_cap out _ _ (letter_facts url_safe _ (omega arith)).0
        (letter_facts url_safe _ (omega arith)).0 _ _ (letters url_safe bytes)
        (letter_facts url_safe _ (omega arith)).0 (letter_facts url_safe _ (omega arith)).0
        (omega arith)
      ∙ rw
          (
            quad-triple b0 b1 b2 h0 h1 h2,
            (triple_bytes b0 b1 b2 h0 h1 h2).0,
            (triple_bytes b0 b1 b2 h0 h1 h2).1,
            (triple_bytes b0 b1 b2 h0 h1 h2).2,
          )
          (decode_groups-letters (out ++ (b0 ∷ b1 ∷ b2 ∷ [])) bytes h
              (omega (arith, length-append out (b0 ∷ b1 ∷ b2 ∷ [])))
            ∙ ap some (append_assoc out (b0 ∷ b1 ∷ b2 ∷ []) bytes))

-- What is written is as long as the length that was checked.
length-encode_groups :
    (url_safe : Bool) (bytes : Bytes)
    → length (encode_groups url_safe bytes) ≡ encoded_len url_safe (length bytes)
unfolding encoded_len
length-encode_groups url_safe bytes = rw encode_groups-letters (
    ground (
      arith,
      length-append (letters url_safe bytes) (padding url_safe bytes),
      length-letters url_safe bytes,
      length-replicate {A = ℕ} (pads url_safe bytes) b'=',
    ))

encode_fits :
    (bytes : Bytes) (url_safe : Bool) (out_len : ℕ)
    → encoded_len url_safe (length bytes) < out_len
    → encode bytes url_safe (some out_len) ≡ letters url_safe bytes ++ padding url_safe bytes
unfolding encode
encode_fits bytes url_safe out_len fits = ground (arith, encode_groups-letters url_safe bytes)

-- The payload of letters with at most two pads behind them.
payload-pads :
    (xs : Bytes) (k : ℕ)
    → All (λ c. c ≢ b'=') xs
    → payload_len (xs ++ replicate k b'=') (length xs + k) ≡ length xs
payload-pads xs k h =
    payload_len-pads xs k k (omega arith) ∙ payload_len-letters xs (replicate k b'=') h

-- The two refusals of `decode` do not apply.
strict_test :
    (form : Form) (n : ℕ) → (form ≡ any) ⊎ (n ≡ 0) → (is_padded form && not (n == 0)) ≡ false
strict_test padded n h = ground arith
strict_test any n h = refl

whole_test : (n k : ℕ) → k ≤ 2 → n % 4 ≢ 1 → (ltb 2 (n + k - n) || n % 4 == 1) ≡ false
whole_test n k few whole = rw (le→ltb 2 (n + k - n) (omega arith), one)
  where
    one : (n % 4 == 1) ≡ false
    one = ground (arith, whole)

decode-pads :
    (xs bytes : Bytes) (k : ℕ) (form : Form) (out_cap : ℕ)
    → All (λ c. c ≢ b'=') xs
    → k ≤ 2
    → length xs % 4 ≢ 1
    → (form ≡ any) ⊎ ((length xs + k) % 4 ≡ 0)
    → decode_groups out_cap [] xs ≡ some bytes
    → decode (xs ++ replicate k b'=') form out_cap ≡ some bytes
unfolding decode
decode-pads xs bytes k form out_cap h few whole strict found = rw (
  length-append xs (replicate k b'='),
  length-replicate {A = ℕ} k b'=',
  payload-pads xs k h,
  take-append_self (length xs) xs (replicate k b'=') refl,
  found,
  strict_test form ((length xs + k) % 4) strict,
  whole_test (length xs) k few whole,
)

-- Every byte string, encoded into a buffer that holds it and decoded into one that holds it, comes
-- back: the standard alphabet by either strictness, the URL-safe one, which has no padding, where
-- padding is optional.
pub decode-encode :
    (bytes : Bytes) (url_safe : Bool) (form : Form) (out_len out_cap : ℕ)
    → All IsByte bytes
    → (url_safe ≡ false) ⊎ (form ≡ any)
    → encoded_len url_safe (length bytes) < out_len
    → length bytes ≤ out_cap
    → (length (encode bytes url_safe (some out_len)) ≡ encoded_len url_safe (length bytes))
      × (decode (encode bytes url_safe (some out_len)) form out_cap ≡ some bytes)
decode-encode bytes url_safe form out_len out_cap h how room fits =
    let shape = encode_fits bytes url_safe out_len room in
    rw (shape, ← encode_groups-letters url_safe bytes)
      (
        length-encode_groups url_safe bytes,
        rw encode_groups-letters (
            decode-pads (letters url_safe bytes) bytes (pads url_safe bytes) form out_cap
              (letters-ne_pad url_safe bytes h) (ground arith)
              (ground (arith, length-letters url_safe bytes)) (strict how)
              (decode_groups-letters url_safe out_cap [] bytes h (omega arith))),
      )
  where
    strict :
        (url_safe ≡ false) ⊎ (form ≡ any)
        → (form ≡ any) ⊎ ((length (letters url_safe bytes) + pads url_safe bytes) % 4 ≡ 0)
    strict how' = ground (arith, length-letters url_safe bytes)
