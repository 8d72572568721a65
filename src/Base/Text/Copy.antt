-- ===== src/Base/Text/Copy.antt =====
-- The bounded copies of base/text.c. `out` is the capacity behind the pointer, or `none` for NULL;
-- the result is the bytes before the NUL that is written, `none` where nothing is written.
use inkwell.Prelude.{
  ℕ, zero, suc, ◌+◌, ◌-◌, ◌≤◌, ◌<◌, ◌≡◌, ap, refl, arith, Bool, true, false, ◌||◌, Option, none,
  some, [], ◌∷◌, ◌++◌, Bytes, length, length-append, length-take, take, drop, ltb, leb, ◌==◌,
  if◌then◌else◌, ltb→le, ltb→lt, Bool-cases, inl, inr,
}
use inkwell.Base.Text.{utf8_sequence_len}

-- The loop of `inkwell_str_copy`: what it copies, and whether that is all.
pub copy_loop : ℕ → ℕ → Bytes → Bytes × Bool
copy_loop out_len copied [] = ([], true)
copy_loop out_len copied (c ∷ text) =
    let (more, whole) = copy_loop out_len (copied + 1) text in
    if ltb (copied + 1) out_len then (c ∷ more, whole) else ([], false)

pub str_copy : Option ℕ → Option Bytes → Option Bytes × Bool
str_copy none text = (none, false)
str_copy (some out_len) none = if out_len == 0 then (none, false) else (some [], true)
str_copy (some out_len) (some text) =
    if out_len == 0
    then (none, false)
    else let (copied, whole) = copy_loop out_len 0 text in (some copied, whole)

abbrev clean : ℕ → ℕ
clean byte =
    if byte == 9 || byte == 10 || byte == 13
    then b' '
    else if ltb byte 0x20 || byte == 0x7F
    then b'?'
    else byte

-- A piece of `count` bytes, if it fits, and the payload behind it.
pub put_piece : ℕ → Bytes → ℕ → Bytes → Bytes → Option (Bytes × Bytes)
put_piece out_len written count piece rest =
    if ltb (out_len - 1) (length written + count) then none else some (piece, rest)

-- One round of `inkwell_text_sanitise`; `none` is `break`.
pub sanitise_round : ℕ → Bytes → Bytes → Option (Bytes × Bytes)
unfolding put_piece
sanitise_round out_len written [] = none
sanitise_round out_len written (byte ∷ rest) =
    let sequence = utf8_sequence_len (byte ∷ rest) in
    if byte == 0
    then none
    else if ltb byte 0x80
    then put_piece out_len written 1 (clean byte ∷ []) rest
    else if sequence == 0
    then put_piece out_len written 1 (b'?' ∷ []) rest
    else put_piece out_len written sequence (take sequence (byte ∷ rest))
        (drop sequence (byte ∷ rest))

pub go_on : (Bytes → Bytes → Bytes) → Bytes → Option (Bytes × Bytes) → Bytes
go_on loop written none = written
go_on loop written (some (piece, rest)) = loop (written ++ piece) rest

-- A round takes a byte of the payload at least.
pub sanitise_loop : ℕ → ℕ → Bytes → Bytes → Bytes
sanitise_loop zero out_len written payload = written
sanitise_loop (suc fuel) out_len written payload =
    go_on (sanitise_loop fuel out_len) written (sanitise_round out_len written payload)

pub sanitise : Option Bytes → Option ℕ → Option Bytes
sanitise payload none = none
sanitise none (some out_len) = if out_len == 0 then none else some []
sanitise (some payload) (some out_len) =
    if out_len == 0 then none else some (sanitise_loop (length payload) out_len [] payload)

take-nil : (n : ℕ) → take {A = ℕ} n [] ≡ []
take-nil zero = refl
take-nil (suc n) = refl

leb_zero : (n : ℕ) → leb 0 n ≡ true
leb_zero n = ground arith

leb-suc : (m n : ℕ) → leb m n ≡ leb (suc m) (suc n)
leb-suc m n = ground arith

leb-suc_zero : (m : ℕ) → false ≡ leb (suc m) 0
leb-suc_zero m = ground arith

copy_loop-take :
    (out_len copied : ℕ) (text : Bytes)
    → copied < out_len
    → copy_loop out_len copied text
      ≡ (take (out_len - 1 - copied) text, leb (length text) (out_len - 1 - copied))
unfolding copy_loop
copy_loop-take out_len copied [] h =
    rw (take-nil (out_len - 1 - copied), leb_zero (out_len - 1 - copied)) refl
copy_loop-take out_len copied (c ∷ text) h = elim (Bool-cases (ltb (copied + 1) out_len)) [
  | inl more ↦
      let left = out_len - 1 - (copied + 1) in
      let next : copied + 1 < out_len = ltb→lt _ _ more in
      let shift : out_len - 1 - copied ≡ suc left = omega arith in
      rw (more, copy_loop-take out_len (copied + 1) text next, shift)
        (ap (λ whole. (c ∷ take left text, whole)) (leb-suc (length text) left))
  | inr full ↦
      let last : out_len ≤ copied + 1 = ltb→le _ _ full in
      let none_left : out_len - 1 - copied ≡ 0 = omega arith in
      rw (full, none_left) (ap (λ whole. ([], whole)) (leb-suc_zero (length text)))
]

-- A text is copied as far as it fits with its NUL, and the answer says whether that is all of it.
pub str_copy-take :
    (out_len : ℕ) (text : Bytes)
    → 0 < out_len
    → str_copy (some out_len) (some text)
      ≡ (some (take (out_len - 1) text), leb (length text) (out_len - 1))
unfolding str_copy
str_copy-take out_len text h =
    let some_room : (out_len == 0) ≡ false = ground arith in
    let all : out_len - 1 - 0 ≡ out_len - 1 = omega arith in
    rw (some_room, copy_loop-take out_len 0 text h, all) refl

-- What a round adds fits with what was written.
abbrev Fits : ℕ → Bytes → Option (Bytes × Bytes) → Type 0
Fits out_len written none = Unit
Fits out_len written (some (piece, rest)) = length written + length piece ≤ out_len - 1

Fits-if :
    (out_len : ℕ) (written : Bytes) (c : Bool) (a b : Option (Bytes × Bytes))
    → (c ≡ true → Fits out_len written a)
    → (c ≡ false → Fits out_len written b)
    → Fits out_len written (if c then a else b)
Fits-if out_len written true a b h k = h refl
Fits-if out_len written false a b h k = k refl

put_piece-Fits :
    (out_len : ℕ) (written : Bytes) (count : ℕ) (piece rest : Bytes)
    → length piece ≤ count
    → Fits out_len written (put_piece out_len written count piece rest)
unfolding put_piece
put_piece-Fits out_len written count piece rest h =
    Fits-if out_len written (ltb (out_len - 1) (length written + count)) none (some (piece, rest))
      (λ full. tt) (λ room. omega (arith, ltb→le _ _ room))

sanitise_round-Fits :
    (out_len : ℕ) (written payload : Bytes)
    → Fits out_len written (sanitise_round out_len written payload)
unfolding sanitise_round
sanitise_round-Fits out_len written [] = tt
sanitise_round-Fits out_len written (byte ∷ rest) =
    let sequence = utf8_sequence_len (byte ∷ rest) in
    Fits-if out_len written (byte == 0) _ _ (λ nul. tt)
      (λ text.
        Fits-if out_len written (ltb byte 0x80) _ _
          (λ ascii. put_piece-Fits out_len written 1 (clean byte ∷ []) rest (omega arith))
          (λ high.
            Fits-if out_len written (sequence == 0) _ _
              (λ broken. put_piece-Fits out_len written 1 (b'?' ∷ []) rest (omega arith))
              (λ whole.
                put_piece-Fits out_len written sequence (take sequence (byte ∷ rest))
                  (drop sequence (byte ∷ rest))
                  (omega (arith, length-take sequence (byte ∷ rest))))))

length-go_on :
    (loop : Bytes → Bytes → Bytes) (out_len : ℕ) (written : Bytes) (r : Option (Bytes × Bytes))
    → ((more rest : Bytes) → length more ≤ out_len - 1 → length (loop more rest) ≤ out_len - 1)
    → length written ≤ out_len - 1
    → Fits out_len written r
    → length (go_on loop written r) ≤ out_len - 1
unfolding go_on
length-go_on loop out_len written none hyp h fits = h
length-go_on loop out_len written (some (piece, rest)) hyp h fits =
    hyp (written ++ piece) rest (omega (arith, fits, length-append written piece))

length-sanitise_loop :
    (fuel out_len : ℕ) (written payload : Bytes)
    → length written ≤ out_len - 1
    → length (sanitise_loop fuel out_len written payload) ≤ out_len - 1
unfolding sanitise_loop
length-sanitise_loop zero out_len written payload h = h
length-sanitise_loop (suc fuel) out_len written payload h =
    length-go_on (sanitise_loop fuel out_len) out_len written
      (sanitise_round out_len written payload)
      (λ more rest k. length-sanitise_loop fuel out_len more rest k) h
      (sanitise_round-Fits out_len written payload)

-- Whatever the payload, a buffer that is not empty is given a text that fits it with its NUL.
pub sanitise_fits :
    (payload : Bytes) (out_len : ℕ)
    → 0 < out_len
    → (text : Bytes) × (sanitise (some payload) (some out_len) ≡ some text)
      × (length text + 1 ≤ out_len)
unfolding sanitise
sanitise_fits payload out_len h =
    let some_room : (out_len == 0) ≡ false = ground arith in
    let fits = length-sanitise_loop (length payload) out_len [] payload (omega arith) in
    (sanitise_loop (length payload) out_len [] payload, rw some_room refl, omega (arith, fits))
