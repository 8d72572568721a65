-- ===== src/Codec/EspRom/Answers.antt =====
-- What codec/esp_rom.c reads out of a response: the chip's magic and the digest of the flash.
mod Tests
use mathlib.Core.Bool.{false≢true}
use inkwell.Prelude.{
  ℕ, zero, suc, ◌+◌, ◌-◌, ◌*◌, ◌<◌, ◌≡◌, refl, arith, Bool, true, false, ◌&&◌, ◌||◌, not, Option,
  none, some, [], ◌∷◌, Bytes, IsByte, All, ◌++◌, ◌/◌, ◌%◌, ◌≤◌, table_holds, table_entry, le→ltb,
  u8, length, get_or, drop, ltb, leb, ◌==◌, if◌then◌else◌, ◌↔◌, ◌∙◌, sym, ap, ap₂, subst, take,
  neither, ltb→le, ==_iff,
}
use inkwell.Codec.EspRom.Request.{op_spi_flash_md5, esp_chip_esp32}
use inkwell.Codec.EspRom.Reader.{Response}

-- `none` is false; otherwise the chip.
pub chip_for_magic : ℕ → Option ℕ
chip_for_magic magic =
    if magic == 0x00F01D83
    then some esp_chip_esp32
    else if magic == 0x000007C6
    then some 2
    else if magic == 0x00000009
    then some 9
    else if magic == 0x6921506F || magic == 0x1B31506F || magic == 0x4881606F || magic == 0x4361606F
    then some 5
    else if magic == 0x2CE0806F
    then some 0x0D
    else none

-- `none` is -1.
pub hex_nibble : ℕ → Option ℕ
hex_nibble c =
    if leb b'0' c && leb c b'9'
    then some (c - b'0')
    else if leb b'a' c && leb c b'f'
    then some (c - b'a' + 10)
    else if leb b'A' c && leb c b'F'
    then some (c - b'A' + 10)
    else none

pub digit_matches : Option ℕ → Option ℕ → ℕ → Bool
digit_matches none low byte = false
digit_matches (some high) none byte = false
digit_matches (some high) (some low) byte = u8 (high * 16 + low) == byte

-- The loop over the digest; `text` starts at the two digits of its next byte.
pub digest_loop : Bytes → Bytes → Bool
unfolding digit_matches hex_nibble
digest_loop text [] = true
digest_loop text (byte ∷ digest) =
    let rest = digest_loop (drop 2 text) digest in
    if not (digit_matches (hex_nibble (get_or text 0 0)) (hex_nibble (get_or text 1 0)) byte)
    then false
    else rest

-- `digest` is the 16 bytes; NULL pointers are not modelled.
pub md5_matches : Response → Bytes → Bool
unfolding digest_loop
md5_matches response digest =
    if not (response.status == 0)
      || not (response.op == op_spi_flash_md5)
      || ltb (length response.payload) (32 + 4)
    then false
    else digest_loop response.payload digest

-- The loader's digits of a byte.
abbrev pub hex_digit : ℕ → ℕ
hex_digit n = if ltb n 10 then b'0' + n else b'a' + (n - 10)

-- A digest as the loader writes it.
abbrev pub hex_text : Bytes → Bytes
hex_text [] = []
hex_text (byte ∷ digest) = hex_digit (byte / 16) ∷ hex_digit (byte % 16) ∷ hex_text digest

-- A hexadecimal digit in lower case.
abbrev pub lower_hex : ℕ → ℕ
lower_hex c = if leb b'A' c && leb c b'F' then c + 32 else c

abbrev pub lower_text : Bytes → Bytes
lower_text [] = []
lower_text (c ∷ text) = lower_hex c ∷ lower_text text

hex_nibble_reads : (c n : ℕ) → hex_nibble c ≡ some n → (n < 16) × (lower_hex c ≡ hex_digit n)
unfolding hex_nibble
hex_nibble_reads c n e = ground arith

hex_nibble_of : (c n : ℕ) → n < 16 → lower_hex c ≡ hex_digit n → hex_nibble c ≡ some n
unfolding hex_nibble
hex_nibble_of c n small e = ground arith

undo_not : (b : Bool) → not b ≡ false → b ≡ true
undo_not true e = refl
undo_not false e = sym e

both_digits :
    (high low : Option ℕ) (byte : ℕ)
    → digit_matches high low byte ≡ true
    → (h : ℕ) × (l : ℕ) × (high ≡ some h) × (low ≡ some l) × (u8 (h * 16 + l) ≡ byte)
unfolding digit_matches
both_digits none low byte e = absurd (false≢true e)
both_digits (some h) none byte e = absurd (false≢true e)
both_digits (some h) (some l) byte e = (h, l, refl, refl, (==_iff (u8 (h * 16 + l)) byte).0 e)

digits-byte :
    (a b byte : ℕ)
    → byte < 256
    → (digit_matches (hex_nibble a) (hex_nibble b) byte ≡ true)
      ↔ ((lower_hex a ≡ hex_digit (byte / 16)) × (lower_hex b ≡ hex_digit (byte % 16)))
unfolding digit_matches
digits-byte a b byte small = (
  λ e.
      let (h, l, high, low, value) = both_digits (hex_nibble a) (hex_nibble b) byte e in
      let (h_small, h_text) = hex_nibble_reads a h high in
      let (l_small, l_text) = hex_nibble_reads b l low in
      let h_is : h ≡ byte / 16 = omega arith in
      let l_is : l ≡ byte % 16 = omega arith in
      (h_text ∙ ap (λ (n : ℕ). hex_digit n) h_is, l_text ∙ ap (λ (n : ℕ). hex_digit n) l_is),
  λ (h_text, l_text).
      rw
        (
          hex_nibble_of a (byte / 16) (omega arith) h_text,
          hex_nibble_of b (byte % 16) (omega arith) l_text,
        )
        ((==_iff (u8 (byte / 16 * 16 + byte % 16)) byte).1 (omega arith)),
)

passed : (b x : Bool) → (if b then false else x) ≡ true → (b ≡ false) × (x ≡ true)
passed true x e = absurd (false≢true e)
passed false x e = (refl, e)

digest_loop-hex_text :
    (text digest : Bytes)
    → All IsByte digest
    → length (hex_text digest) ≤ length text
    → (digest_loop text digest ≡ true)
      ↔ (lower_text (take (length (hex_text digest)) text) ≡ hex_text digest)
unfolding digest_loop
digest_loop-hex_text text [] bytes enough = (λ e. refl, λ e. refl)
digest_loop-hex_text [] (byte ∷ digest) bytes enough = absurd (omega arith)
digest_loop-hex_text (a ∷ []) (byte ∷ digest) bytes enough = absurd (omega arith)
digest_loop-hex_text (a ∷ b ∷ text) (byte ∷ digest) (small, bytes) enough =
    let (reads, writes) = digits-byte a b byte small in
    let (read_on, write_on) = digest_loop-hex_text text digest bytes (omega arith) in
    (
      λ e.
          let (first, rest) =
            passed (not (digit_matches (hex_nibble a) (hex_nibble b) byte))
              (digest_loop text digest) e in
          let (high, low) = reads (undo_not _ first) in
          ap₂ (λ (c : ℕ) (t : Bytes). c ∷ t) high
            (ap₂ (λ (c : ℕ) (t : Bytes). c ∷ t) low (read_on rest)),
      λ e.
          rw (writes (ap (λ (t : Bytes). get_or t 0 0) e, ap (λ (t : Bytes). get_or t 1 0) e))
            (write_on (ap (λ (t : Bytes). drop 2 t) e)),
    )

length-hex_text : (digest : Bytes) → length (hex_text digest) ≡ 2 * length digest
length-hex_text [] = refl
length-hex_text (byte ∷ digest) = omega (arith, length-hex_text digest)

-- For a digest of sixteen bytes, an answer matches it exactly if its status is 0, it answers an MD5
-- request, it has at least 36 bytes, and the first 32 are the digest in hexadecimal, in digits of
-- either case.
pub md5_matches-hex_text :
    (response : Response) (digest : Bytes)
    → All IsByte digest
    → length digest ≡ 16
    → (md5_matches response digest ≡ true) ↔ (
        (response.status ≡ 0)
        × (response.op ≡ op_spi_flash_md5)
        × (36 ≤ length response.payload)
        × (lower_text (take 32 response.payload) ≡ hex_text digest))
unfolding md5_matches
md5_matches-hex_text response digest bytes sixteen =
    let text = response.payload in
    let digits : length (hex_text digest) ≡ 32 = omega (arith, length-hex_text digest) in
    let wrong = not (response.status == 0) in
    let other = not (response.op == op_spi_flash_md5) in
    let short = ltb (length text) (32 + 4) in
    (
      λ e.
          let (fine, match) = passed (wrong || other || short) (digest_loop text digest) e in
          let (named, enough) = neither (wrong || other) short fine in
          let (good, asked) = neither wrong other named in
          let read =
            (digest_loop-hex_text text digest bytes (omega (arith, ltb→le _ _ enough))).0 match in
          (
            (==_iff response.status 0).0 (undo_not _ good),
            (==_iff response.op op_spi_flash_md5).0 (undo_not _ asked),
            ltb→le _ _ enough,
            subst (λ (n : ℕ). lower_text (take n text) ≡ hex_text digest) digits read,
          ),
      λ (good, asked, enough, read).
          rw (good, asked, le→ltb (length text) 36 enough)
            ((digest_loop-hex_text text digest bytes (omega arith)).1
              (subst (λ (n : ℕ). lower_text (take n text) ≡ hex_text digest) (sym digits) read)),
    )
