-- ===== src/Codec/EspRom/Request/Bounds.antt =====
-- The sizes of codec/esp_rom.h: blocks, and the buffer that every request fits.
use native.Mathlib.Nat.{le_trans}
use inkwell.Prelude.{
  ℕ, ◌+◌, ◌-◌, ◌*◌, ◌≤◌, ◌<◌, ◌≡◌, refl, arith, [], ◌∷◌, ◌++◌, Bytes, length, length-append,
  length-replicate, replicate, ok, le→ltb, some, ◌^◌,
}
use inkwell.Codec.EspRom.Request.{
  rom_block, slip_end, blocks, flash_data, op_flash_data, put_u32, put_words, checksum_of,
  checksum_seed, request,
}
use inkwell.Codec.EspRom.Request.Slip.{escape_byte, escaped, request_bytes, request-escaped}

-- INKWELL_ESP_ROM_REQUEST_MAX
abbrev pub request_max : ℕ
request_max = 2 + 2 * (8 + 16 + rom_block)

-- The blocks promised cover the image, and no block of them is to spare.
pub blocks_cover :
    (size : ℕ)
    → size < 2 ^ 32
    → (size ≤ blocks size * rom_block) × (blocks size * rom_block < size + rom_block)
unfolding blocks
blocks_cover size h = omega arith

length-escape_byte : (b : ℕ) → length (escape_byte b) ≤ 2
unfolding escape_byte
length-escape_byte b = ground arith

length-escaped : (bytes : Bytes) → length (escaped bytes) ≤ 2 * length bytes
unfolding escaped
length-escaped [] = omega arith
length-escaped (b ∷ bytes) = omega (
  arith,
  length-append (escape_byte b) (escaped bytes),
  length-escape_byte b,
  length-escaped bytes,
)

abbrev padded : Bytes → Bytes
padded block = block ++ replicate (rom_block - length block) 0xFF

length-padded : (block : Bytes) → length block ≤ rom_block → length (padded block) ≡ rom_block
length-padded block h = omega (
  arith,
  length-append block (replicate (rom_block - length block) 0xFF),
  length-replicate {A = ℕ} (rom_block - length block) 0xFF,
)

data_words : ℕ → Bytes
unfolding put_words put_u32
data_words sequence = put_words (rom_block ∷ sequence ∷ 0 ∷ 0 ∷ [])

length-data_words : (sequence : ℕ) → length (data_words sequence) ≡ 16
unfolding data_words
length-data_words sequence = refl

length-request_bytes :
    (op checksum : ℕ) (head body : Bytes)
    → length (request_bytes op head body checksum) ≡ 8 + (length head + length body)
unfolding put_u32
length-request_bytes op checksum head body = omega (arith, length-append head body)

abbrev data_checksum : Bytes → ℕ
data_checksum block = checksum_of checksum_seed (padded block)

flash_data-request :
    (sequence out_len : ℕ) (block : Bytes)
    → length block ≤ rom_block
    → flash_data sequence block (some out_len)
      ≡ request op_flash_data
          (data_words sequence)
          (padded block)
          (data_checksum block)
          (some out_len)
unfolding flash_data data_words
flash_data-request sequence out_len block h = rw (le→ltb _ _ h)

-- FLASH_DATA never lacks room in a buffer of INKWELL_ESP_ROM_REQUEST_MAX bytes, whatever the block's
-- bytes are and however many of them are escaped.
pub flash_data_fits :
    (sequence out_len : ℕ) (block : Bytes)
    → length block ≤ rom_block
    → request_max ≤ out_len
    → (out : Bytes) × (flash_data sequence block (some out_len) ≡ ok out)
      × (length out ≤ request_max)
flash_data_fits sequence out_len block h room =
    let raw =
      request_bytes op_flash_data (data_words sequence) (padded block) (data_checksum block) in
    let few : 2 + length (escaped raw) ≤ request_max = omega (
      arith,
      length-escaped raw,
      length-request_bytes op_flash_data (data_checksum block) (data_words sequence) (padded block),
      length-data_words sequence,
      length-padded block h,
    ) in
    (
      slip_end ∷ (escaped raw ++ (slip_end ∷ [])),
      rw (
        flash_data-request sequence out_len block h,
        request-escaped,
        le→ltb out_len _ (le_trans few room),
      ),
      omega (arith, few, length-append (escaped raw) (slip_end ∷ [])),
    )
