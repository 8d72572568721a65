-- ===== src/Codec/EspRom/Request.antt =====
-- The requests of codec/esp_rom.c. `out` is the capacity behind the pointer, or `none` for NULL; the
-- bytes written at the front of it are the result, and their number is what the source returns.
pub mod Slip
pub mod Bounds
mod Tests
use Prim.Native.Nat.{bit_xor}
use inkwell.Prelude.{
  ℕ, zero, suc, ◌+◌, ◌-◌, ◌*◌, ◌/◌, ◌%◌, ◌^◌, Bool, true, false, ◌||◌, Option, none, some, List, [],
  ◌∷◌, ◌++◌, Bytes, shr, u8, u32, length, get_or, replicate, ltb, ◌==◌, if◌then◌else◌, Result, ok,
  err, einval, enobufs,
}

abbrev pub slip_end : ℕ
slip_end = 0xC0

abbrev pub slip_esc : ℕ
slip_esc = 0xDB

abbrev pub slip_esc_end : ℕ
slip_esc_end = 0xDC

abbrev pub slip_esc_esc : ℕ
slip_esc_esc = 0xDD

abbrev pub rom_block : ℕ
rom_block = 0x400

abbrev pub esp_chip_esp32 : ℕ
esp_chip_esp32 = 0

-- enum inkwell_esp_rom_op
abbrev pub op_flash_begin : ℕ
op_flash_begin = 0x02

abbrev pub op_flash_data : ℕ
op_flash_data = 0x03

abbrev pub op_flash_end : ℕ
op_flash_end = 0x04

abbrev pub op_sync : ℕ
op_sync = 0x08

abbrev pub op_read_reg : ℕ
op_read_reg = 0x0A

abbrev pub op_spi_set_params : ℕ
op_spi_set_params = 0x0B

abbrev pub op_spi_attach : ℕ
op_spi_attach = 0x0D

abbrev pub op_change_baudrate : ℕ
op_change_baudrate = 0x0F

abbrev pub op_spi_flash_md5 : ℕ
op_spi_flash_md5 = 0x13

unfoldable pub put_u32 : ℕ → Bytes
put_u32 value = u8 value ∷ u8 (shr value 8) ∷ u8 (shr value 16) ∷ u8 (shr value 24) ∷ []

-- Whether a byte is sent as two.
abbrev pub is_escaped : ℕ → Bool
is_escaped byte = byte == slip_end || byte == slip_esc

-- `written` is what stands in `out` so far; `none` is false, "does not fit".
unfoldable pub slip_put : ℕ → Bytes → ℕ → Option Bytes
slip_put out_len written byte =
    if is_escaped byte
    then (if ltb out_len (length written + 2)
        then none
        else some (
            written ++ (slip_esc ∷ (if byte == slip_end then slip_esc_end else slip_esc_esc) ∷ [])))
    else if ltb out_len (length written + 1)
    then none
    else some (written ++ (byte ∷ []))

-- The loops of `request` over the header, the fixed words and the block.
unfoldable pub slip_put_all : ℕ → Option Bytes → Bytes → Option Bytes
slip_put_all out_len none bytes = none
slip_put_all out_len (some written) [] = some written
slip_put_all out_len (some written) (byte ∷ bytes) =
    slip_put_all out_len (slip_put out_len written byte) bytes

-- The delimiter behind the request.
unfoldable pub slip_close : ℕ → Option Bytes → Result Bytes
slip_close out_len none = err enobufs
slip_close out_len (some written) =
    if ltb out_len (length written + 1) then err enobufs else ok (written ++ (slip_end ∷ []))

abbrev pub request_header : ℕ → ℕ → ℕ → Bytes
request_header op size checksum = 0x00 ∷ op ∷ u8 size ∷ u8 (shr size 8) ∷ put_u32 checksum

unfoldable pub request : ℕ → Bytes → Bytes → ℕ → Option ℕ → Result Bytes
request op head body checksum none = err einval
request op head body checksum (some out_len) =
    if ltb out_len 1
    then err enobufs
    else slip_close out_len (
        slip_put_all out_len
          (slip_put_all out_len
            (slip_put_all out_len (some (slip_end ∷ []))
              (request_header op (length head + length body) checksum))
            head)
          body)

unfoldable pub put_words : List ℕ → Bytes
put_words [] = []
put_words (value ∷ values) = put_u32 value ++ put_words values

unfoldable pub words : ℕ → List ℕ → Option ℕ → Result Bytes
words op values out = request op (put_words values) [] 0 out

unfoldable pub sync : Option ℕ → Result Bytes
sync out = request op_sync (0x07 ∷ 0x07 ∷ 0x12 ∷ 0x20 ∷ replicate 32 0x55) [] 0 out

unfoldable pub read_reg : ℕ → Option ℕ → Result Bytes
read_reg address out = words op_read_reg (address ∷ []) out

unfoldable pub spi_attach : Option ℕ → Result Bytes
spi_attach out = words op_spi_attach (0 ∷ 0 ∷ []) out

unfoldable pub spi_set_params : ℕ → Option ℕ → Result Bytes
spi_set_params flash_size out =
    if flash_size == 0
    then err einval
    else words op_spi_set_params (0 ∷ flash_size ∷ 64 * 1024 ∷ 4 * 1024 ∷ 256 ∷ 0xFFFF ∷ []) out

unfoldable pub change_baud : ℕ → Option ℕ → Result Bytes
change_baud baud out =
    if baud == 0 then err einval else words op_change_baudrate (baud ∷ 0 ∷ []) out

-- The sum is a `uint64_t`, so it does not wrap.
unfoldable pub blocks : ℕ → ℕ
blocks size = u32 ((size + rom_block - 1) / rom_block)

unfoldable pub flash_begin : ℕ → ℕ → ℕ → Option ℕ → Result Bytes
flash_begin chip size offset out =
    if size == 0
    then err einval
    else words op_flash_begin
        (if chip == esp_chip_esp32
          then size ∷ blocks size ∷ rom_block ∷ offset ∷ []
          else size ∷ blocks size ∷ rom_block ∷ offset ∷ 0 ∷ [])
        out

unfoldable pub flash_end : Bool → Option ℕ → Result Bytes
flash_end run out = words op_flash_end ((if run then 0 else 1) ∷ []) out

unfoldable pub flash_md5 : ℕ → ℕ → Option ℕ → Result Bytes
flash_md5 offset size out =
    if size == 0 then err einval else words op_spi_flash_md5 (offset ∷ size ∷ 0 ∷ 0 ∷ []) out

abbrev pub checksum_seed : ℕ
checksum_seed = 0xEF

unfoldable pub checksum_of : ℕ → Bytes → ℕ
checksum_of acc [] = acc
checksum_of acc (byte ∷ bytes) = checksum_of (bit_xor acc byte) bytes

-- `block` NULL with a length of 0 is the empty block.
unfoldable pub flash_data : ℕ → Bytes → Option ℕ → Result Bytes
flash_data sequence block out =
    if ltb rom_block (length block)
    then err einval
    else let padded = block ++ replicate (rom_block - length block) 0xFF in
      request op_flash_data (put_words (rom_block ∷ sequence ∷ 0 ∷ 0 ∷ [])) padded
        (checksum_of checksum_seed padded) out
