-- ===== src/Codec/EspRom/Reader.antt =====
-- The reader of responses of codec/esp_rom.c. `frame` holds the `len` bytes of the source's buffer.
pub mod Bounds
pub mod Stream
mod Tests
use inkwell.Prelude.{
  ℕ, zero, suc, ◌+◌, ◌-◌, ◌*◌, ◌/◌, ◌%◌, ◌^◌, Bool, true, false, ◌&&◌, ◌||◌, not, Option, none,
  some, List, [], ◌∷◌, ◌++◌, Bytes, shr, u8, u32, length, get_or, drop, ltb, leb, ◌==◌,
  if◌then◌else◌,
}
use inkwell.Codec.EspRom.Request.{slip_end, slip_esc, slip_esc_end, slip_esc_esc}

abbrev pub frame_max : ℕ
frame_max = 128

pub record Reader : Type 0 where
  pub frame : Bytes
  pub in_frame : Bool
  pub escape : Bool
  pub overflow : Bool

-- `data` is the bytes that the source's pointer and length select in the frame.
pub record Response : Type 0 where
  pub op : ℕ
  pub value : ℕ
  pub payload : Bytes
  pub status : ℕ
  pub error : ℕ

abbrev pub reader_reset : Reader
reader_reset = record { frame = []; in_frame = false; escape = false; overflow = false }

unfoldable pub get_u32 : Bytes → ℕ → ℕ
get_u32 bytes at =
    get_or bytes at 0
    + get_or bytes (at + 1) 0 * 256
    + get_or bytes (at + 2) 0 * 65536
    + get_or bytes (at + 3) 0 * 16777216

-- A delimited run that is a whole response: an 8-byte header and a status of 4 bytes at least.
unfoldable pub parse : Bytes → Option Response
unfolding get_u32
parse frame =
    let size = get_or frame 2 0 + get_or frame 3 0 * 256 in
    if ltb (length frame) (8 + 4) || not (get_or frame 0 0 == 0x01)
    then none
    else if not (8 + size == length frame) || ltb size 4
    then none
    else some (record {
      op = get_or frame 1 0;
      value = get_u32 frame 4;
      payload = drop 8 frame;
      status = get_or (drop 8 frame) (size - 4) 0;
      error = get_or (drop 8 frame) (size - 4 + 1) 0;
    })

-- The test at a delimiter.
unfoldable pub finished : Reader → Option Response
finished r = if r.in_frame && ltb 0 (length r.frame) && not r.overflow then parse r.frame else none

-- After a response, and after a delimiter that opens a frame.
abbrev pub closed : Reader → Reader
closed r = record r { in_frame = false; frame = []; escape = false }

abbrev pub opened : Reader
opened = record { frame = []; in_frame = true; escape = false; overflow = false }

-- The byte at the end of the frame, if there is room.
abbrev pub append_byte : Reader → ℕ → Reader
append_byte r value =
    if leb frame_max (length r.frame)
    then record r { overflow = true }
    else record r { frame = r.frame ++ (value ∷ []) }

-- One byte that is no delimiter.
unfoldable pub take_byte : Reader → ℕ → Reader
take_byte r byte =
    if not r.in_frame
    then r
    else if r.escape
    then (if byte == slip_esc_end
        then append_byte (record r { escape = false }) slip_end
        else if byte == slip_esc_esc
        then append_byte (record r { escape = false }) slip_esc
        else record r { escape = false; overflow = true })
    else if byte == slip_esc
    then record r { escape = true }
    else append_byte r byte

-- What `inkwell_esp_rom_reader_feed` returns, the reader it leaves, and `*out` where `*ready`.
pub record Fed : Type 0 where
  pub consumed : ℕ
  pub reader : Reader
  pub response : Option Response

unfoldable pub feed_loop : Bytes → ℕ → Reader → Fed
feed_loop [] i r = record { consumed = i; reader = r; response = none }
feed_loop (byte ∷ bytes) i r = elim (byte == slip_end) [
  | true ↦ elim (finished r) [
    | none ↦ feed_loop bytes (i + 1) opened
    | some out ↦ record { consumed = i + 1; reader = closed r; response = some out }
  ]
  | false ↦ feed_loop bytes (i + 1) (take_byte r byte)
]

unfoldable pub feed : Reader → Bytes → Fed
unfolding feed_loop
feed r bytes = feed_loop bytes 0 r
