-- ===== src/Codec/Zip.antt =====
-- codec/zip.c: where a member of a ZIP archive is, from the end of the file and its directory. A
-- window is the bytes of the file from an offset on; NULL is none. A member's name is a C string.
pub mod Record
pub mod Member
mod Tests
use inkwell.Prelude.{
  ℕ, zero, suc, ◌+◌, ◌-◌, ◌*◌, Bool, true, false, ◌&&◌, ◌||◌, not, Option, none, some, List, [],
  ◌∷◌, Bytes, length, get_or, take, drop, ltb, ◌==◌, if◌then◌else◌, same_bytes, u64,
}

abbrev pub eocd_size : ℕ
eocd_size = 22

abbrev pub central_header_size : ℕ
central_header_size = 46

abbrev pub local_header_size : ℕ
local_header_size = 30

abbrev pub name_max : ℕ
name_max = 96

abbrev pub u16_sentinel : ℕ
u16_sentinel = 0xFFFF

abbrev pub u32_sentinel : ℕ
u32_sentinel = 0xFFFFFFFF

pub record ZipEnd : Type 0 where
  pub central_offset : ℕ
  pub central_size : ℕ
  pub entries : ℕ

pub record ZipEntry : Type 0 where
  pub name : Bytes
  pub flags : ℕ
  pub method : ℕ
  pub crc32 : ℕ
  pub compressed_size : ℕ
  pub uncompressed_size : ℕ
  pub local_header_offset : ℕ

pub data ZipSearch : Type 0 where
  member_found : ZipEntry → ZipSearch
  absent malformed : ZipSearch

pub zip_u16 : Bytes → ℕ → ℕ
zip_u16 bytes at = get_or bytes at 0 + get_or bytes (at + 1) 0 * 256

pub zip_u32 : Bytes → ℕ → ℕ
zip_u32 bytes at =
    get_or bytes at 0
    + get_or bytes (at + 1) 0 * 256
    + get_or bytes (at + 2) 0 * 65536
    + get_or bytes (at + 3) 0 * 16777216

-- The signature, and a comment that accounts for the bytes behind the record.
pub is_record : Bytes → ℕ → Bool
is_record window back =
    zip_u32 window back == 0x06054B50
    && zip_u16 window (back + 20) == length window - back - eocd_size

-- A record is refused with zip64 sentinels, or with a directory that ends behind it.
pub record_at : Bytes → ℕ → ℕ → Option ZipEnd
record_at window window_offset back =
    let entries = zip_u16 window (back + 10) in
    let size = zip_u32 window (back + 12) in
    let offset = zip_u32 window (back + 16) in
    if entries == u16_sentinel || size == u32_sentinel || offset == u32_sentinel
    then none
    else if ltb (u64 (window_offset + back)) (offset + size)
    then none
    else some (record { central_offset = offset; central_size = size; entries = entries })

-- From `back` down to the front of the window.
pub find_end_loop : Bytes → ℕ → ℕ → Option ZipEnd
find_end_loop window window_offset zero =
    if is_record window 0 then record_at window window_offset 0 else none
find_end_loop window window_offset (suc back) =
    let earlier = find_end_loop window window_offset back in
    if is_record window (suc back) then record_at window window_offset (suc back) else earlier

pub find_end : Option Bytes → ℕ → Option ZipEnd
find_end none window_offset = none
find_end (some window) window_offset =
    if ltb (length window) eocd_size
    then none
    else find_end_loop window window_offset (length window - eocd_size)

-- What the returned pointer points to, up to the end of the window.
pub central_slice : ZipEnd → Option Bytes → ℕ → Option Bytes
central_slice end none window_offset = none
central_slice end (some window) window_offset =
    if ltb end.central_offset window_offset
    then none
    else let into = end.central_offset - window_offset in
      if ltb (length window) into || ltb (length window - into) end.central_size
      then none
      else some (drop into window)

-- The bytes in front of the NUL.
pub c_string : Bytes → Bytes
c_string [] = []
c_string (x ∷ xs) = let rest = c_string xs in if x == 0 then [] else x ∷ rest

-- Behind the last '/', if there is one.
pub behind_slash : Bytes → Option Bytes
behind_slash [] = none
behind_slash (x ∷ xs) = elim (behind_slash xs) [
  | some rest ↦ some rest
  | none ↦ if x == 0x2F then some xs else none
]

pub zip_basename : Bytes → Bytes
zip_basename name = elim (behind_slash name) [ some rest ↦ rest | none ↦ name ]

-- The entry whose header is at `at`.
pub entry_name : Bytes → ℕ → Bytes
entry_name central at =
    c_string (take (zip_u16 central (at + 28)) (drop (at + central_header_size) central))

pub entry_size : Bytes → ℕ → ℕ
entry_size central at =
    central_header_size
    + zip_u16 central (at + 28)
    + zip_u16 central (at + 30)
    + zip_u16 central (at + 32)

pub entry_at : Bytes → ℕ → ZipEntry
entry_at central at = record {
  name = entry_name central at;
  flags = zip_u16 central (at + 8);
  method = zip_u16 central (at + 10);
  crc32 = zip_u32 central (at + 16);
  compressed_size = zip_u32 central (at + 20);
  uncompressed_size = zip_u32 central (at + 24);
  local_header_offset = zip_u32 central (at + 42);
}

pub is_entry : Bytes → ℕ → Bool
is_entry central at =
    not (ltb (length central) at || ltb (length central - at) central_header_size)
    && zip_u32 central at == 0x02014B50
    && not (ltb (length central - at) (entry_size central at))

-- A name that does not fit matches nothing.
pub entry_matches : Bytes → ℕ → Bytes → Bool
entry_matches central at basename =
    ltb (zip_u16 central (at + 28)) name_max
    && same_bytes (zip_basename (entry_name central at)) basename

pub matched : ZipEntry → ZipSearch
matched e =
    if e.local_header_offset == u32_sentinel
      || e.compressed_size == u32_sentinel
      || e.uncompressed_size == u32_sentinel
    then malformed
    else member_found e

pub find_member_loop : ℕ → ℕ → Bytes → Bytes → ZipSearch
find_member_loop zero at central basename = absent
find_member_loop (suc n) at central basename =
    let later = find_member_loop n (at + entry_size central at) central basename in
    if not (is_entry central at)
    then malformed
    else if entry_matches central at basename
    then matched (entry_at central at)
    else later

-- A NULL basename is an empty one.
pub find_member : Option Bytes → ℕ → Bytes → ZipSearch
find_member none entries basename = malformed
find_member (some central) entries [] = absent
find_member (some central) entries (c ∷ basename) =
    find_member_loop entries 0 central (c ∷ basename)

pub local_data_start : Option Bytes → ZipEntry → Option ℕ
local_data_start none e = none
local_data_start (some header) e =
    if ltb (length header) local_header_size
    then none
    else if not (zip_u32 header 0 == 0x04034B50)
    then none
    else some
        (u64 (e.local_header_offset + local_header_size + zip_u16 header 26 + zip_u16 header 28))
