-- ===== src/Codec/EspImage.antt =====
-- codec/esp_image.c: the header of an application image. An image that is NULL is an empty one.
pub mod Accepts
mod Tests
use inkwell.Prelude.{ℕ, ◌+◌, ◌*◌, Bool, ◌||◌, not, Bytes, length, get_or, ltb, ◌==◌, if◌then◌else◌}

abbrev pub min_len : ℕ
min_len = 36

pub data ImageVerdict : Type 0 where
  image_ok too_short bad_magic wrong_chip not_an_app : ImageVerdict

pub record ImageInfo : Type 0 where
  pub chip_id : ℕ
  pub segments : ℕ

pub le_u16 : Bytes → ℕ → ℕ
le_u16 bytes at = get_or bytes at 0 + get_or bytes (at + 1) 0 * 256

pub le_u32 : Bytes → ℕ → ℕ
le_u32 bytes at =
    get_or bytes at 0
    + get_or bytes (at + 1) 0 * 256
    + get_or bytes (at + 2) 0 * 65536
    + get_or bytes (at + 3) 0 * 16777216

abbrev pub no_info : ImageInfo
no_info = record { chip_id = 0; segments = 0 }

-- Behind the chip: the length of the first segment and the application descriptor.
pub app_verdict : Bytes → ImageInfo → ImageVerdict
unfolding le_u32
app_verdict bytes info =
    if info.segments == 0 || ltb (le_u32 bytes 28) 4
    then not_an_app
    else if not (le_u32 bytes 32 == 0xABCD5432)
    then not_an_app
    else image_ok

-- The verdict, and what `*info` is filled with.
pub image_validate : Bytes → ℕ → ImageVerdict × ImageInfo
unfolding le_u16 app_verdict
image_validate bytes expect_chip =
    let info : ImageInfo = record { chip_id = le_u16 bytes 12; segments = get_or bytes 1 0 } in
    if ltb (length bytes) min_len
    then (too_short, no_info)
    else if not (get_or bytes 0 0 == 0xE9)
    then (bad_magic, no_info)
    else if not (info.chip_id == expect_chip)
    then (wrong_chip, info)
    else (app_verdict bytes info, info)
