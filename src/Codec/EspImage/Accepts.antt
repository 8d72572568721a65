-- ===== src/Codec/EspImage/Accepts.antt =====
-- Which images are accepted.
use inkwell.Prelude.{ℕ, ◌≤◌, ◌<◌, ◌≡◌, ◌↔◌, arith, Bytes, length, get_or}
use inkwell.Codec.EspImage.{min_len, image_ok, le_u16, le_u32, app_verdict, image_validate}

-- An image of this chip that carries an application: long enough for the header and the
-- descriptor's magic, with the image's magic, the chip, a segment, and a first segment that can hold
-- that magic and does.
pub record IsApp (bytes : Bytes) (chip : ℕ) : Type 0 where
  pub enough : min_len ≤ length bytes
  pub magic : get_or bytes 0 0 ≡ 0xE9
  pub for_chip : le_u16 bytes 12 ≡ chip
  pub some_segment : 0 < get_or bytes 1 0
  pub first_segment : 4 ≤ le_u32 bytes 28
  pub descriptor : le_u32 bytes 32 ≡ 0xABCD5432

-- An image is accepted exactly where it is an application image of the chip that is asked for.
pub image_validate-IsApp :
    (bytes : Bytes) (expect_chip : ℕ)
    → ((image_validate bytes expect_chip).0 ≡ image_ok) ↔ IsApp bytes expect_chip
unfolding image_validate app_verdict
image_validate-IsApp bytes expect_chip = (
  λ h. record {
    enough = ground arith;
    magic = ground arith;
    for_chip = ground arith;
    some_segment = ground arith;
    first_segment = ground arith;
    descriptor = ground arith;
  },
  λ app. ground (
    arith, app.enough, app.magic, app.for_chip, app.some_segment, app.first_segment, app.descriptor,
  ),
)
