-- ===== src/Codec/EspImage/Tests.antt =====
-- A run of codec/esp_image.c.
use inkwell.Prelude.{ℕ, ◌≡◌, ◌↔◌, [], ◌∷◌, ◌++◌, Bytes, replicate}
use inkwell.Codec.EspImage.{image_ok, image_validate}
use inkwell.Codec.EspImage.Accepts.{IsApp, image_validate-IsApp}

-- The shortest image that is accepted, for the chip 9.
abbrev a_small_app : Bytes
a_small_app =
    (0xE9 ∷ 7 ∷ replicate {A = ℕ} 10 0)
    ++ (9 ∷ 0 ∷ replicate 14 0)
    ++ (4 ∷ 0 ∷ 0 ∷ 0 ∷ 0x32 ∷ 0x54 ∷ 0xCD ∷ 0xAB ∷ [])

image_validate-IsApp_example : ((image_validate a_small_app 9).0 ≡ image_ok) ↔ IsApp a_small_app 9
image_validate-IsApp_example = image_validate-IsApp a_small_app 9
