-- ===== src/Codec/Uf2/Tests.antt =====
-- A run of codec/uf2.c.
use inkwell.Prelude.{ℕ, ◌+◌, ◌≡◌, refl, ap, true, false, [], ◌∷◌, ◌++◌, Bytes, replicate}
use inkwell.Codec.Uf2.{verdict_ok, Info, validate}
use inkwell.Codec.Uf2.Contiguous.{validate_span}

-- One record that carries 4 bytes to 0x1000.
abbrev an_image : Bytes
an_image =
    (0x55 ∷ 0x46 ∷ 0x32 ∷ 0x0A ∷ 0x57 ∷ 0x51 ∷ 0x5D ∷ 0x9E ∷ replicate {A = ℕ} 4 0)
    ++ (0 ∷ 0x10 ∷ 0 ∷ 0 ∷ 4 ∷ 0 ∷ 0 ∷ 0 ∷ replicate 4 0)
    ++ (1 ∷ 0 ∷ 0 ∷ 0 ∷ replicate 480 0)
    ++ (0x30 ∷ 0x6F ∷ 0xB1 ∷ 0x0A ∷ [])

abbrev an_info : Info
an_info = record {
  family_id = 0;
  has_family = false;
  num_blocks = 1;
  blocks = 1;
  payload_bytes = 4;
  first_address = 0x1000;
  last_address = 0x1004;
  contiguous = true;
}

an_image_run : validate an_image 0 ≡ (verdict_ok, an_info)
unfolding validate
an_image_run = refl

validate_span_example : an_info.first_address + an_info.payload_bytes ≡ an_info.last_address
validate_span_example = validate_span an_image 0 an_info (ap (λ result. result.1) an_image_run) refl
