-- ===== src/Codec/EspRom/Answers/Tests.antt =====
-- A run of the digest's comparison of codec/esp_rom.c.
use inkwell.Prelude.{
  ◌≡◌, ◌↔◌, ◌≤◌, length, take, arith, true, ◌∷◌, ◌++◌, Bytes, All, IsByte, replicate, refl,
}
use inkwell.Codec.EspRom.Request.{op_spi_flash_md5}
use inkwell.Codec.EspRom.Reader.{Response}
use inkwell.Codec.EspRom.Answers.{md5_matches, lower_text, hex_text, md5_matches-hex_text}

abbrev a_digest : Bytes
a_digest = 0xD4 ∷ 0x1D ∷ 0x8C ∷ 0xD9 ∷ replicate 12 0xAF

abbrev an_answer : Response
an_answer = record {
  op = op_spi_flash_md5;
  value = 0;
  payload = hex_text a_digest ++ replicate 4 0;
  status = 0;
  error = 0;
}

a_digest-IsBytes : All IsByte a_digest
a_digest-IsBytes = ground arith

md5_matches-hex_text_example : (md5_matches an_answer a_digest ≡ true) ↔ (
    (an_answer.status ≡ 0)
    × (an_answer.op ≡ op_spi_flash_md5)
    × (36 ≤ length an_answer.payload)
    × (lower_text (take 32 an_answer.payload) ≡ hex_text a_digest))
md5_matches-hex_text_example = md5_matches-hex_text an_answer a_digest a_digest-IsBytes refl

a_digest_matches : md5_matches an_answer a_digest ≡ true
a_digest_matches =
    (md5_matches-hex_text an_answer a_digest a_digest-IsBytes refl).1
      (refl, refl, omega arith, refl)
