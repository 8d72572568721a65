-- ===== src/Codec/EspRom/Request/Tests.antt =====
-- Runs of the requests of codec/esp_rom.c.
use inkwell.Prelude.{◌+◌, ◌≡◌, some, [], ◌∷◌, ◌++◌, length, ltb, if◌then◌else◌, ok, err, enobufs}
use inkwell.Codec.EspRom.Request.{slip_end, op_read_reg, request}
use inkwell.Codec.EspRom.Request.Slip.{escaped, request_bytes, request-escaped}

request-escaped_example : request op_read_reg (0xC0 ∷ 0xDB ∷ 0 ∷ 1 ∷ []) [] 0 (some 16) ≡ (
    if ltb 16 (2 + length (escaped (request_bytes op_read_reg (0xC0 ∷ 0xDB ∷ 0 ∷ 1 ∷ []) [] 0)))
    then err enobufs
    else ok (
        slip_end
        ∷ (escaped (request_bytes op_read_reg (0xC0 ∷ 0xDB ∷ 0 ∷ 1 ∷ []) [] 0) ++ (slip_end ∷ []))))
request-escaped_example = request-escaped op_read_reg 0 16 (0xC0 ∷ 0xDB ∷ 0 ∷ 1 ∷ []) []
