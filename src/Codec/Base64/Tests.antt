-- ===== src/Codec/Base64/Tests.antt =====
-- A run of codec/base64.c.
use inkwell.Prelude.{◌≡◌, ◌<◌, refl, arith, false, some, [], ◌∷◌, Bytes, All, IsByte, length, inl}
use inkwell.Codec.Base64.{encoded_len, encode, decode, padded}
use inkwell.Codec.Base64.RoundTrip.{decode-encode}

abbrev four_bytes : Bytes
four_bytes = 0 ∷ 255 ∷ 16 ∷ 128 ∷ []

four_bytes-IsBytes : All IsByte four_bytes
four_bytes-IsBytes = ground arith

four_bytes_fit : encoded_len false (length four_bytes) < 20
unfolding encoded_len
four_bytes_fit = omega arith

decode-encode_example :
    (length (encode four_bytes false (some 20)) ≡ encoded_len false (length four_bytes))
    × (decode (encode four_bytes false (some 20)) padded 4 ≡ some four_bytes)
decode-encode_example =
    decode-encode four_bytes false padded 20 4 four_bytes-IsBytes (inl refl) four_bytes_fit
      (omega arith)
