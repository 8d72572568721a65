-- ===== src/Codec/Json/Tests.antt =====
-- Runs of the reader of codec/json.c on small documents.
use inkwell.Prelude.{◌≡◌, refl, same_bytes, true, some, false, [], ◌∷◌}
use inkwell.Codec.Json.{
  Json, json_init, skip_value, read_string, object_find, read_u64, skip_json_space, enter_object,
  json_take, find_loop, next_key, text_to_nul, skip_nested, u64_loop,
}
use inkwell.Codec.Json.Strings.{
  read_string_body, string_loop, next_piece, unicode_piece, hex4, encode_utf8, whole_characters,
  lead_of, skip_string_body,
}
use inkwell.Codec.Json.Values.{skip_value-read_string}

-- `"\u00e9\"x",` with a blank in front.
abbrev document : Json
document = json_init (32 ∷ 34 ∷ 92 ∷ 117 ∷ 48 ∷ 48 ∷ 101 ∷ 57 ∷ 92 ∷ 34 ∷ 120 ∷ 34 ∷ 44 ∷ []) 13

skip_value-read_string_example : skip_value document ≡ (true, (read_string document 1).1)
unfolding read_string json_init skip_json_space read_string_body string_loop next_piece
    unicode_piece hex4 encode_utf8 whole_characters lead_of
skip_value-read_string_example = skip_value-read_string document 1 refl

text_read : (read_string document 8).2 ≡ (195 ∷ 169 ∷ 34 ∷ 120 ∷ [])
unfolding read_string json_init skip_json_space read_string_body string_loop next_piece
    unicode_piece hex4 encode_utf8 whole_characters lead_of
text_read = refl

-- `{"a":[1],"b":7}`
abbrev members : Json
members =
    json_init (123 ∷ 34 ∷ 97 ∷ 34 ∷ 58 ∷ 91 ∷ 49 ∷ 93 ∷ 44 ∷ 34 ∷ 98 ∷ 34 ∷ 58 ∷ 55 ∷ 125 ∷ []) 15

member_found :
    read_u64 (object_find members (98 ∷ [])).1
    ≡ (some 7, record { rest = 125 ∷ []; at_first = false })
unfolding read_u64 skip_json_space object_find enter_object json_take json_init find_loop next_key
    read_string_body string_loop next_piece same_bytes text_to_nul skip_value skip_nested
    skip_string_body u64_loop
member_found = refl
