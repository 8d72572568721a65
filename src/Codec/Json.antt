-- ===== src/Codec/Json.antt =====
-- codec/json.c: a reader that walks a document with a cursor. `rest` is the text from the cursor to the
-- end. A call returns whether it succeeded, beside the cursor that it leaves.
pub mod Strings
pub mod Skipping
pub mod Values
pub mod Tests
use inkwell.Prelude.{
  ℕ, zero, suc, ◌+◌, ◌-◌, ◌*◌, ◌/◌, ◌%◌, Bool, true, false, ◌&&◌, ◌||◌, not, Option, none, some, [],
  ◌∷◌, Bytes, length, take, drop, ltb, leb, ◌==◌, if◌then◌else◌, same_bytes,
}
use inkwell.Codec.Json.Strings.{skip_string_body, StringRead, read_string_body}

abbrev pub max_depth : ℕ
max_depth = 32

pub record Json : Type 0 where
  pub rest : Bytes
  pub at_first : Bool

-- A text up to its NUL.
unfoldable pub text_to_nul : Bytes → Bytes
text_to_nul [] = []
text_to_nul (c ∷ text) = let behind = text_to_nul text in if c == 0 then [] else c ∷ behind

-- A text that is given with no length ends at its NUL.
unfoldable pub json_init : Bytes → ℕ → Json
json_init text len = record {
  rest = if ltb 0 len then take len text else text_to_nul text;
  at_first = false;
}

abbrev pub is_json_space : ℕ → Bool
is_json_space c = c == 32 || c == 9 || c == 10 || c == 13

unfoldable pub skip_json_space : Bytes → Bytes
skip_json_space [] = []
skip_json_space (c ∷ text) =
    let behind = skip_json_space text in if is_json_space c then behind else c ∷ text

-- 0 at the end.
abbrev pub byte_of : Bytes → ℕ
byte_of [] = 0
byte_of (c ∷ text) = c

abbrev pub json_spaced : Json → Json
json_spaced json = record json { rest = skip_json_space json.rest }

-- The byte that is expected is not 0.
unfoldable pub json_take : Json → ℕ → Bool × Json
json_take json expected =
    let here = json_spaced json in
    if byte_of here.rest == expected
    then (true, record here { rest = drop 1 here.rest })
    else (false, here)

abbrev json_entered : Bool × Json → Bool × Json
json_entered (true, json) = (true, record json { at_first = true })
json_entered (false, json) = (false, json)

unfoldable pub enter_object : Json → Bool × Json
enter_object json = json_entered (json_take json 123)

unfoldable pub enter_array : Json → Bool × Json
enter_array json = json_entered (json_take json 91)

-- The comma in front of every member but the first.
abbrev member_separated : Json → Bool × Json
member_separated json = if json.at_first then (true, json) else json_take json 44

abbrev key_read : Json → StringRead → Bool × Json × Bytes
key_read json s =
    if s.success
    then (let (colon, behind) = json_take (record json { rest = s.rest }) 58 in
        (colon, behind, s.text))
    else (false, record json { rest = s.rest }, [])

abbrev quoted_key : ℕ → Bool × Json → Bool × Json × Bytes
quoted_key room (false, json) = (false, json, [])
quoted_key room (true, json) = key_read json (read_string_body room json.rest)

abbrev member_key : ℕ → Bool × Json → Bool × Json × Bytes
member_key room (false, json) = (false, json, [])
member_key room (true, json) = quoted_key room (json_take (record json { at_first = false }) 34)

abbrev next_json_member : ℕ → Bool × Json → Bool × Json × Bytes
next_json_member room (true, json) = (false, record json { at_first = false }, [])
next_json_member room (false, json) = member_key room (member_separated json)

-- The key of the next member, cut to `room` bytes.
unfoldable pub next_key : Json → ℕ → Bool × Json × Bytes
next_key json room = next_json_member room (json_take json 125)

abbrev element : Bool × Json → Bool × Json
element (false, json) = (false, json)
element (true, json) =
    let here = json_spaced (record json { at_first = false }) in
    (not (byte_of here.rest == 0), here)

abbrev next_in_array : Bool × Json → Bool × Json
next_in_array (true, json) = (false, record json { at_first = false })
next_in_array (false, json) = element (member_separated json)

unfoldable pub next_element : Json → Bool × Json
next_element json = next_in_array (json_take json 93)

-- What a string's body leaves, where a quote was there to open it.
abbrev pub string_at : Bool → Json → StringRead → Bool × Json × Bytes
string_at true here s = (s.success, record here { rest = s.rest }, s.text)
string_at false here s = (false, here, [])

unfoldable pub read_string : Json → ℕ → Bool × Json × Bytes
read_string json room =
    let here = json_spaced json in
    string_at (byte_of here.rest == 34) here (read_string_body room (drop 1 here.rest))

abbrev is_json_digit : ℕ → Bool
is_json_digit c = leb 48 c && leb c 57

-- The digits from a value on; `none` where it does not fit 64 bits.
unfoldable pub u64_loop : ℕ → Bytes → Option ℕ × Bytes
u64_loop value [] = (some value, [])
u64_loop value (c ∷ text) =
    let more = u64_loop (value * 10 + (c - 48)) text in
    if not (is_json_digit c)
    then (some value, c ∷ text)
    else if ltb ((18446744073709551615 - (c - 48)) / 10) value
    then (none, c ∷ text)
    else more

unfoldable pub read_u64 : Json → Option ℕ × Json
read_u64 json =
    let here = json_spaced json in
    let (value, behind) = u64_loop 0 here.rest in
    if is_json_digit (byte_of here.rest)
    then (value, record here { rest = behind })
    else (none, here)

unfoldable pub read_bool : Json → Option Bool × Json
read_bool json =
    let here = json_spaced json in
    if same_bytes (take 4 here.rest) (116 ∷ 114 ∷ 117 ∷ 101 ∷ [])
    then (some true, record here { rest = drop 4 here.rest })
    else if same_bytes (take 5 here.rest) (102 ∷ 97 ∷ 108 ∷ 115 ∷ 101 ∷ [])
    then (some false, record here { rest = drop 5 here.rest })
    else (none, here)

-- A number or a literal ends at what closes or separates it.
unfoldable pub skip_literal : Bytes → Bytes
skip_literal [] = []
skip_literal (c ∷ text) =
    let behind = skip_literal text in
    if c == 44 || c == 125 || c == 93 || is_json_space c then c ∷ text else behind

abbrev behind_string : (Bytes → Bool × Bytes) → Bool × Bytes → Bool × Bytes
behind_string go_on (true, rest) = go_on rest
behind_string go_on (false, rest) = (false, rest)

-- Braces and brackets are counted; `fuel` is for each byte of the text.
unfoldable pub skip_nested : ℕ → ℕ → Bytes → Bool × Bytes
skip_nested zero depth text = (false, text)
skip_nested (suc fuel) depth [] = (false, [])
skip_nested (suc fuel) depth (c ∷ text) =
    let in_string = behind_string (skip_nested fuel depth) (skip_string_body text) in
    let deeper = skip_nested fuel (depth + 1) text in
    let shallower = skip_nested fuel (depth - 1) text in
    let same = skip_nested fuel depth text in
    if c == 34
    then in_string
    else if c == 123 || c == 91
    then (if ltb max_depth (depth + 1) then (false, text) else deeper)
    else if c == 125 || c == 93
    then (if depth == 1 then (true, text) else shallower)
    else same

abbrev pub moved : Json → Bool × Bytes → Bool × Json
moved json (skipped, rest) = (skipped, record json { rest = rest })

-- By the first byte of the value.
abbrev pub skip_from : ℕ → Json → Bool × Json
skip_from first here =
    if first == 0
    then (false, here)
    else if first == 34
    then moved here (skip_string_body (drop 1 here.rest))
    else if not (first == 123 || first == 91)
    then (true, record here { rest = skip_literal here.rest })
    else moved here (skip_nested (length here.rest) 0 here.rest)

unfoldable pub skip_value : Json → Bool × Json
skip_value json = let here = json_spaced json in skip_from (byte_of here.rest) here

abbrev past_value : (Json → Bool × Json) → Bool × Json → Bool × Json
past_value find (true, json) = find json
past_value find (false, json) = (false, json)

abbrev compare_name : (Json → Bool × Json) → Bytes → Bool × Json × Bytes → Bool × Json
compare_name find key (false, json, name) = (false, json)
compare_name find key (true, json, name) =
    if same_bytes (text_to_nul name) key then (true, json) else past_value find (skip_value json)

-- A member takes a byte at least.
unfoldable pub find_loop : ℕ → Bytes → Json → Bool × Json
find_loop zero key json = (false, json)
find_loop (suc fuel) key json = compare_name (find_loop fuel key) key (next_key json 63)

abbrev in_object : Bytes → Bool × Json → Bool × Json
in_object key (true, json) = find_loop (suc (length json.rest)) key json
in_object key (false, json) = (false, json)

unfoldable pub object_find : Json → Bytes → Bool × Json
object_find json key = in_object key (enter_object json)
