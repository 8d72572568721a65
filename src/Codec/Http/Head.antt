-- ===== src/Codec/Http/Head.antt =====
-- The head of a response in codec/http.c: its lines, its fields and what they say of the body.
use inkwell.Prelude.{
  ℕ, suc, ◌+◌, ◌-◌, ◌*◌, Bool, true, false, ◌&&◌, ◌||◌, not, Option, none, some, List, [], ◌∷◌,
  Bytes, length, get_or, take, drop, ltb, leb, ◌==◌, if◌then◌else◌, same_bytes,
}
use inkwell.Codec.Http.{
  in_chunk_size, in_length, until_close, finished, framing_none, framing_length, framing_chunked,
  framing_until_close, HttpError, bad_status_line, bad_header, bad_length, bad_encoding, upgrade,
  HttpResponse, fail,
}

abbrev pub is_digit_byte : ℕ → Bool
is_digit_byte c = leb 48 c && leb c 57

abbrev pub lower : ℕ → ℕ
lower c = if leb 65 c && leb c 90 then c + 32 else c

unfoldable pub lower_all : Bytes → Bytes
lower_all [] = []
lower_all (c ∷ text) = lower c ∷ lower_all text

unfoldable pub equal_nocase : Bytes → Bytes → Bool
equal_nocase a b = same_bytes (lower_all a) (lower_all b)

unfoldable pub contains : Bytes → ℕ → Bool
contains [] c = false
contains (x ∷ xs) c = let rest = contains xs c in if x == c then true else rest

-- RFC 9110 `tchar`: letters, digits and !#$%&'*+-.^_`|~
abbrev token_marks : Bytes
token_marks = 33 ∷ 35 ∷ 36 ∷ 37 ∷ 38 ∷ 39 ∷ 42 ∷ 43 ∷ 45 ∷ 46 ∷ 94 ∷ 95 ∷ 96 ∷ 124 ∷ 126 ∷ []

pub is_token_char : ℕ → Bool
is_token_char c =
    (leb 97 c && leb c 122) || (leb 65 c && leb c 90) || is_digit_byte c || contains token_marks c

abbrev pub push_front : ℕ → List Bytes → List Bytes
push_front c [] = (c ∷ []) ∷ []
push_front c (line ∷ lines) = (c ∷ line) ∷ lines

-- The lines between the LFs.
unfoldable pub lines_of : Bytes → List Bytes
lines_of [] = []
lines_of (c ∷ text) = let rest = lines_of text in if c == 10 then [] ∷ rest else push_front c rest

-- Without a CR at the end.
pub chop_cr : Bytes → Bytes
chop_cr line =
    if not (length line == 0) && get_or line (length line - 1) 0 == 13
    then take (length line - 1) line
    else line

abbrev is_blank : ℕ → Bool
is_blank c = c == 32 || c == 9

pub trim_front : Bytes → Bytes
trim_front [] = []
trim_front (c ∷ text) = let rest = trim_front text in if is_blank c then rest else c ∷ text

abbrev keep_unless_blank : ℕ → Bytes → Bytes
keep_unless_blank c [] = if is_blank c then [] else c ∷ []
keep_unless_blank c (x ∷ text) = c ∷ x ∷ text

pub trim_back : Bytes → Bytes
trim_back [] = []
trim_back (c ∷ text) = keep_unless_blank c (trim_back text)

pub token_len : Bytes → ℕ
token_len [] = 0
token_len (c ∷ text) = let rest = token_len text in if is_token_char c then suc rest else 0

-- `name: value`.
pub split_header : Bytes → Option (Bytes × Bytes)
split_header line =
    let colon = token_len line in
    let value = drop (colon + 1) line in
    if colon == 0 || leb (length line) colon || not (get_or line colon 0 == 58)
    then none
    else if contains value 13 || contains value 0
    then none
    else some (take colon line, trim_back (trim_front value))

pub content_length_loop : ℕ → Bytes → Option ℕ
content_length_loop parsed [] = some parsed
content_length_loop parsed (c ∷ text) =
    let rest = content_length_loop (parsed * 10 + (c - 48)) text in
    if not (is_digit_byte c) || ltb 1844674407370955160 parsed then none else rest

abbrev text_content_length : Bytes
text_content_length =
    99 ∷ 111 ∷ 110 ∷ 116 ∷ 101 ∷ 110 ∷ 116 ∷ 45 ∷ 108 ∷ 101 ∷ 110 ∷ 103 ∷ 116 ∷ 104 ∷ []

abbrev text_transfer_encoding : Bytes
text_transfer_encoding =
    116 ∷ 114 ∷ 97 ∷ 110 ∷ 115 ∷ 102 ∷ 101 ∷ 114 ∷ 45 ∷ 101 ∷ 110 ∷ 99 ∷ 111 ∷ 100 ∷ 105 ∷ 110 ∷ 103
    ∷ []

abbrev text_chunked : Bytes
text_chunked = 99 ∷ 104 ∷ 117 ∷ 110 ∷ 107 ∷ 101 ∷ 100 ∷ []

-- What the fields say of the body's end.
pub data Fields : Type 0 where
  fields : Option ℕ → Bool → Fields
  bad_fields : HttpError → Fields

-- A second length has to be the same.
abbrev with_length : Option ℕ → Bool → Option ℕ → Fields
with_length known chunked none = bad_fields bad_length
with_length none chunked (some parsed) = fields (some parsed) chunked
with_length (some length') chunked (some parsed) =
    if parsed == length' then fields (some parsed) chunked else bad_fields bad_length

pub take_field : Option ℕ → Bool → Bytes → Bytes → Fields
take_field known chunked name value =
    if equal_nocase name text_content_length
    then (if length value == 0
        then bad_fields bad_length
        else with_length known chunked (content_length_loop 0 value))
    else if equal_nocase name text_transfer_encoding
    then (if chunked || not (equal_nocase value text_chunked)
        then bad_fields bad_encoding
        else fields known true)
    else fields known chunked

abbrev take_line : Option ℕ → Bool → Option (Bytes × Bytes) → Fields
take_line known chunked none = bad_fields bad_header
take_line known chunked (some (name, value)) = take_field known chunked name value

abbrev next_fields : (Option ℕ → Bool → Fields) → Fields → Fields
next_fields rest (fields known chunked) = rest known chunked
next_fields rest (bad_fields error) = bad_fields error

-- Up to the empty line.
pub scan_fields : List Bytes → Option ℕ → Bool → Fields
scan_fields [] known chunked = fields known chunked
scan_fields (line ∷ lines) known chunked = elim (chop_cr line) [
  | [] ↦ fields known chunked
  | c ∷ text ↦ next_fields (scan_fields lines) (take_line known chunked (split_header (c ∷ text)))
]

-- HTTP/1.x SP 3DIGIT [SP reason]
pub status_line_ok : Bytes → Bool
status_line_ok line =
    leb 12 (length line)
    && same_bytes (take 7 line) (72 ∷ 84 ∷ 84 ∷ 80 ∷ 47 ∷ 49 ∷ 46 ∷ [])
    && is_digit_byte (get_or line 7 0)
    && get_or line 8 0 == 32
    && is_digit_byte (get_or line 9 0)
    && is_digit_byte (get_or line 10 0)
    && is_digit_byte (get_or line 11 0)
    && (length line == 12 || get_or line 12 0 == 32)

pub status_of : Bytes → ℕ
status_of line =
    (get_or line 9 0 - 48) * 100 + (get_or line 10 0 - 48) * 10 + (get_or line 11 0 - 48)

abbrev pub frame_length : HttpResponse → ℕ → Option ℕ → HttpResponse
frame_length r status none = record r {
  status = status;
  framing = framing_until_close;
  phase = until_close;
}
frame_length r status (some length') = record r {
  status = status;
  framing = framing_length;
  content_length = length';
  remaining = length';
  phase = if length' == 0 then finished else in_length;
}

-- How the body of a final response ends. Chunks win over a length.
unfoldable pub frame_body : HttpResponse → ℕ → Option ℕ → Bool → HttpResponse
frame_body r status known chunked =
    if r.head_request || status == 204 || status == 304
    then record r { status = status; framing = framing_none; phase = finished }
    else if chunked
    then record r {
      status = status;
      framing = framing_chunked;
      phase = in_chunk_size;
      chunk_line = [];
    }
    else frame_length r status known

-- True with a final response set up, or with an interim one forgotten.
abbrev pub after_fields : HttpResponse → ℕ → Fields → Bool × HttpResponse
after_fields r status (bad_fields error) = (false, fail r error)
after_fields r status (fields known chunked) =
    (true, if ltb status 200 then record r { head = [] } else frame_body r status known chunked)

abbrev pub parse_lines : HttpResponse → List Bytes → Bool × HttpResponse
parse_lines r [] = (false, fail r bad_status_line)
parse_lines r (first ∷ lines) =
    let line = chop_cr first in
    let status = status_of line in
    if not (status_line_ok line) || ltb status 100
    then (false, fail r bad_status_line)
    else if status == 101
    then (false, fail r upgrade)
    else after_fields r status (scan_fields lines none false)

unfoldable pub parse_head : HttpResponse → Bool × HttpResponse
parse_head r = parse_lines r (lines_of r.head)

abbrev wanted : Bytes → Option Bytes → Option (Bytes × Bytes) → Option Bytes
wanted name rest none = rest
wanted name rest (some (field, value)) = if equal_nocase field name then some value else rest

pub find_field : List Bytes → Bytes → Option Bytes
find_field [] name = none
find_field (line ∷ lines) name =
    let rest = find_field lines name in
    elim (chop_cr line) [ [] ↦ none | c ∷ text ↦ wanted name rest (split_header (c ∷ text)) ]

-- inkwell_http_response_header: the value of the first field of that name.
pub response_header : HttpResponse → Bytes → Option Bytes
response_header r name = if r.status == 0 then none else find_field (drop 1 (lines_of r.head)) name
