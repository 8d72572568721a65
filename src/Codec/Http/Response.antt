-- ===== src/Codec/Http/Response.antt =====
-- The response of codec/http.c, fed runs of bytes of any size.
use inkwell.Prelude.{
  ℕ, suc, ◌+◌, ◌-◌, ◌*◌, Bool, true, false, ◌&&◌, ◌||◌, not, Option, none, some, [], ◌∷◌, ◌++◌,
  Bytes, length, get_or, take, ltb, leb, ◌==◌, if◌then◌else◌, u64,
}
use inkwell.Codec.Http.{
  head_max, chunk_line_max, in_head, in_length, in_chunk_size, in_chunk_data, in_chunk_end,
  in_chunk_end_lf, in_trailer, until_close, finished, broken, Phase, head_too_large, bad_chunk,
  truncated, HttpResponse, fail,
}
use inkwell.Codec.Http.Head.{is_digit_byte, lower, chop_cr, contains, parse_head}

-- An empty line before the status line is noise.
abbrev pub head_complete : Bool × HttpResponse → Bool × HttpResponse
head_complete (false, r) = (true, r)
head_complete (true, r) = (not (r.status == 0), r)

-- True when the head has just completed, or failed.
unfoldable pub head_byte : HttpResponse → ℕ → Bool × HttpResponse
head_byte r c =
    let kept = record r { head = r.head ++ (c ∷ []) } in
    let blank = r.line_len == 0 || (r.line_len == 1 && get_or r.head (length r.head - 1) 0 == 13) in
    if leb head_max (length r.head + 1)
    then (true, fail r head_too_large)
    else if not (c == 10)
    then (false, record kept { line_len = r.line_len + 1 })
    else if not blank
    then (false, record kept { line_len = 0 })
    else if leb (length kept.head) 2
    then (false, record r { head = []; line_len = 0 })
    else head_complete (parse_head (record kept { line_len = 0 }))

abbrev pub is_hex : ℕ → Bool
is_hex c = is_digit_byte c || (leb 97 (lower c) && leb (lower c) 102)

abbrev pub hex_value : ℕ → ℕ
hex_value c = if is_digit_byte c then c - 48 else lower c - 87

-- The size and what follows it, `none` where it does not fit 64 bits.
pub hex_loop : ℕ → Bytes → Option (ℕ × Bytes)
hex_loop size [] = some (size, [])
hex_loop size (c ∷ text) =
    let rest = hex_loop (size * 16 + hex_value c) text in
    if not (is_hex c)
    then some (size, c ∷ text)
    else if ltb 1152921504606846975 size
    then none
    else rest

pub skip_blanks_of : Bytes → Bytes
skip_blanks_of [] = []
skip_blanks_of (c ∷ text) =
    let rest = skip_blanks_of text in if c == 32 || c == 9 then rest else c ∷ text

pub extension_ok : Bytes → Bool
extension_ok [] = true
extension_ok (c ∷ text) = c == 59 && not (contains (c ∷ text) 13 || contains (c ∷ text) 0)

-- The size that a line gives.
pub chunk_size : Bytes → Option ℕ
chunk_size line = elim (hex_loop 0 line) [
  | none ↦ none
  | some (size, rest) ↦
      if length rest == length line || not (extension_ok (skip_blanks_of rest))
      then none
      else some size
]

abbrev pub chunk_begun : HttpResponse → Option ℕ → Bool × HttpResponse
chunk_begun r none = (true, fail r bad_chunk)
chunk_begun r (some size) = (
  false,
  if size == 0
      then record r { phase = in_trailer; line_len = 0; trailer_len = 0 }
      else record r { phase = in_chunk_data; remaining = size },
)

-- True having failed the response.
unfoldable pub chunk_size_byte : HttpResponse → ℕ → Bool × HttpResponse
chunk_size_byte r c =
    if not (c == 10)
    then (if leb chunk_line_max (length r.chunk_line + 1)
        then (true, fail r bad_chunk)
        else (false, record r { chunk_line = r.chunk_line ++ (c ∷ []) }))
    else chunk_begun (record r { chunk_line = [] }) (chunk_size (chop_cr r.chunk_line))

unfoldable pub chunk_end_byte : HttpResponse → ℕ → Bool × HttpResponse
chunk_end_byte r c =
    if c == 13
    then (false, record r { phase = in_chunk_end_lf })
    else if c == 10
    then (false, record r { phase = in_chunk_size })
    else (true, fail r bad_chunk)

unfoldable pub chunk_end_lf_byte : HttpResponse → ℕ → Bool × HttpResponse
chunk_end_lf_byte r c =
    if not (c == 10) then (true, fail r bad_chunk) else (false, record r { phase = in_chunk_size })

-- True at the end of the trailer, or having failed the response.
unfoldable pub trailer_byte : HttpResponse → ℕ → Bool × HttpResponse
trailer_byte r c =
    let counted = record r { trailer_len = r.trailer_len + 1 } in
    let blank = r.line_len == 0 || (r.line_len == 1 && r.line_cr) in
    if leb head_max (r.trailer_len + 1)
    then (true, fail counted head_too_large)
    else if not (c == 10)
    then (false, record counted { line_len = r.line_len + 1; line_cr = c == 13 })
    else if blank
    then (true, record counted { line_len = 0; phase = finished })
    else (false, record counted { line_len = 0 })

-- What a call leaves: the response, the bytes it took and the body among them, which is a run of the
-- input up to the last byte taken.
pub record FedResponse : Type 0 where
  pub response : HttpResponse
  pub consumed : ℕ
  pub body : Bytes

-- `n` bytes of a body, or of a chunk, with what follows its last one.
abbrev pub given : HttpResponse → Phase → ℕ → HttpResponse
given r ended n = record r {
  remaining = r.remaining - n;
  body_received = u64 (r.body_received + n);
  phase = if r.remaining - n == 0 then ended else r.phase;
}

abbrev pub at_most : ℕ → ℕ → ℕ
at_most n m = if ltb n m then n else m

unfoldable pub take_body : HttpResponse → Phase → Bytes → FedResponse
take_body r ended bytes =
    let n = at_most r.remaining (length bytes) in
    record { response = given r ended n; consumed = n; body = take n bytes }

unfoldable pub take_rest : HttpResponse → Bytes → FedResponse
take_rest r bytes = record {
  response = record r { body_received = u64 (r.body_received + length bytes) };
  consumed = length bytes;
  body = bytes;
}

abbrev pub one_more : FedResponse → FedResponse
one_more f = record f { consumed = suc f.consumed }

-- Behind a byte of framing: the call returns, or goes on with the rest.
abbrev pub after_byte : (HttpResponse → FedResponse) → Bool × HttpResponse → FedResponse
after_byte rest (true, r) = record { response = r; consumed = 1; body = [] }
after_byte rest (false, r) = one_more (rest r)

-- The byte `c` and those behind it, in a phase; `rest` goes on with those behind it.
abbrev pub feed_at : Phase → (HttpResponse → FedResponse) → HttpResponse → ℕ → Bytes → FedResponse
feed_at in_head rest r c bytes = after_byte rest (head_byte r c)
feed_at in_length rest r c bytes = take_body r finished (c ∷ bytes)
feed_at in_chunk_size rest r c bytes = after_byte rest (chunk_size_byte r c)
feed_at in_chunk_data rest r c bytes = take_body r in_chunk_end (c ∷ bytes)
feed_at in_chunk_end rest r c bytes = after_byte rest (chunk_end_byte r c)
feed_at in_chunk_end_lf rest r c bytes = after_byte rest (chunk_end_lf_byte r c)
feed_at in_trailer rest r c bytes = after_byte rest (trailer_byte r c)
feed_at until_close rest r c bytes = take_rest r (c ∷ bytes)
feed_at finished rest r c bytes = record { response = r; consumed = 0; body = [] }
feed_at broken rest r c bytes = record { response = r; consumed = 0; body = [] }

unfoldable pub feed_bytes : Bytes → HttpResponse → FedResponse
feed_bytes [] r = record { response = r; consumed = 0; body = [] }
feed_bytes (c ∷ bytes) r = feed_at r.phase (feed_bytes bytes) r c bytes

unfoldable pub response_feed : HttpResponse → Bytes → FedResponse
response_feed r bytes = feed_bytes bytes r

-- At the end of the connection.
pub response_finish : HttpResponse → Bool × HttpResponse
response_finish r = elim r.phase [
  | finished ↦ (true, r)
  | until_close ↦ (true, record r { phase = finished })
  | broken ↦ (false, r)
  | _ ↦ (false, fail r truncated)
]
