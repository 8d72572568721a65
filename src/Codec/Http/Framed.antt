-- ===== src/Codec/Http/Framed.antt =====
-- What the parser of codec/http.c keeps: inside a body of known length, or a chunk, some of it is left.
use inkwell.Prelude.{
  ℕ, ◌+◌, ◌-◌, ◌<◌, arith, Bool, true, false, ◌&&◌, ◌||◌, not, Option, none, some, List, [], ◌∷◌,
  ◌++◌, Bytes, length, get_or, ltb, leb, ◌==◌, if◌then◌else◌, Bool-cases, inl, inr,
}
use inkwell.Codec.Http.{
  head_max, chunk_line_max, in_head, in_length, in_chunk_size, in_chunk_data, in_chunk_end,
  in_chunk_end_lf, in_trailer, until_close, finished, broken, Phase, bad_status_line, upgrade,
  HttpResponse, fail,
}
use inkwell.Codec.Http.Head.{
  Fields, fields, bad_fields, chop_cr, lines_of, scan_fields, status_of, status_line_ok,
  frame_length, frame_body, after_fields, parse_lines, parse_head,
}
use inkwell.Codec.Http.Response.{
  head_complete, head_byte, chunk_size, chunk_begun, chunk_size_byte, chunk_end_byte,
  chunk_end_lf_byte, trailer_byte,
}

abbrev pub SomeLeft : Phase → ℕ → Type 0
SomeLeft in_length remaining = 0 < remaining
SomeLeft in_chunk_data remaining = 0 < remaining
SomeLeft in_head remaining = Unit
SomeLeft in_chunk_size remaining = Unit
SomeLeft in_chunk_end remaining = Unit
SomeLeft in_chunk_end_lf remaining = Unit
SomeLeft in_trailer remaining = Unit
SomeLeft until_close remaining = Unit
SomeLeft finished remaining = Unit
SomeLeft broken remaining = Unit

pub record IsFramed (phase : Phase) (remaining : ℕ) : Type 0 where
  pub some_left : SomeLeft phase remaining

abbrev pub Framed : HttpResponse → Type 0
Framed r = IsFramed r.phase r.remaining

either-Framed :
    (b : Bool) (x y : Bool × HttpResponse) → Framed x.1 → Framed y.1 → Framed (if b then x else y).1
either-Framed true x y this that = this
either-Framed false x y this that = that

of_either : (b : Bool) (x y : HttpResponse) → Framed x → Framed y → Framed (if b then x else y)
of_either true x y this that = this
of_either false x y this that = that

length-IsFramed : (n : ℕ) → IsFramed (if n == 0 then finished else in_length) n
length-IsFramed n = elim (Bool-cases (n == 0)) [
  | inl empty ↦ rw empty (record { some_left = tt })
  | inr more ↦ rw more (record { some_left = ground arith })
]

frame_length-IsFramed :
    (r : HttpResponse) (status : ℕ) (known : Option ℕ) → Framed (frame_length r status known)
frame_length-IsFramed r status none = record { some_left = tt }
frame_length-IsFramed r status (some n) = length-IsFramed n

frame_body-IsFramed :
    (r : HttpResponse) (status : ℕ) (known : Option ℕ) (chunked : Bool)
    → Framed (frame_body r status known chunked)
unfolding frame_body
frame_body-IsFramed r status known chunked =
    of_either (r.head_request || status == 204 || status == 304) _ _ (record { some_left = tt })
      (of_either chunked _ _ (record { some_left = tt }) (frame_length-IsFramed r status known))

after_fields-IsFramed :
    (r : HttpResponse) (status : ℕ) (scanned : Fields)
    → Framed r
    → Framed (after_fields r status scanned).1
after_fields-IsFramed r status (bad_fields error) f = record { some_left = tt }
after_fields-IsFramed r status (fields known chunked) f =
    of_either (ltb status 200) _ _ f (frame_body-IsFramed r status known chunked)

parse_lines-IsFramed :
    (r : HttpResponse) (lines : List Bytes) → Framed r → Framed (parse_lines r lines).1
parse_lines-IsFramed r [] f = record { some_left = tt }
parse_lines-IsFramed r (first ∷ lines) f =
    let line = chop_cr first in
    let status = status_of line in
    either-Framed (not (status_line_ok line) || ltb status 100) (false, fail r bad_status_line)
      (if status == 101
        then (false, fail r upgrade)
        else after_fields r status (scan_fields lines none false))
      (record { some_left = tt })
      (either-Framed (status == 101) (false, fail r upgrade)
        (after_fields r status (scan_fields lines none false)) (record { some_left = tt })
        (after_fields-IsFramed r status (scan_fields lines none false) f))

head_complete-IsFramed :
    (result : Bool × HttpResponse) → Framed result.1 → Framed (head_complete result).1
head_complete-IsFramed (true, r) f = f
head_complete-IsFramed (false, r) f = f

pub head_byte-IsFramed : (r : HttpResponse) (c : ℕ) → Framed r → Framed (head_byte r c).1
unfolding head_byte parse_head
head_byte-IsFramed r c f =
    either-Framed (leb head_max (length r.head + 1)) _ _ (record { some_left = tt })
      (either-Framed (not (c == 10)) _ _ f (
        either-Framed
          (not (r.line_len == 0 || (r.line_len == 1 && get_or r.head (length r.head - 1) 0 == 13)))
          _ _ f
          (either-Framed (leb (length (r.head ++ (c ∷ []))) 2) _ _ f (
            head_complete-IsFramed _ (
              parse_lines-IsFramed (record r { head = r.head ++ (c ∷ []); line_len = 0 })
                (lines_of (r.head ++ (c ∷ []))) f)))))

chunk_begun-IsFramed : (r : HttpResponse) (size : Option ℕ) → Framed (chunk_begun r size).1
chunk_begun-IsFramed r none = record { some_left = tt }
chunk_begun-IsFramed r (some size) = elim (Bool-cases (size == 0)) [
  | inl last ↦ rw last (record { some_left = tt })
  | inr more ↦ rw more (record { some_left = ground arith })
]

pub chunk_size_byte-IsFramed :
    (r : HttpResponse) (c : ℕ) → Framed r → Framed (chunk_size_byte r c).1
unfolding chunk_size_byte
chunk_size_byte-IsFramed r c f =
    either-Framed (not (c == 10)) _ _
      (either-Framed (leb chunk_line_max (length r.chunk_line + 1)) _ _ (record { some_left = tt })
        f)
      (chunk_begun-IsFramed (record r { chunk_line = [] }) (chunk_size (chop_cr r.chunk_line)))

pub chunk_end_byte-IsFramed : (r : HttpResponse) (c : ℕ) → Framed (chunk_end_byte r c).1
unfolding chunk_end_byte
chunk_end_byte-IsFramed r c =
    either-Framed (c == 13) _ _ (record { some_left = tt })
      (either-Framed (c == 10) _ _ (record { some_left = tt }) (record { some_left = tt }))

pub chunk_end_lf_byte-IsFramed : (r : HttpResponse) (c : ℕ) → Framed (chunk_end_lf_byte r c).1
unfolding chunk_end_lf_byte
chunk_end_lf_byte-IsFramed r c =
    either-Framed (not (c == 10)) _ _ (record { some_left = tt }) (record { some_left = tt })

pub trailer_byte-IsFramed : (r : HttpResponse) (c : ℕ) → Framed r → Framed (trailer_byte r c).1
unfolding trailer_byte
trailer_byte-IsFramed r c f =
    either-Framed (leb head_max (r.trailer_len + 1)) _ _ (record { some_left = tt })
      (either-Framed (not (c == 10)) _ _ f (
        either-Framed (r.line_len == 0 || (r.line_len == 1 && r.line_cr)) _ _
          (record { some_left = tt }) f))
