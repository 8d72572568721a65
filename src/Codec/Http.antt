-- ===== src/Codec/Http.antt =====
-- codec/http.c: the response to a request, read from a stream. `head` holds the `head_len` bytes in
-- use, and `chunk_line` the `chunk_line_len` ones.
pub mod Head
pub mod Response
pub mod Url
pub mod Framed
pub mod Bytewise
mod Tests
use inkwell.Prelude.{ℕ, Bool, false, Bytes, []}

abbrev pub head_max : ℕ
head_max = 16384

abbrev pub chunk_line_max : ℕ
chunk_line_max = 128

pub data Phase : Type 0 where
  in_head in_length in_chunk_size in_chunk_data in_chunk_end in_chunk_end_lf : Phase
  in_trailer until_close finished broken : Phase

pub data Framing : Type 0 where
  framing_none framing_length framing_chunked framing_until_close : Framing

pub data HttpError : Type 0 where
  http_ok bad_status_line bad_header head_too_large bad_length bad_encoding bad_chunk : HttpError
  upgrade truncated : HttpError

pub record HttpResponse : Type 0 where
  pub status : ℕ
  pub framing : Framing
  pub content_length : ℕ
  pub body_received : ℕ
  pub error : HttpError
  pub head : Bytes
  pub phase : Phase
  pub head_request : Bool
  pub line_len : ℕ
  pub line_cr : Bool
  pub remaining : ℕ
  pub chunk_line : Bytes
  pub trailer_len : ℕ

unfoldable pub response_init : Bool → HttpResponse
response_init head_request = record {
  status = 0;
  framing = framing_none;
  content_length = 0;
  body_received = 0;
  error = http_ok;
  head = [];
  phase = in_head;
  head_request = head_request;
  line_len = 0;
  line_cr = false;
  remaining = 0;
  chunk_line = [];
  trailer_len = 0;
}

abbrev pub fail : HttpResponse → HttpError → HttpResponse
fail r error = record r { error = error; phase = broken }
