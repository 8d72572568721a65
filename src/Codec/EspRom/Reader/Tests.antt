-- ===== src/Codec/EspRom/Reader/Tests.antt =====
-- Runs of the reader of codec/esp_rom.c.
use inkwell.Prelude.{◌+◌, ◌≡◌, refl, arith, true, none, some, [], ◌∷◌, ◌++◌, Bytes, length}
use inkwell.Codec.EspRom.Request.{slip_end}
use inkwell.Codec.EspRom.Request.Slip.{escaped}
use inkwell.Codec.EspRom.Reader.{Reader, Response, reader_reset, parse, finished, feed}
use inkwell.Codec.EspRom.Reader.Stream.{later, feed-append, feed-response}

-- The response to SYNC, with a word whose bytes have to be escaped.
abbrev a_frame : Bytes
a_frame = 1 ∷ 8 ∷ 4 ∷ 0 ∷ 0xC0 ∷ 0xDB ∷ 0 ∷ 0 ∷ 0 ∷ 0 ∷ 0 ∷ 0 ∷ []

abbrev a_response : Response
a_response = record { op = 8; value = 56256; payload = 0 ∷ 0 ∷ 0 ∷ 0 ∷ []; status = 0; error = 0 }

a_frame_run : parse a_frame ≡ some a_response
unfolding parse
a_frame_run = refl

-- The reader inside a frame that was garbled.
abbrev a_reader : Reader
a_reader = record { frame = 7 ∷ []; in_frame = true; escape = true; overflow = true }

a_reader_idle : finished a_reader ≡ none
unfolding finished
a_reader_idle = refl

feed-response_example :
    feed a_reader (slip_end ∷ (escaped a_frame ++ (slip_end ∷ 5 ∷ []))) ≡ record {
      consumed = 2 + length (escaped a_frame);
      reader = reader_reset;
      response = some a_response;
    }
feed-response_example =
    feed-response a_reader a_frame (5 ∷ []) a_response a_reader_idle (omega arith) a_frame_run

half_run : (feed reader_reset (0xC0 ∷ 1 ∷ 0xDB ∷ [])).response ≡ none
unfolding feed finished
half_run = refl

feed-append_example :
    feed reader_reset ((0xC0 ∷ 1 ∷ 0xDB ∷ []) ++ (0xDC ∷ 0xC0 ∷ []))
    ≡ later 3 (feed (feed reader_reset (0xC0 ∷ 1 ∷ 0xDB ∷ [])).reader (0xDC ∷ 0xC0 ∷ []))
feed-append_example = feed-append reader_reset (0xC0 ∷ 1 ∷ 0xDB ∷ []) (0xDC ∷ 0xC0 ∷ []) half_run
