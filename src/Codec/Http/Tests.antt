-- ===== src/Codec/Http/Tests.antt =====
-- A response of codec/http.c with a body of two bytes.
use inkwell.Prelude.{false, [], ◌∷◌, Bytes}
use inkwell.Codec.Http.{response_init}
use inkwell.Codec.Http.Response.{response_feed}
use inkwell.Codec.Http.Bytewise.{IsBytewise, response_feed-IsBytewise}

-- "HTTP/1.1 200 OK", CRLF, "Content-Length: 2", CRLF, CRLF, "hi!"
abbrev an_answer : Bytes
an_answer =
    72 ∷ 84 ∷ 84 ∷ 80 ∷ 47 ∷ 49 ∷ 46 ∷ 49 ∷ 32 ∷ 50 ∷ 48 ∷ 48 ∷ 32 ∷ 79 ∷ 75 ∷ 13 ∷ 10 ∷ 67 ∷ 111
    ∷ 110 ∷ 116 ∷ 101 ∷ 110 ∷ 116 ∷ 45 ∷ 76 ∷ 101 ∷ 110 ∷ 103 ∷ 116 ∷ 104 ∷ 58 ∷ 32 ∷ 50 ∷ 13 ∷ 10
    ∷ 13 ∷ 10 ∷ 104 ∷ 105 ∷ 33 ∷ []

response_feed-IsBytewise_example :
    IsBytewise an_answer (response_init false) (response_feed (response_init false) an_answer)
unfolding response_init
response_feed-IsBytewise_example =
    response_feed-IsBytewise an_answer (response_init false) (record { some_left = tt })
