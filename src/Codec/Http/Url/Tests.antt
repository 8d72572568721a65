-- ===== src/Codec/Http/Url/Tests.antt =====
-- URLs and a request of codec/http.c.
use inkwell.Prelude.{◌≡◌, ◌<◌, refl, false, some, [], ◌∷◌, Bytes, length, same_bytes}
use inkwell.Codec.Http.Head.{equal_nocase, lower_all, contains, lines_of}
use inkwell.Codec.Http.Url.{
  HttpUrl, url_bytes_ok, length_until, set_target, port_loop, url_port, literal_ok, with_host,
  parse_authority, url_parse, scheme_len, up_to_slash, url_resolve,
}
use inkwell.Codec.Http.Url.Sendable.{IsSendable, url_parse-IsSendable, url_resolve-IsSendable}
use inkwell.Codec.Http.Url.Request.{
  http_get, method_name, decimal_front, port_text, bracketed_host, add_headers, request_format,
  with_cr,
}
use inkwell.Codec.Http.Url.Lines.{IsAuthority, wire_lines, request_format-lines}

-- "http://a:8080/b#c"
abbrev an_url_text : Bytes
an_url_text =
    104 ∷ 116 ∷ 116 ∷ 112 ∷ 58 ∷ 47 ∷ 47 ∷ 97 ∷ 58 ∷ 56 ∷ 48 ∷ 56 ∷ 48 ∷ 47 ∷ 98 ∷ 35 ∷ 99 ∷ []

abbrev an_url : HttpUrl
an_url = record { tls = false; host = 97 ∷ []; port = 8080; target = 47 ∷ 98 ∷ [] }

an_url_parsed : url_parse an_url_text ≡ some an_url
unfolding url_parse parse_authority with_host set_target port_loop url_port length_until
    url_bytes_ok literal_ok equal_nocase lower_all contains same_bytes
an_url_parsed = refl

url_parse-IsSendable_example : IsSendable an_url
url_parse-IsSendable_example = url_parse-IsSendable an_url_text an_url an_url_parsed

-- "d?e" beside it.
abbrev a_neighbour : HttpUrl
a_neighbour = record { tls = false; host = 97 ∷ []; port = 8080; target = 47 ∷ 100 ∷ 63 ∷ 101 ∷ [] }

resolved_neighbour : url_resolve an_url (100 ∷ 63 ∷ 101 ∷ []) ≡ some a_neighbour
unfolding url_resolve scheme_len up_to_slash set_target length_until url_bytes_ok contains
resolved_neighbour = refl

url_resolve-IsSendable_example : IsSendable a_neighbour
url_resolve-IsSendable_example =
    url_resolve-IsSendable an_url a_neighbour (100 ∷ 63 ∷ 101 ∷ [])
      (url_parse-IsSendable an_url_text an_url an_url_parsed) resolved_neighbour

abbrev a_request : Bytes
a_request =
    71 ∷ 69 ∷ 84 ∷ 32 ∷ 47 ∷ 98 ∷ 32 ∷ 72 ∷ 84 ∷ 84 ∷ 80 ∷ 47 ∷ 49 ∷ 46 ∷ 49 ∷ 13 ∷ 10 ∷ 72 ∷ 111
    ∷ 115 ∷ 116 ∷ 58 ∷ 32 ∷ 97 ∷ 58 ∷ 56 ∷ 48 ∷ 56 ∷ 48 ∷ 13 ∷ 10 ∷ 67 ∷ 111 ∷ 110 ∷ 110 ∷ 101 ∷ 99
    ∷ 116 ∷ 105 ∷ 111 ∷ 110 ∷ 58 ∷ 32 ∷ 99 ∷ 108 ∷ 111 ∷ 115 ∷ 101 ∷ 13 ∷ 10 ∷ 120 ∷ 13 ∷ 10 ∷ 13
    ∷ 10 ∷ []

a_request_formatted : request_format 200 http_get an_url ((120 ∷ []) ∷ []) ≡ some a_request
unfolding request_format add_headers method_name decimal_front port_text bracketed_host contains
a_request_formatted = refl

request_format-lines_example :
    (authority : Bytes) × IsAuthority an_url authority
    × (lines_of a_request ≡ with_cr (wire_lines http_get an_url authority ((120 ∷ []) ∷ [])))
    × (length a_request < 200)
request_format-lines_example =
    request_format-lines 200 http_get an_url ((120 ∷ []) ∷ []) a_request
      (url_parse-IsSendable an_url_text an_url an_url_parsed) a_request_formatted
