-- ===== src/Codec/Http/Url/Request.antt =====
-- The request of codec/http.c for a URL, and the lines it is made of.
use mathlib.Core.Option.{some-injective}
use mathlib.Core.Bool.{false≢true}
use inkwell.Prelude.{
  ℕ, zero, suc, ◌+◌, ◌-◌, ◌/◌, ◌%◌, ◌<◌, ◌≡◌, ◌∙◌, refl, sym, ap, arith, Bool, true, false, ◌||◌,
  not, Option, none, some, List, [], ◌∷◌, ◌++◌, append_assoc, Bytes, length, length-append, get_or,
  ltb, leb, ◌==◌, if◌then◌else◌, past_test, neither, ltb→le,
}
use inkwell.Codec.Http.Head.{contains, lines_of}
use inkwell.Codec.Http.Url.{HttpUrl, url_byte_ok, url_bytes_ok, default_port}
use inkwell.Codec.Http.Url.Sendable.{IsSendable, both_ok}

pub data HttpMethod : Type 0 where
  http_get http_head http_post : HttpMethod

unfoldable pub method_name : HttpMethod → Bytes
method_name http_get = 71 ∷ 69 ∷ 84 ∷ []
method_name http_head = 72 ∷ 69 ∷ 65 ∷ 68 ∷ []
method_name http_post = 80 ∷ 79 ∷ 83 ∷ 84 ∷ []

-- A number of at most five digits.
unfoldable pub decimal_front : ℕ → ℕ → Bytes → Bytes
decimal_front zero n text = text
decimal_front (suc digits) n text =
    let more = decimal_front digits (n / 10) ((48 + n % 10) ∷ text) in
    if n / 10 == 0 then (48 + n % 10) ∷ text else more

unfoldable pub port_text : HttpUrl → Bytes
port_text url = if url.port == default_port url.tls then [] else 58 ∷ decimal_front 5 url.port []

unfoldable pub bracketed_host : Bytes → Bytes
bracketed_host host = if contains host 58 then 91 ∷ host ++ (93 ∷ []) else host

abbrev pub http_version : Bytes
http_version = 32 ∷ 72 ∷ 84 ∷ 84 ∷ 80 ∷ 47 ∷ 49 ∷ 46 ∷ 49 ∷ []

abbrev pub request_line : HttpMethod → HttpUrl → Bytes
request_line method url = method_name method ++ ((32 ∷ url.target) ++ http_version)

abbrev pub host_name : Bytes
host_name = 72 ∷ 111 ∷ 115 ∷ 116 ∷ 58 ∷ 32 ∷ []

abbrev pub host_line : HttpUrl → Bytes
host_line url = host_name ++ (bracketed_host url.host ++ port_text url)

abbrev pub connection_line : Bytes
connection_line =
    67 ∷ 111 ∷ 110 ∷ 110 ∷ 101 ∷ 99 ∷ 116 ∷ 105 ∷ 111 ∷ 110 ∷ 58 ∷ 32 ∷ 99 ∷ 108 ∷ 111 ∷ 115 ∷ 101
    ∷ []

abbrev pub crlf : Bytes → Bytes
crlf line = line ++ (13 ∷ 10 ∷ [])

unfoldable pub add_headers : ℕ → Bytes → List Bytes → Option Bytes
add_headers cap text [] = if ltb (cap - length text) 3 then none else some (text ++ (13 ∷ 10 ∷ []))
add_headers cap text (header ∷ headers) =
    let rest = add_headers cap (text ++ crlf header) headers in
    if contains header 13 || contains header 10
    then none
    else if leb cap (length (text ++ crlf header))
    then none
    else rest

-- `none` is -1; the text is the bytes in front of the NUL.
unfoldable pub request_format : ℕ → HttpMethod → HttpUrl → List Bytes → Option Bytes
request_format cap method url headers =
    let text = crlf (request_line method url) ++ (crlf (host_line url) ++ crlf connection_line) in
    if length url.host == 0 || not (get_or url.target 0 0 == 47)
    then none
    else if leb cap (length text)
    then none
    else add_headers cap text headers

-- Lines, each with its CR and LF, or with its CR only.
abbrev crlf_all : List Bytes → Bytes
crlf_all [] = []
crlf_all (line ∷ lines) = crlf line ++ crlf_all lines

abbrev pub with_cr : List Bytes → List Bytes
with_cr [] = []
with_cr (line ∷ lines) = (line ++ (13 ∷ [])) ∷ with_cr lines

abbrev OneLines : List Bytes → Type 0
OneLines [] = Unit
OneLines (line ∷ lines) = (contains line 10 ≡ false) × OneLines lines

abbrev pub and_end : List Bytes → List Bytes
and_end [] = [] ∷ []
and_end (header ∷ headers) = header ∷ and_end headers

neither_one : (b c : Bool) → (if b then true else c) ≡ false → (b ≡ false) × (c ≡ false)
neither_one true c e = absurd (false≢true (sym e))
neither_one false c e = (refl, e)

lines_of-crlf :
    (line rest : Bytes)
    → contains line 10 ≡ false
    → lines_of (line ++ (13 ∷ 10 ∷ rest)) ≡ (line ++ (13 ∷ [])) ∷ lines_of rest
unfolding lines_of contains
lines_of-crlf [] rest e = refl
lines_of-crlf (c ∷ line) rest e =
    let (first, others) = neither_one (c == 10) (contains line 10) e in
    rw (first, lines_of-crlf line rest others) refl

lines_of-crlf_all :
    (lines : List Bytes) → OneLines lines → lines_of (crlf_all lines) ≡ with_cr lines
unfolding lines_of
lines_of-crlf_all [] one = refl
lines_of-crlf_all (line ∷ lines) (first, rest) =
    ap lines_of (append_assoc line (13 ∷ 10 ∷ []) (crlf_all lines))
    ∙ lines_of-crlf line (crlf_all lines) first
    ∙ ap (λ (behind : List Bytes). (line ++ (13 ∷ [])) ∷ behind) (lines_of-crlf_all lines rest)

contains-append :
    (a b : Bytes) (c : ℕ)
    → contains a c ≡ false
    → contains b c ≡ false
    → contains (a ++ b) c ≡ false
unfolding contains
contains-append [] b c e e' = e'
contains-append (x ∷ a) b c e e' =
    let (first, others) = neither_one (x == c) (contains a c) e in
    rw (first, contains-append a b c others e') refl

url_bytes_lack : (text : Bytes) → url_bytes_ok text ≡ true → contains text 10 ≡ false
unfolding url_bytes_ok contains
url_bytes_lack [] e = refl
url_bytes_lack (c ∷ text) e =
    let (first, rest) = both_ok (url_byte_ok c) (url_bytes_ok text) e in
    let other : (c == 10) ≡ false = ground arith in rw (other, url_bytes_lack text rest) refl

either_lacks :
    (b : Bool) (x y : Bytes)
    → contains x 10 ≡ false
    → contains y 10 ≡ false
    → contains (if b then x else y) 10 ≡ false
either_lacks true x y e e' = e
either_lacks false x y e e' = e'

decimal_lacks :
    (digits n : ℕ) (text : Bytes)
    → contains text 10 ≡ false
    → contains (decimal_front digits n text) 10 ≡ false
unfolding decimal_front contains
decimal_lacks zero n text e = e
decimal_lacks (suc digits) n text e =
    let digit : (48 + n % 10 == 10) ≡ false = ground arith in
    let longer : contains ((48 + n % 10) ∷ text) 10 ≡ false = rw (digit, e) refl in
    either_lacks (n / 10 == 0) ((48 + n % 10) ∷ text) _ longer
      (decimal_lacks digits (n / 10) ((48 + n % 10) ∷ text) longer)

method_lacks : (method : HttpMethod) → contains (method_name method) 10 ≡ false
unfolding method_name contains
method_lacks http_get = refl
method_lacks http_head = refl
method_lacks http_post = refl

request_line_lacks :
    (method : HttpMethod) (url : HttpUrl)
    → url_bytes_ok url.target ≡ true
    → contains (request_line method url) 10 ≡ false
unfolding contains
request_line_lacks method url clean =
    contains-append (method_name method) ((32 ∷ url.target) ++ http_version) 10
      (method_lacks method)
      (contains-append (32 ∷ url.target) http_version 10 (url_bytes_lack url.target clean) refl)

port_lacks : (url : HttpUrl) → contains (port_text url) 10 ≡ false
unfolding port_text contains
port_lacks url =
    either_lacks (url.port == default_port url.tls) [] (58 ∷ decimal_front 5 url.port []) refl
      (decimal_lacks 5 url.port [] refl)

host_line_lacks :
    (url : HttpUrl) → url_bytes_ok url.host ≡ true → contains (host_line url) 10 ≡ false
unfolding contains bracketed_host
host_line_lacks url clean =
    let host = url_bytes_lack url.host clean in
    contains-append (bracketed_host url.host) (port_text url) 10
      (either_lacks (contains url.host 58) (91 ∷ url.host ++ (93 ∷ [])) url.host
        (contains-append url.host (93 ∷ []) 10 host refl) host)
      (port_lacks url)

-- What the headers add is their lines, and an empty one.
add_headers-lines :
    (cap : ℕ) (text : Bytes) (headers : List Bytes) (whole : Bytes)
    → add_headers cap text headers ≡ some whole
    → (whole ≡ text ++ crlf_all (and_end headers))
      × OneLines (and_end headers)
      × (length whole < cap)
unfolding add_headers contains
add_headers-lines cap text [] whole e =
    let (room, same) =
      past_test (ltb (cap - length text) 3) (some (text ++ (13 ∷ 10 ∷ []))) whole e in
    let value = some-injective (text ++ (13 ∷ 10 ∷ [])) whole same in
    (
      sym value,
      (refl, tt),
      omega (arith, ltb→le _ _ room, ap length value, length-append text (13 ∷ 10 ∷ [])),
    )
add_headers-lines cap text (header ∷ headers) whole e =
    let more = text ++ crlf header in
    let rest = add_headers cap more headers in
    let (clean, fits) =
      past_test (contains header 13 || contains header 10)
        (if leb cap (length more) then none else rest) whole e in
    let (room, added) = past_test (leb cap (length more)) rest whole fits in
    let (same, lines, short) = add_headers-lines cap more headers whole added in
    (
      same ∙ append_assoc text (crlf header) (crlf_all (and_end headers)),
      ((neither (contains header 13) (contains header 10) clean).1, lines),
      short,
    )

pub request_format-with_cr :
    (cap : ℕ) (method : HttpMethod) (url : HttpUrl) (headers : List Bytes) (text : Bytes)
    → IsSendable url
    → request_format cap method url headers ≡ some text
    → (lines_of text
        ≡ with_cr (request_line method url ∷ host_line url ∷ connection_line ∷ and_end headers))
      × (length text < cap)
unfolding request_format contains
request_format-with_cr cap method url headers text s e =
    let one = crlf (request_line method url) in
    let two = crlf (host_line url) in
    let three = crlf connection_line in
    let front = one ++ (two ++ three) in
    let ending = crlf_all (and_end headers) in
    let (fine, fits) =
      past_test (length url.host == 0 || not (get_or url.target 0 0 == 47))
        (if leb cap (length front) then none else add_headers cap front headers) text e in
    let (room, added) =
      past_test (leb cap (length front)) (add_headers cap front headers) text fits in
    let (same, lines, short) = add_headers-lines cap front headers text added in
    let joined : front ++ ending ≡ one ++ (two ++ (three ++ ending)) =
      append_assoc one (two ++ three) ending
      ∙ ap (λ (t : Bytes). one ++ t) (append_assoc two three ending) in
    (
      ap lines_of (same ∙ joined)
          ∙ lines_of-crlf_all
              (request_line method url ∷ host_line url ∷ connection_line ∷ and_end headers)
              (
                request_line_lacks method url s.target_ok,
                (host_line_lacks url s.host_ok, (refl, lines)),
              ),
      short,
    )
